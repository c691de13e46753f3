-- ===== src/Misc/Threads.antt =====
-- misc/qc_threadpool.cc: the threads that handle the received messages. What a thread does under
-- the lock is one move, and so is each atomic step that it takes outside; a run is a list of moves
-- of the threads and of the callers. A message is the number of its buffer. Errors of the lock's
-- calls, which are only logged, are left out, and so is the gap between the test of m_shutdown in a
-- thread and its wait, into which StopAll, which takes no lock, can fall.
pub mod Counts
pub mod Created
pub mod Order
pub mod Runs
mod Tests
use quick_comm.Base.{
  ℕ, zero, suc, ◌+◌, Bool, true, false, not, ◌&&◌, List, [], ◌∷◌, ◌++◌, Option, none, some, ◌==◌,
  if◌then◌else◌, length, map, ◌>>=◌,
}
use quick_comm.Base.Int.{ℤ, pos, ◌+ℤ◌, ◌-ℤ◌, ltb_ℤ}

-- Where a thread is in ThreadFunc: before pthread_mutex_lock, in pthread_cond_wait, behind the
-- unlock with a message, behind ++m_iRunningThreadNum, behind threadRecvProcFunc, or at its end.
-- A thread that pthread_create did not make is absent.
pub data Stage : Type 0 where
  at_lock waiting at_end absent : Stage
  holding working handled : ℕ → Stage

-- ThreadItem
pub record Thread : Type 0 where
  pub ifrunning : Bool
  pub place : Stage

pub record Threads : Type 0 where
  pub queue : List ℕ
  pub queue_n : ℤ
  pub thread_n : ℤ
  pub running_n : ℤ
  pub last_emg_time : ℤ
  pub shutdown : Bool
  pub threads : List Thread

-- CThreadPool::CThreadPool; m_iThreadNum is set by Create.
pub new_threads : Threads
new_threads = record {
  queue = [];
  queue_n = pos 0;
  thread_n = pos 0;
  running_n = pos 0;
  last_emg_time = pos 0;
  shutdown = false;
  threads = [];
}

-- The loop of CThreadPool::Create over what pthread_create returns
create_loop : List Bool → Threads → Bool × Threads
create_loop [] s = (true, s)
create_loop (true ∷ made) s =
    create_loop made
      (record s { threads = s.threads ++ (record { ifrunning = false; place = at_lock } ∷ []) })
create_loop (false ∷ made) s =
    (false, record s { threads = s.threads ++ (record { ifrunning = false; place = absent } ∷ []) })

-- CThreadPool::Create, up to the wait for the threads
unfoldable pub create : List Bool → Threads → Bool × Threads
unfolding create_loop
create made s = create_loop made (record s { thread_n = pos (length made) })

-- lblfor: Create returns when this is true.
unfoldable pub all_running : List Thread → Bool
all_running [] = true
all_running (t ∷ ts) = t.ifrunning && all_running ts

-- All threads are busy, and the last warning of it is more than ten seconds old.
abbrev pub warns : ℤ → Threads → Bool
warns currtime s =
    not (ltb_ℤ s.thread_n s.running_n)
    && not (ltb_ℤ s.running_n s.thread_n)
    && ltb_ℤ (pos 10) (currtime -ℤ s.last_emg_time)

-- CThreadPool::Call, at a time, and whether it warns
unfoldable pub call : ℤ → Threads → Bool × Threads
call currtime s = (
  warns currtime s,
  record s { last_emg_time = if warns currtime s then currtime else s.last_emg_time },
)

-- CThreadPool::inMsgRecvQueueAndSignal
unfoldable pub in_msg_recv_queue_and_signal : ℤ → ℕ → Threads → Threads
unfolding call
in_msg_recv_queue_and_signal currtime buf s =
    (call currtime (record s { queue = s.queue ++ (buf ∷ []); queue_n = s.queue_n +ℤ pos 1 })).1

-- pthread_cond_broadcast
abbrev pub woken : Stage → Stage
woken waiting = at_lock
woken p = p

abbrev pub wake : Thread → Thread
wake t = record t { place = woken t.place }

-- The first half of CThreadPool::StopAll, as one move. The source sets m_shutdown and calls
-- pthread_cond_broadcast() without the mutex, so a thread that has tested m_shutdown before and
-- waits only after can miss both; in the model a thread tests and begins to wait in one move, so
-- runs with such a lost wake-up are left out.
unfoldable pub stop_all : Threads → Threads
stop_all s = if s.shutdown then s else record s { shutdown = true; threads = map wake s.threads }

has_returned : Stage → Bool
has_returned at_end = true
has_returned absent = true
has_returned _ = false

all_returned : List Thread → Bool
unfolding has_returned
all_returned [] = true
all_returned (t ∷ ts) = has_returned t.place && all_returned ts

-- pthread_join for every thread, and the release of the thread objects
unfoldable pub join_all : Threads → Option Threads
unfolding all_returned
join_all s = if s.shutdown && all_returned s.threads then some (record s { threads = [] }) else none

-- The part of ThreadFunc under the lock: what becomes of the thread, and what it takes.
pub record Locked : Type 0 where
  pub thread : Thread
  pub taken : List ℕ
  pub queue : List ℕ
  pub queue_n : ℤ

-- `ready` is ifrunning.
unfoldable pub locked : Bool → Bool → List ℕ → ℤ → Locked
locked ready true queue n = record {
  thread = record { ifrunning = ready; place = at_end };
  taken = [];
  queue = queue;
  queue_n = n;
}
locked ready false [] n = record {
  thread = record { ifrunning = true; place = waiting };
  taken = [];
  queue = [];
  queue_n = n;
}
locked ready false (jobbuf ∷ queue) n = record {
  thread = record { ifrunning = ready; place = holding jobbuf };
  taken = jobbuf ∷ [];
  queue = queue;
  queue_n = n -ℤ pos 1;
}

-- What can happen next. A waiting thread may wake at any time.
pub data Move : Type 0 where
  arrive : ℤ → ℕ → Move
  stop join : Move
  turn : ℕ → Move

-- A move takes these messages out of the queue, and leaves this pool.
abbrev pub After : Type 0
After = Option (List ℕ × Threads)

-- A thread goes on from its place in ThreadFunc; `with_thread` puts it back among the others.
unfoldable pub thread_step : Bool → Stage → (Thread → List Thread) → Threads → After
unfolding locked
thread_step ready at_lock with_thread s =
    let l = locked ready s.shutdown s.queue s.queue_n in
    some
      (l.taken, record s { queue = l.queue; queue_n = l.queue_n; threads = with_thread l.thread })
thread_step ready waiting with_thread s =
    some ([], record s { threads = with_thread (record { ifrunning = ready; place = at_lock }) })
thread_step ready (holding m) with_thread s = some (
  [],
  record s {
    running_n = s.running_n +ℤ pos 1;
    threads = with_thread (record { ifrunning = ready; place = working m });
  },
)
thread_step ready (working m) with_thread s =
    some ([], record s { threads = with_thread (record { ifrunning = ready; place = handled m }) })
thread_step ready (handled m) with_thread s = some (
  [],
  record s {
    running_n = s.running_n -ℤ pos 1;
    threads = with_thread (record { ifrunning = ready; place = at_lock });
  },
)
thread_step ready at_end with_thread s = none
thread_step ready absent with_thread s = none

-- The thread with an index, behind the threads `front`
unfoldable pub turn_at : ℕ → List Thread → List Thread → Threads → After
unfolding thread_step
turn_at i front [] s = none
turn_at zero front (t ∷ ts) s = thread_step t.ifrunning t.place (λ t'. front ++ (t' ∷ ts)) s
turn_at (suc i) front (t ∷ ts) s = turn_at i (front ++ (t ∷ [])) ts s

unfoldable pub step : Move → Threads → After
unfolding in_msg_recv_queue_and_signal stop_all join_all turn_at
step (arrive currtime buf) s = some ([], in_msg_recv_queue_and_signal currtime buf s)
step stop s = some ([], stop_all s)
step join s = join_all s >>= λ s'. some ([], s')
step (turn i) s = turn_at i [] s.threads s

-- A run, with the messages in the order in which threads took them
unfoldable pub run : List Move → Threads → After
unfolding step
run [] s = some ([], s)
run (m ∷ ms) s = do (taken, s') ← step m s; (more, s'') ← run ms s'; some (taken ++ more, s'')

-- CThreadPool::clearMsgRecvQueue; the count is not touched.
pub clear_msg_recv_queue : Threads → Threads
clear_msg_recv_queue s = record s { queue = [] }
