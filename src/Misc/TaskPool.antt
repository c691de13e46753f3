-- ===== src/Misc/TaskPool.antt =====
-- include/thread_pool.h: the second thread pool, with tasks of any function. What a thread does
-- under the lock is one move, and so is each step that it takes outside; a task is a number. What
-- goes to the console and the future of a task are left out. start() is over before the first move.
pub mod Counts
pub mod Drain
pub mod Order
pub mod Runs
pub mod Started
mod Tests
use quick_comm.Base.{
  ℕ, zero, suc, ◌+◌, ◌-◌, ◌^◌, Bool, true, false, not, ◌&&◌, List, [], ◌∷◌, ◌++◌, Option, none,
  some, ltb, ◌==◌, if◌then◌else◌, length, ◌>>=◌,
}
use quick_comm.Base.Int.{ℤ, pos, negsuc, pos_part, ◌+ℤ◌, ◌-ℤ◌, ltb_ℤ}
use quick_comm.Net.Pool.{contains}

pub data PoolMode : Type 0 where
  mode_fixed mode_cached : PoolMode

-- Where a thread is in threadFunc: before the lock, in a wait for notEmpty_, behind the unlock
-- with a task, or at its end. A number without a thread is ended too.
pub data Place : Type 0 where
  at_lock waiting ended : Place
  working : ℕ → Place

-- ThreadPool, with the threads that run and Thread::generaID_; of thread_list_ only the keys
pub record TaskPool : Type 0 where
  pub thread_list : List ℕ
  pub current_thread_size : ℤ
  pub spare_thread_size : ℤ
  pub max_thread_size : ℤ
  pub init_thread_size : ℤ
  pub task_queue : List ℕ
  pub current_task_size : ℤ
  pub max_task_size : ℤ
  pub pool_mode : PoolMode
  pub is_pool_running : Bool
  pub genera_id : ℕ
  pub places : ℕ → Place

-- ThreadPool::ThreadPool, when so many threads were made before
abbrev pub new_pool : ℕ → TaskPool
new_pool genera_id = record {
  thread_list = [];
  current_thread_size = pos 0;
  spare_thread_size = pos 0;
  max_thread_size = pos 1024;
  init_thread_size = pos 0;
  task_queue = [];
  current_task_size = pos 0;
  max_task_size = pos (2 ^ 31 - 1);
  pool_mode = mode_fixed;
  is_pool_running = false;
  genera_id = genera_id;
  places = λ id. ended;
}

-- setMode, setTaskQueMaxThreshHold and setThreadSizeThreshHold
abbrev pub set_mode : PoolMode → TaskPool → TaskPool
set_mode mode s = record s { pool_mode = mode }

abbrev pub set_task_que_max_thresh_hold : ℤ → TaskPool → TaskPool
set_task_que_max_thresh_hold threshhold s = record s { max_task_size = threshhold }

abbrev pub set_thread_size_thresh_hold : ℤ → TaskPool → TaskPool
set_thread_size_thresh_hold threshhold s = record s { max_thread_size = threshhold }

abbrev pub put : ℕ → Place → TaskPool → TaskPool
put id p s = record s { places = λ b. if b == id then p else s.places b }

-- A new Thread in thread_list_; its number is no key yet.
abbrev pub new_thread : TaskPool → TaskPool
new_thread s = record s { thread_list = s.genera_id ∷ s.thread_list; genera_id = s.genera_id + 1 }

-- for (int i = 0; i < threadsize && i < MaxThreadSize_; ++i)
unfoldable pub create_threads : ℕ → TaskPool → TaskPool
create_threads zero s = s
create_threads (suc n) s = create_threads n (new_thread s)

abbrev pub min_of : ℕ → ℕ → ℕ
min_of a b = if ltb a b then a else b

-- The second loop of start, from `i` on: thread_list_[i] is a null pointer where there is no key.
unfoldable pub start_loop : ℕ → ℕ → TaskPool → Option TaskPool
unfolding contains
start_loop zero i s = some s
start_loop (suc n) i s =
    let rest =
      start_loop n (suc i)
        (put i at_lock (record s { spare_thread_size = s.spare_thread_size +ℤ pos 1 })) in
    if contains i s.thread_list then rest else none

-- start
unfoldable pub start : ℤ → TaskPool → Option TaskPool
unfolding create_threads start_loop
start threadsize s =
    let s1 = create_threads (min_of (pos_part threadsize) (pos_part s.max_thread_size)) (record s {
      is_pool_running = true;
      init_thread_size = threadsize;
      current_thread_size = threadsize;
    }) in
    start_loop (length s1.thread_list) 0 s1

-- notEmpty_.notify_all()
abbrev pub notified : Place → Place
notified waiting = at_lock
notified p = p

abbrev pub notify_all : TaskPool → TaskPool
notify_all s = record s { places = λ b. notified (s.places b) }

-- A negative limit is compared as a size_t.
abbrev pub as_size : ℤ → ℕ
as_size (pos n) = n
as_size (negsuc n) = 2 ^ 64 - 1 - n

abbrev pub is_cached : PoolMode → Bool
is_cached mode_cached = true
is_cached mode_fixed = false

abbrev pub needs_thread : TaskPool → Bool
needs_thread s =
    is_cached s.pool_mode
    && ltb_ℤ s.spare_thread_size s.current_task_size
    && ltb_ℤ s.current_thread_size s.max_thread_size

abbrev pub add_thread : TaskPool → TaskPool
add_thread s = put s.genera_id at_lock (record (new_thread s) {
  spare_thread_size = s.spare_thread_size +ℤ pos 1;
  current_thread_size = s.current_thread_size +ℤ pos 1;
})

abbrev pub queue_task : ℕ → TaskPool → TaskPool
queue_task task s = notify_all (record s {
  task_queue = s.task_queue ++ (task ∷ []);
  current_task_size = s.current_task_size +ℤ pos 1;
})

-- submitTask behind the wait for room
unfoldable pub accept : ℕ → TaskPool → TaskPool
accept task s =
    if needs_thread (queue_task task s) then add_thread (queue_task task s) else queue_task task s

-- A move: the tasks that the queue accepts, those that a thread takes, and the pool behind it
abbrev pub After : Type 0
After = Option (List ℕ × List ℕ × TaskPool)

-- submitTask, when its wait for room ends
unfoldable pub submit_task : ℕ → TaskPool → After
unfolding accept
submit_task task s =
    if ltb (length s.task_queue) (as_size s.max_task_size)
    then some (task ∷ [], [], accept task s)
    else some ([], [], s)

-- thread_list_.erase(threadid)
abbrev pub erase : ℕ → List ℕ → List ℕ
erase id [] = []
erase id (b ∷ ids) = if b == id then ids else b ∷ erase id ids

abbrev pub leave : ℕ → TaskPool → TaskPool
leave id s = put id ended (record s { thread_list = erase id s.thread_list })

-- A thread of the cached mode has waited for longer than THREAD_MAX_IDLE_TIME.
abbrev pub is_idle : ℕ → TaskPool → Bool
is_idle dur s =
    ltb 60 dur
    && ltb_ℤ s.init_thread_size s.current_thread_size
    && ltb_ℤ s.current_task_size s.current_thread_size

abbrev pub leave_idle : ℕ → TaskPool → TaskPool
leave_idle id s = record (leave id s) {
  current_thread_size = s.current_thread_size -ℤ pos 1;
  spare_thread_size = s.spare_thread_size -ℤ pos 1;
}

-- The thread takes the first task, with `rest` behind it.
abbrev pub take_task : ℕ → ℕ → List ℕ → TaskPool → TaskPool
take_task id task rest s =
    let s1 = record s {
      task_queue = rest;
      current_thread_size = s.current_thread_size -ℤ pos 1;
      spare_thread_size = s.spare_thread_size -ℤ pos 1;
    } in
    put id (working task) (if ltb 0 (length rest) then notify_all s1 else s1)

-- threadFunc from the test of while (TaskQueue_.size() == 0) to the unlock or the next wait
unfoldable pub locked : ℕ → List ℕ → TaskPool → After
locked id [] s = some ([], [], if s.is_pool_running then put id waiting s else leave id s)
locked id (task ∷ rest) s = some ([], task ∷ [], take_task id task rest s)

-- A thread goes on from its place. A wait ends by a notification or without one, or by its time:
-- then `dur` is the number of seconds since lastTime.
unfoldable pub thread_func : Place → Option ℕ → ℕ → TaskPool → After
unfolding locked
thread_func at_lock dur id s = locked id s.task_queue s
thread_func waiting none id s = locked id s.task_queue s
thread_func waiting (some dur) id s =
    if not (is_cached s.pool_mode)
    then none
    else if is_idle dur s
    then some ([], [], leave_idle id s)
    else locked id s.task_queue s
thread_func (working task) dur id s =
    some ([], [], put id at_lock (record s { spare_thread_size = s.spare_thread_size +ℤ pos 1 }))
thread_func ended dur id s = none

-- What can happen: submitTask, a turn of a thread, and the two parts of ~ThreadPool before its
-- wait, which ends when thread_list_ is empty.
pub data Move : Type 0 where
  submit : ℕ → Move
  turn : Option ℕ → ℕ → Move
  stop notify : Move

unfoldable pub step : Move → TaskPool → After
unfolding submit_task thread_func
step (submit task) s = submit_task task s
step (turn dur id) s = thread_func (s.places id) dur id s
step stop s = some ([], [], record s { is_pool_running = false })
step notify s = some ([], [], notify_all s)

-- A run, with the tasks that were accepted, and those that threads took, in their order
unfoldable pub run : List Move → TaskPool → After
unfolding step
run [] s = some ([], [], s)
run (m ∷ ms) s = do
  (accepted, taken, s') ← step m s
  (later, more, s'') ← run ms s'
  some (accepted ++ later, taken ++ more, s'')
