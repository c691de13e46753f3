-- ===== src/Proc/Cycle.antt =====
-- proc/qc_process_cycle.cc, proc/qc_event.cc: the master process and its workers. What the system
-- answers is an argument; the process title and the log are left out.
pub mod Workers
mod Tests
use quick_comm.Base.{
  ℕ, zero, suc, Bool, true, false, not, List, [], ◌∷◌, ◌++◌, Option, none, some, ◌==◌,
  if◌then◌else◌, map, codes, ◌>>=◌,
}
use quick_comm.Base.Int.{ℤ, pos, negsuc, pos_part}
use quick_comm.Public.Config.{Item, get_int_default}
use quick_comm.Misc.Threads.{Threads, new_threads, create}
use quick_comm.Net.Server.{Server, SockConf}
use quick_comm.Net.Server.Start.{Listening, new_server, epoll_init}
use quick_comm.Net.Server.Life.{Created, ThreadItems, initialize_subproc}
use quick_comm.Net.Server.Events.{Waited, process_events}
use quick_comm.Proc.Daemon.{Forked, fork_failed, in_child, in_parent}
use quick_comm.Proc.Signals.{process_master, process_worker}

-- What a process knows of itself: qc_pid, qc_parent, qc_process, and the signals that are blocked
pub record Self : Type 0 where
  pub pid : ℕ
  pub parent : ℕ
  pub kind : ℕ
  pub blocked : List ℕ

-- SIGCHLD, SIGALRM, SIGIO, SIGINT, SIGHUP, SIGUSR1, SIGUSR2, SIGWINCH, SIGTERM and SIGQUIT
abbrev pub held_signals : List ℕ
held_signals = 17 ∷ 14 ∷ 29 ∷ 2 ∷ 1 ∷ 10 ∷ 12 ∷ 28 ∷ 15 ∷ 3 ∷ []

-- Where qc_start_worker_processes is left: in the master, with what fork() gave for each worker,
-- or in the worker with a number, in which it does not return.
pub data Started : Type 0 where
  in_master : List (Option ℕ) → Self → Started
  in_worker : ℕ → Self → Started

-- The process of a child, when qc_worker_process_cycle has set its kind
abbrev pub child_of : Self → ℕ → Self
child_of s pid = record s { parent = s.pid; pid = pid; kind = process_worker }

abbrev pub push_pid : Option ℕ → Started → Started
push_pid p (in_master pids s) = in_master (p ∷ pids) s
push_pid p (in_worker i s) = in_worker i s

-- The loop of qc_start_worker_processes with qc_spawn_process, from the number `i` on
workers_loop : ℕ → ℕ → (ℕ → Forked) → Self → Started
workers_loop zero i forks s = in_master [] s
workers_loop (suc left) i forks s =
    let rest = workers_loop left (suc i) forks s in
    elim (forks i) [
      | fork_failed ↦ push_pid none rest
      | in_child pid ↦ in_worker i (child_of s pid)
      | in_parent pid ↦ push_pid (some pid) rest
    ]

unfoldable pub start_worker_processes : ℤ → (ℕ → Forked) → Self → Started
unfolding workers_loop
start_worker_processes threadnums forks s = workers_loop (pos_part threadnums) 0 forks s

-- sigprocmask(SIG_BLOCK), if it works
abbrev pub holding_back : Bool → Self → Self
holding_back blocks s = if blocks then record s { blocked = held_signals ++ s.blocked } else s

-- qc_master_process_cycle, up to sigsuspend(), which waits with no signal blocked: `blocks` is
-- whether sigprocmask() works.
unfoldable pub master_process_cycle : Bool → List Item → (ℕ → Forked) → Self → Option Started
unfolding start_worker_processes
master_process_cycle blocks items forks s = do
  workprocess ← get_int_default (codes "WorkerProcesses") (pos 1) items
  some (start_worker_processes workprocess forks (holding_back blocks s))

-- What the system answers a worker: to sigprocmask(), to pthread_create() for each thread of the
-- pool, to Initialize_subproc, to epoll_create() and epoll_ctl(), and the time.
pub record World : Type 0 where
  pub unblocks : Bool
  pub made : ℕ → Bool
  pub created : Created
  pub epoll : Bool
  pub now : ℕ
  pub watched : ℕ → Bool

-- How qc_worker_process_init ends: with exit(), or ready to serve
pub data Begun : Type 0 where
  exited : ℤ → Begun
  ready : Self → Threads → ThreadItems → List ℕ → Server → Begun

-- pthread_create() for `n` threads from the index `i` on
abbrev pub made_from : ℕ → ℕ → (ℕ → Bool) → List Bool
made_from zero i made = []
made_from (suc n) i made = made i ∷ made_from n (suc i) made

-- qc_epoll_init, behind the threads
unfoldable pub begin_serving :
    World → SockConf → List Listening → Self → Threads → ThreadItems → Begun
begin_serving w conf ls s pool items =
    elim (epoll_init w.epoll w.now w.watched ls (new_server conf)) [
      | none ↦ exited (pos 2)
      | some (conns, server) ↦ ready s pool items conns server
    ]

-- The threads, for the number of those in the pool
unfoldable pub begin_threads : World → ℤ → SockConf → List Listening → Self → Begun
unfolding begin_serving
begin_threads w threadnums conf ls s =
    let (made, pool) = create (made_from (pos_part threadnums) 0 w.made) new_threads in
    let (ok, items) = initialize_subproc conf.kick_clock w.created in
    if not made
    then exited (negsuc 1)
    else if not ok
    then exited (negsuc 1)
    else begin_serving w conf ls s pool items

-- sigprocmask(SIG_SETMASK), with the empty set
abbrev pub unblocked : World → Self → Self
unblocked w s = if w.unblocks then record s { blocked = [] } else s

-- qc_worker_process_init
unfoldable pub worker_process_init :
    World → List Item → SockConf → List Listening → Self → Option Begun
unfolding begin_threads
worker_process_init w items conf ls s = do
  threadnums ← get_int_default (codes "ProcMsgRecvWorkThreadCount") (pos 5) items
  some (begin_threads w threadnums conf ls (unblocked w s))

-- qc_process_events_and_timers, whose statistics are left out: what qc_epoll_process_events
-- returns is not looked at.
unfoldable pub process_events_and_timers : Waited → Bool × Server → Option (Bool × Server)
process_events_and_timers waited after =
    process_events (negsuc 0) waited after >>= λ r. some (r.1, r.2)

-- for(;;) of qc_worker_process_cycle, for some answers of epoll_wait()
unfoldable pub worker_loop : List Waited → Bool × Server → Option (Bool × Server)
unfolding process_events_and_timers
worker_loop [] after = some after
worker_loop (waited ∷ ws) after = process_events_and_timers waited after >>= worker_loop ws
