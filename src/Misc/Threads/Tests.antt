-- ===== src/Misc/Threads/Tests.antt =====
-- Two threads: three messages come, two are taken, and the pool stops.
use quick_comm.Base.{ℕ, ◌≡◌, refl, true, false, List, [], ◌∷◌, ◌++◌, some}
use quick_comm.Base.Int.{pos, ◌+ℤ◌, ◌-ℤ◌}
use quick_comm.Misc.Threads.{
  Threads, Thread, new_threads, create, all_running, call, waiting, at_lock, holding, handled, Move,
  arrive, stop, join, turn, run,
}
use quick_comm.Misc.Threads.Counts.{Inv, run-Inv}
use quick_comm.Misc.Threads.Order.{arrivals, run-IsFifo, run-stopped}

abbrev start : Threads
start = (create (true ∷ true ∷ []) new_threads).1

created :
    start.threads
    ≡ record { ifrunning = false; place = at_lock }
      ∷ record { ifrunning = false; place = at_lock }
      ∷ []
unfolding create new_threads
created = refl

abbrev idle : Thread
idle = record { ifrunning = true; place = waiting }

abbrev waiting_pool : Threads
waiting_pool = record {
  queue = [];
  queue_n = pos 0;
  thread_n = pos 2;
  running_n = pos 0;
  last_emg_time = pos 0;
  shutdown = false;
  threads = idle ∷ idle ∷ [];
}

ready : run (turn 0 ∷ turn 1 ∷ []) start ≡ some ([], waiting_pool)
unfolding run create new_threads
ready = refl

ready_threads : all_running waiting_pool.threads ≡ true
unfolding all_running
ready_threads = refl

-- Thread 1 takes message 7 and handles it, thread 0 takes 8, and 9 is left when the pool stops.
abbrev moves : List Move
moves =
    arrive (pos 100) 7
    ∷ turn 1
    ∷ arrive (pos 100) 8
    ∷ turn 1
    ∷ turn 1
    ∷ turn 1
    ∷ turn 0
    ∷ arrive (pos 100) 9
    ∷ turn 0
    ∷ []

abbrev middle : Threads
middle = record {
  queue = 9 ∷ [];
  queue_n = pos 1;
  thread_n = pos 2;
  running_n = pos 1;
  last_emg_time = pos 0;
  shutdown = false;
  threads =
      record { ifrunning = true; place = holding 8 }
      ∷ record { ifrunning = true; place = handled 7 }
      ∷ [];
}

works : run moves waiting_pool ≡ some (7 ∷ 8 ∷ [], middle)
unfolding run ◌+ℤ◌ ◌-ℤ◌
works = refl

abbrev stopped : Threads
stopped = record middle { shutdown = true }

ends : run (stop ∷ []) middle ≡ some ([], stopped)
unfolding run
ends = refl

abbrev closing : List Move
closing = turn 1 ∷ turn 1 ∷ turn 0 ∷ turn 0 ∷ turn 0 ∷ turn 0 ∷ join ∷ []

abbrev closed : Threads
closed = record middle { running_n = pos 0; shutdown = true; threads = [] }

joins : run closing stopped ≡ some ([], closed)
unfolding run ◌+ℤ◌ ◌-ℤ◌
joins = refl

-- All threads are busy: a warning, and none for the next ten seconds
busy_warning :
    ((call (pos 100) (record middle { running_n = pos 2 })).0 ≡ true)
    × ((call (pos 110) (record middle { running_n = pos 2; last_emg_time = pos 100 })).0 ≡ false)
unfolding call ◌-ℤ◌
busy_warning = (refl, refl)

run-Inv_example : Inv middle
run-Inv_example =
    run-Inv moves waiting_pool middle (7 ∷ 8 ∷ []) works (record { queued = refl; running = refl })

run-IsFifo_example : [] ++ arrivals moves ≡ (7 ∷ 8 ∷ []) ++ (9 ∷ [])
run-IsFifo_example = run-IsFifo moves waiting_pool middle (7 ∷ 8 ∷ []) works

run-stopped_example : (closed.shutdown ≡ true) × (◌≡◌ {A = List ℕ} [] [])
run-stopped_example = run-stopped closing stopped closed [] joins refl
