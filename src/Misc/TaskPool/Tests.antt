-- ===== src/Misc/TaskPool/Tests.antt =====
-- Two threads, three tasks, and the end of the pool.
use quick_comm.Base.{ℕ, ◌≡◌, refl, List, [], ◌∷◌, ◌++◌, Option, none, some, length, arith}
use quick_comm.Base.Int.{pos, ◌+ℤ◌}
use quick_comm.Misc.TaskPool.{
  TaskPool, mode_fixed, new_pool, start, run, After, Move, submit, turn, stop, notify,
}
use quick_comm.Misc.TaskPool.Started.{IsKeyed, start-again}
use quick_comm.Misc.TaskPool.Drain.{run-Drains}
use quick_comm.Misc.TaskPool.Counts.{run-Counted}

abbrev pool_of : Option TaskPool → TaskPool
pool_of none = new_pool 0
pool_of (some s) = s

abbrev behind_run : After → TaskPool
behind_run none = new_pool 0
behind_run (some (accepted, taken, s)) = s

abbrev started : TaskPool
unfolding start
started = pool_of (start (pos 2) (new_pool 0))

starts : start (pos 2) (new_pool 0) ≡ some started
unfolding start started
starts = refl

abbrev tasks : List ℕ
tasks = 10 ∷ 11 ∷ 12 ∷ []

abbrev before : List Move
before = submit 10 ∷ turn none 1 ∷ submit 11 ∷ submit 12 ∷ turn none 0 ∷ turn none 1 ∷ []

abbrev works : TaskPool
unfolding run started
works = behind_run (run before started)

before_runs : run before started ≡ some (10 ∷ 11 ∷ 12 ∷ [], 10 ∷ 11 ∷ [], works)
unfolding run works started
before_runs = refl

-- The destructor, the last task, and both threads to their end
abbrev behind : List Move
behind = stop ∷ notify ∷ turn none 1 ∷ turn none 0 ∷ turn none 0 ∷ turn none 1 ∷ turn none 1 ∷ []

abbrev destroyed : TaskPool
unfolding run works
destroyed = behind_run (run behind works)

behind_runs : run behind works ≡ some ([], 12 ∷ [], destroyed)
unfolding run works destroyed
behind_runs = refl

all_ended : destroyed.thread_list ≡ []
unfolding destroyed
all_ended = refl

run-Drains_example :
    (tasks ++ [] ≡ ((10 ∷ 11 ∷ []) ++ (12 ∷ [])) ++ destroyed.task_queue)
    × (length destroyed.thread_list ≡ 0 → tasks ++ [] ≡ (10 ∷ 11 ∷ []) ++ (12 ∷ []))
run-Drains_example =
    run-Drains 2 before behind started works destroyed tasks [] (10 ∷ 11 ∷ []) (12 ∷ [])
      (omega arith) starts (tt, (tt, (tt, (tt, (tt, (tt, tt)))))) before_runs
      (tt, (tt, (tt, (tt, (tt, (tt, (tt, tt))))))) behind_runs

run-Counted_example :
    (works.current_task_size ≡ pos 3)
    × (works.current_thread_size +ℤ pos 2 ≡ pos (length works.thread_list))
    × IsKeyed works
run-Counted_example =
    run-Counted mode_fixed 2 before started works tasks (10 ∷ 11 ∷ []) (omega arith) starts
      (tt, (tt, (tt, (tt, (tt, (tt, tt)))))) before_runs

second_pool : start (pos 2) (new_pool 2) ≡ none
second_pool = start-again 2 2 (omega arith) (omega arith)
