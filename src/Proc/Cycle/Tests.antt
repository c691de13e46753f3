-- ===== src/Proc/Cycle/Tests.antt =====
-- A master with three workers, and a worker that begins.
use quick_comm.Base.{ℕ, ◌+◌, ◌≡◌, refl, true, List, [], ◌∷◌, none, some, codes, ◌==◌, if◌then◌else◌}
use quick_comm.Base.Int.{pos, negsuc}
use quick_comm.Public.Config.{Item, get_int_default}
use quick_comm.Misc.Threads.{create}
use quick_comm.Net.Server.Sample.{server}
use quick_comm.Net.Server.Start.{Listening}
use quick_comm.Proc.Signals.{process_master, process_worker}
use quick_comm.Proc.Daemon.{Forked, fork_failed, in_child, in_parent}
use quick_comm.Proc.Cycle.{
  Self, in_master, in_worker, start_worker_processes, held_signals, World, Begun, exited,
  worker_process_init,
}
use quick_comm.Proc.Cycle.Workers.{Spawns, start_workers-Spawns, Begins, worker_init-Begins}

abbrev master : Self
master = record { pid = 300; parent = 1; kind = process_master; blocked = held_signals }

-- The second fork() fails.
abbrev second_fails : ℕ → Forked
second_fails i = if i == 1 then fork_failed else in_parent (301 + i)

-- The child of the third fork()
abbrev third_child : ℕ → Forked
third_child i = if i == 2 then in_child 303 else in_parent (301 + i)

two_workers :
    start_worker_processes (pos 3) second_fails master
    ≡ in_master (some 301 ∷ none ∷ some 303 ∷ []) master
unfolding start_worker_processes
two_workers = refl

third_worker :
    start_worker_processes (pos 3) third_child master
    ≡ in_worker 2
        (record { pid = 303; parent = 300; kind = process_worker; blocked = held_signals })
unfolding start_worker_processes
third_worker = refl

no_workers : start_worker_processes (negsuc 0) third_child master ≡ in_master [] master
unfolding start_worker_processes
no_workers = refl

start_workers-Spawns_example :
    Spawns 3 0 third_child master (start_worker_processes (pos 3) third_child master)
start_workers-Spawns_example = start_workers-Spawns (pos 3) third_child master

abbrev all_made : World
all_made = record {
  unblocks = true;
  made = λ i. true;
  created = record {
    send_mutex = true;
    connection_mutex = true;
    recycle_mutex = true;
    timer_mutex = true;
    semaphore = true;
    thread = λ work. true;
  };
  epoll = true;
  now = 100;
  watched = λ i. true;
}

abbrev two_threads : List Item
two_threads = record { name = codes "ProcMsgRecvWorkThreadCount"; content = codes "2" } ∷ []

abbrev one_port : List Listening
one_port = record { port = pos 80; fd = 5 } ∷ []

two_configured :
    get_int_default (codes "ProcMsgRecvWorkThreadCount") (pos 5) two_threads ≡ some (pos 2)
unfolding get_int_default
two_configured = refl

-- The second thread of the pool cannot be made.
no_second_thread :
    worker_process_init
      (record all_made { made = λ i. i == 0 })
      two_threads
      server.conf
      one_port
      master
    ≡ some (exited (negsuc 1))
unfolding worker_process_init get_int_default create
no_second_thread = refl

worker_init-Begins_example :
    (b : Begun) × (worker_process_init all_made two_threads server.conf one_port master ≡ some b)
    × Begins all_made (pos 2) server.conf one_port master b
worker_init-Begins_example =
    worker_init-Begins all_made two_threads (pos 2) server.conf one_port master two_configured
