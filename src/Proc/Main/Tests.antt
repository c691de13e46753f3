-- ===== src/Proc/Main/Tests.antt =====
-- A server that starts in the background, and one without its configuration.
use quick_comm.Base.{
  ℕ, ◌+◌, ◌≡◌, refl, true, false, List, [], ◌∷◌, Option, none, some, codes, ◌==◌, if◌then◌else◌,
  ltb,
}
use mathlib.Core.Path.{subst}
use quick_comm.Base.Int.{pos}
use quick_comm.Public.Log.{written, log_init}
use quick_comm.Public.Config.{Item, load, atoi, get_string, get_int_default}
use quick_comm.Public.Trim.{rtrim, ltrim}
use quick_comm.Public.Format.{temp_digits}
use quick_comm.Net.Server.Start.{read_conf, open_listening_sockets}
use quick_comm.Net.Server.Life.{initialize}
use quick_comm.Proc.Signals.{init_signals}
use quick_comm.Proc.Daemon.{closed, other_file, Process, in_child, in_parent, daemon}
use quick_comm.Proc.Daemon.Detached.{OpensUnused}
use quick_comm.Proc.Cycle.{held_signals, in_master, master_process_cycle}
use quick_comm.Proc.Main.Returns.{AreInts}
use quick_comm.Proc.Main.{no_doubles, Machine, End, exited, cycling, main_program}
use quick_comm.Proc.Main.Ends.{Outcome, StopsUnloaded, main-Ends}

abbrev machine : Machine
machine = record {
  process = record {
    pid = 300;
    parent = 299;
    leads_session = false;
    mask = 18;
    files = λ b. if ltb b 5 then other_file b else closed;
  };
  config = some (codes "Daemon = 1\nWorkerProcesses=2\n");
  log_place = record {
    year = 2025;
    month = 1;
    day = 8;
    hour = 20;
    minute = 50;
    second = 15;
    pid = 300;
    strerror = λ err. codes "No such file";
    stack = 140_000_000_000_000;
  };
  log_file = some 3;
  log_err = 0;
  log_answer = written;
  sigactions = λ n. none;
  sockets = λ i. record {
    socket = some (6 + i);
    reuseaddr = true;
    nonblocking = true;
    bound = true;
    listens = true;
  };
  daemon_fork = in_child 301;
  daemon_answers = record {
    session = true;
    opened = some 5;
    dup_stdin = true;
    dup_stdout = true;
    closes = true;
  };
  blocks = true;
  forks = λ i. in_parent (302 + i);
}

opens_five : OpensUnused machine.daemon_answers machine.process
opens_five fd e =
    let five : 5 ≡ fd = cc e in subst (λ n. machine.process.files n ≡ closed) five refl

-- The pids of the workers that the master has, and the code of a process that has returned
abbrev workers_of : Option End → Option (List (Option ℕ))
workers_of (some (cycling p y socks log (in_master pids s))) = some pids
workers_of _ = none

abbrev code_of : Option End → Option ℕ
code_of (some (exited code log)) = some code
code_of _ = none

has_two_workers : workers_of (main_program machine) ≡ some (some 302 ∷ some 303 ∷ [])
unfolding main_program load log_init get_int_default ltrim rtrim init_signals initialize read_conf
    open_listening_sockets temp_digits daemon master_process_cycle
has_two_workers = refl

-- The parent of the background process
parent_done : code_of (main_program (record machine { daemon_fork = in_parent 301 })) ≡ some 0
unfolding main_program load log_init get_int_default ltrim rtrim init_signals initialize read_conf
    open_listening_sockets temp_digits daemon
parent_done = refl

sigint_fails :
    code_of (main_program (record machine { sigactions = λ n. if n == 2 then some 22 else none }))
    ≡ some 1
unfolding main_program load log_init get_int_default ltrim rtrim init_signals
sigint_fails = refl

no_config : code_of (main_program (record machine { config = none })) ≡ some 2
unfolding main_program load log_init get_int_default
no_config = refl

abbrev background : Process
background = (daemon machine.daemon_fork machine.daemon_answers machine.process).1

abbrev running : End
running =
    cycling background
      (record {
        worker_connections = pos 1;
        listen_port_count = pos 1;
        recy_wait = pos 60;
        kick_time_count = pos 0;
        wait_time = pos 5;
        time_out_kick = pos 0;
        flood_enable = pos 0;
        flood_interval = pos 100;
        flood_kick_count = pos 10;
      })
      (record {
        listening = record { port = pos 10000; fd = 6 } ∷ [];
        opened = 6 ∷ [];
        closed = [];
      })
      (record { log_level = pos 6; fd = some 3 })
      (in_master (some 302 ∷ some 303 ∷ [])
        (record { pid = 301; parent = 300; kind = 0; blocked = held_signals }))

goes_on : main_program machine ≡ some running
unfolding main_program load log_init get_int_default ltrim rtrim init_signals initialize read_conf
    open_listening_sockets temp_digits daemon master_process_cycle
goes_on = refl

-- The items of the configuration
abbrev items : List Item
items =
    record { name = codes "Daemon"; content = codes "1" }
    ∷ record { name = codes "WorkerProcesses"; content = codes "2" }
    ∷ []

loads : load machine.config [] ≡ some (true, items)
unfolding load ltrim rtrim
loads = refl

logs :
    log_init no_doubles machine.log_place items (some 3) 0 written
    ≡ some (codes "error.log", [], record { log_level = pos 6; fd = some 3 })
unfolding log_init get_int_default get_string
logs = refl

items-AreInts : AreInts items
unfolding atoi
items-AreInts = ((pos 1, refl), ((pos 2, refl), tt))

main-Ends_example :
    (end : End) × (main_program machine ≡ some end)
    × Outcome machine items end
    × StopsUnloaded true end
main-Ends_example =
    main-Ends machine true items (codes "error.log") [] (record { log_level = pos 6; fd = some 3 })
      opens_five loads items-AreInts logs
