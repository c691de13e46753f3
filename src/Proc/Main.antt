-- ===== src/Proc/Main.antt =====
-- app/QuickComm.cc: main(), up to the master process. What the system answers is a record. The
-- memory of the environment is never taken, since nothing calls qc_init_setproctitle, and so
-- freeresource() only closes the log.
pub mod Ends
pub mod Returns
mod Tests
use quick_comm.Base.{
  ℕ, ◌<◌, Bool, true, false, not, List, [], Option, none, some, ◌==◌, if◌then◌else◌, codes, ◌>>=◌,
  arith,
}
use quick_comm.Base.Int.{ℤ, pos, negsuc}
use quick_comm.Public.Format.{Doubles}
use quick_comm.Public.Log.{QcLog, Answer, System, log_init}
use quick_comm.Public.Config.{Item, load, get_int_default}
use quick_comm.Net.Server.Start.{Settings, Sockets, Attempt}
use quick_comm.Net.Server.Life.{initialize, is_one}
use quick_comm.Proc.Signals.{Disposition, default_action, init_signals, process_master}
use quick_comm.Proc.Daemon.{Process, Forked, Answers, daemon}
use quick_comm.Proc.Cycle.{Self, Started, master_process_cycle}

-- No double is logged.
abbrev pub no_doubles : Doubles ⊥
no_doubles = record {
  is_negative = λ f. true;
  negated = λ f. f;
  whole = λ f. 0;
  fraction = λ f ui64 scale. 0;
  whole-lt = λ f. absurd f;
  fraction-lt = λ f ui64 scale. absurd f;
}

-- What the process is when main() starts, and what main() is answered: quickcomm.conf, open() and
-- write() of the log, sigaction(), the calls for each port, those of qc_daemon, sigprocmask() and
-- fork() for the workers.
pub record Machine : Type 0 where
  pub process : Process
  pub config : Option (List ℕ)
  pub log_place : System
  pub log_file : Option ℕ
  pub log_err : ℕ
  pub log_answer : Answer
  pub sigactions : ℕ → Option ℕ
  pub sockets : ℕ → Attempt
  pub daemon_fork : Forked
  pub daemon_answers : Answers
  pub blocks : Bool
  pub forks : ℕ → Forked

-- main() returns with the log as it is then, or its process is in the cycle of a master or worker,
-- with the settings and listening sockets of g_socket.
pub data End : Type 0 where
  exited : ℕ → QcLog → End
  cycling : Process → Settings → Sockets → QcLog → Started → End

-- g_socket: CSocket::CSocket sets three of the fields, and static memory is zero.
abbrev pub first_settings : Settings
first_settings = record {
  worker_connections = pos 1;
  listen_port_count = pos 1;
  recy_wait = pos 60;
  kick_time_count = pos 0;
  wait_time = pos 0;
  time_out_kick = pos 0;
  flood_enable = pos 0;
  flood_interval = pos 0;
  flood_kick_count = pos 0;
}

abbrev pub no_listening : Sockets
no_listening = record { listening = []; opened = []; closed = [] }

-- freeresource
abbrev pub close_log : Option ℕ → Option ℕ
close_log none = none
close_log (some fd) = if fd == 2 then some fd else none

abbrev pub free_resource : QcLog → QcLog
free_resource log = record log { fd = close_log log.fd }

-- lblexit
abbrev pub leave : ℕ → QcLog → Option End
leave exitcode log = some (exited exitcode (free_resource log))

abbrev pub self_of : Process → Self
self_of p = record { pid = p.pid; parent = p.parent; kind = process_master; blocked = [] }

-- qc_master_process_cycle()
unfoldable pub enter_cycle : Machine → List Item → QcLog → Settings → Sockets → Process → Option End
enter_cycle m items log y socks p = do
  started ← master_process_cycle m.blocks items m.forks (self_of p)
  some (cycling p y socks log started)

-- Behind qc_daemon, for what it returns
unfoldable pub behind_daemon :
    Machine → List Item → QcLog → Settings → Sockets → ℤ × Process → Option End
unfolding enter_cycle
behind_daemon m items log y socks (negsuc n, p) =
    if n == 0 then leave 1 log else enter_cycle m items log y socks p
behind_daemon m items log y socks (pos n, p) =
    if n == 1 then some (exited 0 (free_resource log)) else enter_cycle m items log y socks p

-- From if(p_config->GetIntDefault("Daemon",0) == 1) on
unfoldable pub choose_daemon : Machine → List Item → QcLog → Settings → Sockets → Option End
unfolding behind_daemon
choose_daemon m items log y socks = do
  mode ← get_int_default (codes "Daemon") (pos 0) items
  if is_one mode
      then behind_daemon m items log y socks (daemon m.daemon_fork m.daemon_answers m.process)
      else enter_cycle m items log y socks m.process

-- From qc_init_signals() on
unfoldable pub start_up : Machine → List Item → QcLog → Option End
unfolding choose_daemon
start_up m items log =
    let opened = initialize items m.sockets first_settings no_listening >>= λ r.
    if not r.0 then leave 1 log else choose_daemon m items log r.1 r.2 in
    if not (init_signals m.sigactions (λ _. default_action)).0 then leave 1 log else opened

-- main(); `exited` where the process returns from it
unfoldable pub main_program : Machine → Option End
unfolding start_up
main_program m = do
  (loaded, items) ← load m.config []
  (name, writes, log) ← log_init no_doubles m.log_place items m.log_file m.log_err m.log_answer
  if not loaded then leave 2 log else start_up m items log
