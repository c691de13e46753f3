-- ===== src/Proc/Daemon/Tests.antt =====
-- A process with a terminal goes into the background.
use quick_comm.Base.{ℕ, ◌≡◌, refl, true, false, some, if◌then◌else◌, ltb}
use quick_comm.Base.Int.{pos, negsuc}
use mathlib.Core.Path.{subst}
use quick_comm.Proc.Daemon.{
  closed, dev_null, other_file, Process, in_child, in_parent, Answers, daemon,
}
use quick_comm.Proc.Daemon.Detached.{Daemonized, daemon-Daemonized}

abbrev on_terminal : Process
on_terminal = record {
  pid = 300;
  parent = 299;
  leads_session = false;
  mask = 18;
  files = λ b. if ltb b 5 then other_file b else closed;
}

abbrev all_work : Answers
all_work = record {
  session = true;
  opened = some 5;
  dup_stdin = true;
  dup_stdout = true;
  closes = true;
}

abbrev background : Process
background = (daemon (in_child 301) all_work on_terminal).1

input_is_null : background.files 0 ≡ dev_null
unfolding daemon
input_is_null = refl

-- The standard error stays on the terminal.
errors_on_terminal : background.files 2 ≡ other_file 2
unfolding daemon
errors_on_terminal = refl

null_closed : background.files 5 ≡ closed
unfolding daemon
null_closed = refl

returns_in_both : (daemon (in_child 301) all_work on_terminal).0 ≡ pos 0
unfolding daemon
returns_in_both = refl

parent_returns : (daemon (in_parent 301) all_work on_terminal).0 ≡ pos 1
unfolding daemon
parent_returns = refl

-- A failure of setsid() in the child
no_session : (daemon (in_child 301) (record all_work { session = false }) on_terminal).0 ≡ negsuc 0
unfolding daemon
no_session = refl

daemon-Daemonized_example :
    Daemonized (in_child 301) all_work on_terminal (daemon (in_child 301) all_work on_terminal)
daemon-Daemonized_example =
    daemon-Daemonized (in_child 301) all_work on_terminal (λ fd e. unused fd e)
  where
    unused : (fd : ℕ) → some 5 ≡ some fd → on_terminal.files fd ≡ closed
    unused fd e = let five : 5 ≡ fd = cc e in subst (λ n. on_terminal.files n ≡ closed) five refl
