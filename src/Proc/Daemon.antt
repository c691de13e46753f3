-- ===== src/Proc/Daemon.antt =====
-- proc/qc_daemon.cc: the process that goes on in the background. What the system answers is an
-- argument, and the calls of qc_log_error_core, with fixed texts, are left out.
pub mod Detached
mod Tests
use quick_comm.Base.{ℕ, Bool, true, false, not, Option, none, some, ltb, ◌==◌, if◌then◌else◌}
use quick_comm.Base.Int.{ℤ, pos, negsuc}

-- What a descriptor stands for: nothing, /dev/null, or another file
pub data File : Type 0 where
  closed dev_null : File
  other_file : ℕ → File

-- The part of a process that qc_daemon changes: qc_pid, qc_parent, whether it leads a session of
-- its own, its umask, and its descriptors.
pub record Process : Type 0 where
  pub pid : ℕ
  pub parent : ℕ
  pub leads_session : Bool
  pub mask : ℕ
  pub files : ℕ → File

-- fork(): -1, 0 in the child, for which getpid() gives its number, or the child's number
pub data Forked : Type 0 where
  fork_failed : Forked
  in_child : ℕ → Forked
  in_parent : ℕ → Forked

-- Whether setsid(), dup2() onto the standard input and output, and close() work, and what open()
-- gives
pub record Answers : Type 0 where
  pub session : Bool
  pub opened : Option ℕ
  pub dup_stdin : Bool
  pub dup_stdout : Bool
  pub closes : Bool

abbrev pub minus_one : ℤ
minus_one = negsuc 0

-- The descriptor stands for the file from now on.
abbrev pub assign : ℕ → File → Process → Process
assign fd file p = record p { files = λ b. if b == fd then file else p.files b }

-- dup2(fd, onto)
abbrev pub dup : ℕ → ℕ → Process → Process
dup fd onto p = assign onto (p.files fd) p

-- From dup2(fd, STDIN_FILENO) on
unfoldable pub redirect : ℕ → Answers → Process → ℤ × Process
redirect fd w p =
    if not w.dup_stdin
    then (minus_one, p)
    else if not w.dup_stdout
    then (minus_one, dup fd 0 p)
    else (let q = dup fd 1 (dup fd 0 p) in
        if ltb 2 fd
        then if w.closes then (pos 0, assign fd closed q) else (minus_one, q)
        else (pos 0, q))

-- open("/dev/null", O_RDWR)
abbrev open_null : Option ℕ → Answers → Process → ℤ × Process
unfolding redirect
open_null none w p = (minus_one, p)
open_null (some fd) w p = redirect fd w (assign fd dev_null p)

-- The child, behind fork()
unfoldable pub in_background : Answers → Process → ℤ × Process
unfolding open_null
in_background w p =
    if not w.session
    then (minus_one, p)
    else open_null w.opened w (record p { leads_session = true; mask = 0 })

-- qc_daemon: what it returns, and the process in which it does
unfoldable pub daemon : Forked → Answers → Process → ℤ × Process
unfolding in_background
daemon fork_failed w p = (minus_one, p)
daemon (in_parent child) w p = (pos 1, p)
daemon (in_child pid) w p = in_background w (record p { parent = p.pid; pid = pid })
