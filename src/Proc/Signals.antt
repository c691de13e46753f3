-- ===== src/Proc/Signals.antt =====
-- signal/qc_signal.cc: the signals that the server catches, what its handler does, and how it
-- takes the children that have ended. What sigaction() and waitpid() answer are arguments; the
-- calls of qc_log_error_core are results.
pub mod Reaping
pub mod Handling
pub mod Installed
mod Tests
use quick_comm.Base.{
  ℕ, ◌/◌, ◌%◌, Bool, true, false, ◌&&◌, List, [], ◌∷◌, ◌++◌, Option, none, some, ◌==◌,
  if◌then◌else◌, codes, ◌>>=◌,
}
use quick_comm.Public.Format.{ByteList, Arg, word32, string}
use quick_comm.Public.Log.{log_notice}

-- A call of qc_log_error_core; no double is logged here.
pub record LogCall : Type 0 where
  pub level : ℕ
  pub err : ℕ
  pub fmt : ByteList
  pub args : List (Arg ⊥)

abbrev pub log_emerg : ℕ
log_emerg = 1

abbrev pub log_alert : ℕ
log_alert = 2

abbrev pub log_info : ℕ
log_info = 7

abbrev pub sigchld : ℕ
sigchld = 17

-- QC_PROCESS_MASTER and QC_PROCESS_WORKER
abbrev pub process_master : ℕ
process_master = 0

abbrev pub process_worker : ℕ
process_worker = 1

-- qc_signal_t; the handler is qc_signal_handler or NULL.
pub record Signal : Type 0 where
  pub signo : ℕ
  pub signame : ByteList
  pub has_handler : Bool

-- signals, without the entry that ends it
abbrev pub signals : List Signal
signals =
    record { signo = 1; signame = codes "SIGHUP"; has_handler = true }
    ∷ record { signo = 2; signame = codes "SIGINT"; has_handler = true }
    ∷ record { signo = 15; signame = codes "SIGTERM"; has_handler = true }
    ∷ record { signo = sigchld; signame = codes "SIGCHLD"; has_handler = true }
    ∷ record { signo = 3; signame = codes "SIGQUIT"; has_handler = true }
    ∷ record { signo = 29; signame = codes "SIGIO"; has_handler = true }
    ∷ record { signo = 31; signame = codes "SIGSYS, SIG_IGN"; has_handler = false }
    ∷ []

-- What the process does on a signal: the default, nothing, or qc_signal_handler
pub data Disposition : Type 0 where
  default_action ignored caught : Disposition

abbrev pub wanted : Signal → Disposition
wanted sig = if sig.has_handler then caught else ignored

abbrev pub update : (ℕ → Disposition) → ℕ → Disposition → ℕ → Disposition
update d signo x n = if n == signo then x else d n

abbrev pub sigaction_failed : Signal → ℕ → LogCall
sigaction_failed sig err = record {
  level = log_emerg;
  err = err;
  fmt = codes "sigaction(%s) failed";
  args = string sig.signame ∷ [];
}

-- The loop of qc_init_signals, from a place in the table on; sigaction() fails with an errno.
init_loop :
    (ℕ → Option ℕ) → List Signal → (ℕ → Disposition) → Bool × List LogCall × (ℕ → Disposition)
init_loop answers [] d = (true, [], d)
init_loop answers (sig ∷ sigs) d =
    let rest = init_loop answers sigs (update d sig.signo (wanted sig)) in
    elim (answers sig.signo) [ none ↦ rest | some err ↦ (false, sigaction_failed sig err ∷ [], d) ]

-- qc_init_signals: false for -1, and the dispositions behind it
unfoldable pub init_signals :
    (ℕ → Option ℕ) → (ℕ → Disposition) → Bool × List LogCall × (ℕ → Disposition)
unfolding init_loop
init_signals answers d = init_loop answers signals d

abbrev pub eintr : ℕ
eintr = 4

abbrev pub echild : ℕ
echild = 10

-- What waitpid(-1, &status, WNOHANG) answers: 0, a child with its status, or -1 with an errno
pub data WaitAnswer : Type 0 where
  none_ended : WaitAnswer
  ended : ℕ → ℕ → WaitAnswer
  wait_error : ℕ → WaitAnswer

-- WTERMSIG and WEXITSTATUS
abbrev pub term_signal : ℕ → ℕ
term_signal status = status % 128

abbrev pub exit_status : ℕ → ℕ
exit_status status = status / 256 % 256

-- The line for a child that has ended
unfoldable pub ended_call : ℕ → ℕ → LogCall
ended_call pid status =
    if term_signal status == 0
    then record {
      level = log_notice;
      err = 0;
      fmt = codes "pid = %P exited with code %d!";
      args = word32 pid ∷ word32 (exit_status status) ∷ [];
    }
    else record {
      level = log_alert;
      err = 0;
      fmt = codes "pid = %P exited on signal %d!";
      args = word32 pid ∷ word32 (term_signal status) ∷ [];
    }

abbrev pub wait_failed : ℕ → ℕ → LogCall
wait_failed level err = record {
  level = level;
  err = err;
  fmt = codes "waitpid() failed!";
  args = [];
}

-- The ends on -1; `one` is whether a child was taken.
unfoldable pub error_calls : Bool → ℕ → List LogCall
error_calls one err =
    if err == echild && one
    then []
    else if err == echild
    then wait_failed log_info err ∷ []
    else wait_failed log_alert err ∷ []

-- for ( ;; ), with what waitpid() answers in turn: the calls of the log, and the answers that are
-- left. None where the answers do not let it end.
get_status_loop : Bool → List WaitAnswer → Option (List LogCall × List WaitAnswer)
get_status_loop one [] = none
get_status_loop one (none_ended ∷ answers) = some ([], answers)
get_status_loop one (wait_error err ∷ answers) =
    let again = get_status_loop one answers in
    if err == eintr then again else some (error_calls one err, answers)
get_status_loop one (ended pid status ∷ answers) = do
  (calls, left) ← get_status_loop true answers
  some (ended_call pid status ∷ calls, left)

-- qc_process_get_status
unfoldable pub process_get_status : List WaitAnswer → Option (List LogCall × List WaitAnswer)
unfolding get_status_loop ended_call error_calls
process_get_status answers = get_status_loop false answers

-- The name in the entry where the handler's loop stops; none for the NULL of the last entry.
unfoldable pub find_name : ℕ → List Signal → Option ByteList
find_name signo [] = none
find_name signo (sig ∷ sigs) = if sig.signo == signo then some sig.signame else find_name signo sigs

-- The line for a signal, with the process that sent it, if siginfo tells one; `action` is empty.
unfoldable pub received_call : ℕ → ByteList → Option ℕ → LogCall
received_call signo signame none = record {
  level = log_notice;
  err = 0;
  fmt = codes "signal %d (%s) received %s";
  args = word32 signo ∷ string signame ∷ string [] ∷ [];
}
received_call signo signame (some pid) = record {
  level = log_notice;
  err = 0;
  fmt = codes "signal %d (%s) received from %P%s";
  args = word32 signo ∷ string signame ∷ word32 pid ∷ string [] ∷ [];
}

-- siginfo && siginfo->si_pid
abbrev pub sender : Option ℕ → Option ℕ
sender none = none
sender (some pid) = if pid == 0 then none else some pid

-- The handler behind its loop, for the name where it stopped
unfoldable pub handle_named :
    ℕ → ℕ → Option ℕ → ℕ → List WaitAnswer → ByteList → Option (ℕ × List LogCall × List WaitAnswer)
handle_named process signo siginfo reap answers signame =
    let marked : ℕ = if process == process_master && signo == sigchld then 1 else reap in
    let first = received_call signo signame (sender siginfo) in
    let taken = process_get_status answers >>= λ r. some (marked, first ∷ r.0, r.1) in
    if signo == sigchld then taken else some (marked, first ∷ [], answers)

-- qc_signal_handler in a process of the kind `process`: qc_reap, the calls of the log, and the
-- answers of waitpid() that are left. None where a string of the log is NULL.
unfoldable pub signal_handler :
    ℕ → ℕ → Option ℕ → ℕ → List WaitAnswer → Option (ℕ × List LogCall × List WaitAnswer)
unfolding handle_named find_name
signal_handler process signo siginfo reap answers =
    find_name signo signals >>= handle_named process signo siginfo reap answers
