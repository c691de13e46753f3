-- ===== src/Proc/Signals/Tests.antt =====
-- The master process and two workers that end.
use quick_comm.Base.{ℕ, ◌≡◌, refl, List, [], ◌∷◌, Option, some, none, codes, ◌==◌, if◌then◌else◌}
use quick_comm.Public.Format.{word32, string, ByteList}
use quick_comm.Proc.Signals.{
  LogCall, default_action, ignored, caught, signals, sigchld, find_name, init_signals, WaitAnswer,
  ended, wait_error, signal_handler, process_get_status, process_master, ended_call, error_calls,
}
use quick_comm.Proc.Signals.Handling.{handled_calls, handler-Handles}

abbrev all_work : ℕ → Option ℕ
all_work n = none

-- sigaction(SIGTERM) fails with EINVAL.
abbrev no_term : ℕ → Option ℕ
no_term n = if n == 15 then some 22 else none

ignores_sigsys : (init_signals all_work (λ _. default_action)).2 31 ≡ ignored
unfolding init_signals
ignores_sigsys = refl

keeps_sigpipe : (init_signals all_work (λ _. default_action)).2 13 ≡ default_action
unfolding init_signals
keeps_sigpipe = refl

stops_at_sigterm :
    (init_signals no_term (λ _. default_action)).1
    ≡ record {
      level = 1;
      err = 22;
      fmt = codes "sigaction(%s) failed";
      args = string (codes "SIGTERM") ∷ [];
    }
      ∷ []
unfolding init_signals
stops_at_sigterm = refl

no_sigchld_behind : (init_signals no_term (λ _. default_action)).2 sigchld ≡ default_action
unfolding init_signals
no_sigchld_behind = refl

-- One worker was killed by a signal, and one ended by exit(-2).
abbrev two_ended : List WaitAnswer
two_ended = ended 301 9 ∷ wait_error 4 ∷ ended 302 0xfe00 ∷ []

abbrev two_lines : List LogCall
two_lines =
    record {
      level = 2;
      err = 0;
      fmt = codes "pid = %P exited on signal %d!";
      args = word32 301 ∷ word32 9 ∷ [];
    }
    ∷ record {
      level = 6;
      err = 0;
      fmt = codes "pid = %P exited with code %d!";
      args = word32 302 ∷ word32 254 ∷ [];
    }
    ∷ []

takes_both :
    process_get_status (ended 301 9 ∷ wait_error 4 ∷ ended 302 0xfe00 ∷ wait_error 10 ∷ [])
    ≡ some (two_lines, [])
unfolding process_get_status
takes_both = refl

no_child :
    process_get_status (wait_error 10 ∷ [])
    ≡ some (record { level = 7; err = 10; fmt = codes "waitpid() failed!"; args = [] } ∷ [], [])
unfolding process_get_status
no_child = refl

-- The table has no SIGUSR1, and a handler for it would read a NULL.
unnamed_signal : signal_handler process_master 10 none 0 [] ≡ none
unfolding signal_handler
unnamed_signal = refl

child_caught : (init_signals all_work (λ _. default_action)).2 sigchld ≡ caught
unfolding init_signals
child_caught = refl

handler-Handles_example :
    (name : ByteList) × (find_name sigchld signals ≡ some name)
    × (signal_handler process_master sigchld
          (some 301)
          0
          (ended 301 9 ∷ wait_error 4 ∷ ended 302 0xfe00 ∷ wait_error 10 ∷ [])
        ≡ some (1, handled_calls sigchld name (some 301) two_lines, []))
unfolding ended_call error_calls
handler-Handles_example =
    handler-Handles all_work process_master sigchld (some 301) 0 two_ended (wait_error 10) []
      child_caught (tt, (refl, (tt, tt))) (λ e. cc)
