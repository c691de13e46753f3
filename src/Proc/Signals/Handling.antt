-- ===== src/Proc/Signals/Handling.antt =====
-- The handler of a signal that qc_init_signals had caught.
use quick_comm.Base.{
  ℕ, ◌≡◌, refl, sym, ap, ◌∙◌, Bool, false, ◌&&◌, List, [], ◌∷◌, ◌++◌, Option, some, none, All, ◌==◌,
  ==_iff, if◌then◌else◌, Bool-cases, inl, inr, ◌>>=◌,
}
use mathlib.Core.Path.{subst}
use quick_comm.Public.Format.{ByteList}
use quick_comm.Proc.Signals.{
  LogCall, Signal, signals, Disposition, default_action, caught, wanted, update, init_loop,
  init_signals, find_name, received_call, sender, sigchld, process_master, WaitAnswer,
  process_get_status, handle_named, signal_handler, sigaction_failed,
}
use quick_comm.Proc.Signals.Reaping.{GoesOn, Ends, child_calls, has_child, end_calls, status-Reaps}

-- The signal has an entry with a name in the table.
abbrev pub IsNamed : ℕ → Type 0
IsNamed signo = (name : ByteList) × (find_name signo signals ≡ some name)

-- Only signals of the table are caught.
abbrev CatchesNamed : (ℕ → Disposition) → Type 0
CatchesNamed d = (n : ℕ) → d n ≡ caught → IsNamed n

update-CatchesNamed :
    (d : ℕ → Disposition) (signo : ℕ) (x : Disposition)
    → CatchesNamed d
    → IsNamed signo
    → CatchesNamed (update d signo x)
update-CatchesNamed d signo x v named n e = elim (Bool-cases (n == signo)) [
  | inl same ↦ subst (λ m. IsNamed m) (sym ((==_iff n signo).0 same)) named
  | inr other ↦ v n (simp other at e)
]

loop-CatchesNamed :
    (answers : ℕ → Option ℕ) (sigs : List Signal) (d : ℕ → Disposition)
    → All (λ (sig : Signal). IsNamed sig.signo) sigs
    → CatchesNamed d
    → CatchesNamed (init_loop answers sigs d).2
unfolding init_loop
loop-CatchesNamed answers [] d names v = v
loop-CatchesNamed answers (sig ∷ sigs) d (named, names) v =
    let rest = init_loop answers sigs (update d sig.signo (wanted sig)) in
    elim (answers sig.signo)
      as (λ o.
        CatchesNamed
          (elim o as (λ _. Bool × List LogCall × (ℕ → Disposition)) [
            | none ↦ rest
            | some err ↦ (false, sigaction_failed sig err ∷ [], d)
          ]).2) [
            | some err ↦ v
            | none ↦
                loop-CatchesNamed answers sigs (update d sig.signo (wanted sig)) names
                  (update-CatchesNamed d sig.signo (wanted sig) v named)
          ]

signals-IsNamed : All (λ (sig : Signal). IsNamed sig.signo) signals
unfolding find_name
signals-IsNamed =
    ((_, refl), ((_, refl), ((_, refl), ((_, refl), ((_, refl), ((_, refl), ((_, refl), tt)))))))

-- What the handler writes for a signal: a line, and on SIGCHLD one for each child.
abbrev pub handled_calls : ℕ → ByteList → Option ℕ → List LogCall → List LogCall
handled_calls signo name siginfo reaped =
    received_call signo name (sender siginfo) ∷ (if signo == sigchld then reaped else [])

handled :
    (process signo : ℕ) (siginfo : Option ℕ) (reap : ℕ) (answers later : List WaitAnswer)
    (name : ByteList) (reaped : List LogCall)
    → process_get_status answers ≡ some (reaped, later)
    → handle_named process signo siginfo reap answers name
      ≡ some (
        if process == process_master && signo == sigchld then 1 else reap,
        handled_calls signo name siginfo reaped,
        if signo == sigchld then later else answers,
      )
unfolding handle_named
handled process signo siginfo reap answers later name reaped e =
    elim (Bool-cases (signo == sigchld)) [
      | inl child ↦ simp (child, e) refl
      | inr other ↦ simp other refl
    ]

-- Whatever sigaction() answers to qc_init_signals in a process with the default dispositions: a
-- signal that is caught behind it has an entry in the table, so the handler has a name to log. It
-- sets qc_reap to 1 on SIGCHLD in the master process and leaves it otherwise. On SIGCHLD it takes
-- every child that waitpid() gives, through interruptions, until there is none or waitpid()
-- fails, and it logs each of them once, in order; on another signal it asks for no child.
pub handler-Handles :
    (sigactions : ℕ → Option ℕ) (process signo : ℕ) (siginfo : Option ℕ) (reap : ℕ)
    (before : List WaitAnswer) (last : WaitAnswer) (later : List WaitAnswer)
    → (init_signals sigactions (λ _. default_action)).2 signo ≡ caught
    → All GoesOn before
    → Ends last
    → (name : ByteList) × (find_name signo signals ≡ some name)
      × (signal_handler process signo siginfo reap (before ++ (last ∷ later))
          ≡ some (
            if process == process_master && signo == sigchld then 1 else reap,
            handled_calls signo name siginfo
                (child_calls before ++ end_calls (has_child before) last),
            if signo == sigchld then later else before ++ (last ∷ later),
          ))
unfolding init_signals signal_handler
handler-Handles sigactions process signo siginfo reap before last later is_caught g e =
    let (name, found) =
      loop-CatchesNamed sigactions signals (λ _. default_action) signals-IsNamed
        (λ n h. absurd (cc)) signo is_caught in
    (
      name,
      found,
      ap (λ o. o >>= handle_named process signo siginfo reap (before ++ (last ∷ later))) found
          ∙ handled process signo siginfo reap (before ++ (last ∷ later)) later name _
              (status-Reaps before last later g e),
    )
