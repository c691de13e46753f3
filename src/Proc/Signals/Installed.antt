-- ===== src/Proc/Signals/Installed.antt =====
-- signal/qc_signal.cc: when qc_init_signals fails.
use quick_comm.Base.{
  ℕ, ◌≡◌, refl, Bool, true, false, ◌⊎◌, inl, inr, List, [], ◌∷◌, Option, none, some, All,
}
use quick_comm.Proc.Signals.{
  LogCall, Signal, signals, Disposition, wanted, update, sigaction_failed, init_loop, init_signals,
}

-- sigaction() refuses a signal of the list.
abbrev pub SomeRefused : (ℕ → Option ℕ) → List Signal → Type 0
SomeRefused answers [] = ⊥
SomeRefused answers (sig ∷ sigs) =
    ((err : ℕ) × (answers sig.signo ≡ some err)) ⊎ SomeRefused answers sigs

-- It refuses none of them.
abbrev pub AllGranted : (ℕ → Option ℕ) → List Signal → Type 0
AllGranted answers sigs = All (λ (sig : Signal). answers sig.signo ≡ none) sigs

abbrev pub Installs : (ℕ → Option ℕ) → List Signal → Bool → Type 0
Installs answers sigs true = AllGranted answers sigs
Installs answers sigs false = SomeRefused answers sigs

module _ (answers : ℕ → Option ℕ) (sig : Signal) (sigs : List Signal) where
  granted :
      (ok : Bool)
      → answers sig.signo ≡ none
      → Installs answers sigs ok
      → Installs answers (sig ∷ sigs) ok
  granted true e h = (e, h)
  granted false e h = inr h

  answered :
      (answer : Option ℕ) (d : ℕ → Disposition) (rest : Bool × List LogCall × (ℕ → Disposition))
      → answers sig.signo ≡ answer
      → Installs answers sigs rest.0
      → Installs answers
          (sig ∷ sigs)
          (elim answer as (λ _. Bool × List LogCall × (ℕ → Disposition)) [
            | none ↦ rest
            | some err ↦ (false, sigaction_failed sig err ∷ [], d)
          ]).0
  answered none d rest e h = granted rest.0 e h
  answered (some err) d rest e h = inl (err, e)

loop-Installs :
    (answers : ℕ → Option ℕ) (sigs : List Signal) (d : ℕ → Disposition)
    → Installs answers sigs (init_loop answers sigs d).0
unfolding init_loop
loop-Installs answers [] d = tt
loop-Installs answers (sig ∷ sigs) d =
    answered answers sig sigs (answers sig.signo) d _ refl
      (loop-Installs answers sigs (update d sig.signo (wanted sig)))

-- qc_init_signals returns -1 just when sigaction() refuses a signal of the table, and else it has
-- been granted all of them.
pub init_signals-Installs :
    (answers : ℕ → Option ℕ) (d : ℕ → Disposition)
    → Installs answers signals (init_signals answers d).0
unfolding init_signals
init_signals-Installs answers d = loop-Installs answers signals d
