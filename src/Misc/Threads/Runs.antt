-- ===== src/Misc/Threads/Runs.antt =====
-- What holds of every run of the thread pool, from what holds of a move.
use quick_comm.Base.{ℕ, List, [], ◌∷◌, ◌++◌, none, some, ◌≡◌, ◌>>=◌}
use mathlib.Core.Path.{subst}
use quick_comm.Misc.Threads.{Threads, After, Move, step, run}

-- What holds of the outcome of a move, if there is one
abbrev pub Yields : (List ℕ → Threads → Type 0) → After → Type 0
Yields P none = Unit
Yields P (some (taken, s)) = P taken s

-- `R`: what a run relates, from what `S` says of a move in a pool with `I`
module _ (I : Threads → Type 0) (S : Move → Threads → List ℕ → Threads → Type 0)
    (R : List Move → Threads → List ℕ → Threads → Type 0)
    (each : (m : Move) (s : Threads) → I s → Yields (λ taken s'. I s' × S m s taken s') (step m s))
    (nil : (s : Threads) → R [] s [] s)
    (cons : (m : Move) (ms : List Move) (s s' s'' : Threads) (taken more : List ℕ)
      → S m s taken s'
      → R ms s' more s''
      → R (m ∷ ms) s (taken ++ more) s'') where
  abbrev Good : List Move → Threads → List ℕ → Threads → Type 0
  Good ms s taken s' = I s' × R ms s taken s'

  behind-Yields :
      (m : Move) (ms : List Move) (s s' : Threads) (taken : List ℕ) (o : After)
      → S m s taken s'
      → Yields (Good ms s') o
      → Yields (Good (m ∷ ms) s) (o >>= λ w. some (taken ++ w.0, w.1))
  behind-Yields m ms s s' taken none h g = tt
  behind-Yields m ms s s' taken (some (more, s'')) h (i, g) = (i, cons m ms s s' s'' taken more h g)

  move-Yields :
      (m : Move) (ms : List Move) (s : Threads) (o : After)
      → Yields (λ taken s'. I s' × S m s taken s') o
      → ((s' : Threads) → I s' → Yields (Good ms s') (run ms s'))
      → Yields
          (Good (m ∷ ms) s)
          (do (taken, s') ← o; (more, s'') ← run ms s'; some (taken ++ more, s''))
  move-Yields m ms s none h g = tt
  move-Yields m ms s (some (taken, s')) (i, h) g =
      behind-Yields m ms s s' taken (run ms s') h (g s' i)

  run-Yields : (ms : List Move) (s : Threads) → I s → Yields (Good ms s) (run ms s)
  unfolding run
  run-Yields [] s i = (i, nil s)
  run-Yields (m ∷ ms) s i = move-Yields m ms s (step m s) (each m s i) (run-Yields ms)

  pub run-from :
      (ms : List Move) (s s' : Threads) (taken : List ℕ)
      → run ms s ≡ some (taken, s')
      → I s
      → I s' × R ms s taken s'
  run-from ms s s' taken e i = subst (Yields (Good ms s)) e (run-Yields ms s i)
