-- ===== src/Misc/Threads/Order.antt =====
-- Threads take the messages in the order in which they came, each once, and none after the stop.
use quick_comm.Base.{
  ℕ, zero, suc, ◌≡◌, refl, sym, ap, ◌∙◌, Bool, true, false, List, [], ◌∷◌, ◌++◌, none, some, ◌&&◌,
  ◌>>=◌, Bool-cases, inl, inr,
}
use mathlib.Core.List.{append_assoc, append-nil}
use quick_comm.Base.Int.{ℤ}
use quick_comm.Misc.Threads.{
  Stage, at_lock, waiting, at_end, absent, holding, working, handled, Thread, Threads, After, Move,
  arrive, stop, join, turn, locked, thread_step, turn_at, stop_all, join_all, all_returned, step,
  run,
}
use quick_comm.Misc.Threads.Runs.{Yields, run-from}

abbrev pub arrival : Move → List ℕ
arrival (arrive currtime buf) = buf ∷ []
arrival _ = []

-- The messages that came during a run
abbrev pub arrivals : List Move → List ℕ
arrivals [] = []
arrivals (m ∷ ms) = arrival m ++ arrivals ms

abbrev pub IsFifo : List ℕ → Threads → List ℕ → Threads → Type 0
IsFifo came s taken s' = s.queue ++ came ≡ taken ++ s'.queue

locked-queue :
    (ready stops : Bool) (queue : List ℕ) (n : ℤ)
    → queue ++ [] ≡ (locked ready stops queue n).taken ++ (locked ready stops queue n).queue
unfolding locked
locked-queue ready true queue n = append-nil queue
locked-queue ready false [] n = refl
locked-queue ready false (m ∷ queue) n = append-nil (m ∷ queue)

thread_step-IsFifo :
    (ready : Bool) (p : Stage) (with_thread : Thread → List Thread) (s : Threads)
    → Yields (IsFifo [] s) (thread_step ready p with_thread s)
unfolding thread_step
thread_step-IsFifo ready at_lock with_thread s = locked-queue ready s.shutdown s.queue s.queue_n
thread_step-IsFifo ready waiting with_thread s = append-nil s.queue
thread_step-IsFifo ready (holding m) with_thread s = append-nil s.queue
thread_step-IsFifo ready (working m) with_thread s = append-nil s.queue
thread_step-IsFifo ready (handled m) with_thread s = append-nil s.queue
thread_step-IsFifo ready at_end with_thread s = tt
thread_step-IsFifo ready absent with_thread s = tt

-- A thread that moves, whichever it is
module _ (P : Threads → List ℕ → Threads → Type 0)
    (each : (ready : Bool) (p : Stage) (with_thread : Thread → List Thread) (s : Threads)
      → Yields (P s) (thread_step ready p with_thread s)) where
  turn_at-Yields :
      (i : ℕ) (front ts : List Thread) (s : Threads) → Yields (P s) (turn_at i front ts s)
  unfolding turn_at
  turn_at-Yields i front [] s = tt
  turn_at-Yields zero front (t ∷ ts) s = each t.ifrunning t.place (λ t'. front ++ (t' ∷ ts)) s
  turn_at-Yields (suc i) front (t ∷ ts) s = turn_at-Yields i (front ++ (t ∷ [])) ts s

-- StopAll and the joins change neither the queue nor the stop.
stop_all-same : (s : Threads) → ((stop_all s).queue ≡ s.queue) × ((stop_all s).shutdown ≡ true)
unfolding stop_all
stop_all-same s = elim (Bool-cases s.shutdown) [
  | inl again ↦ simp again (refl, refl)
  | inr first ↦ simp first (refl, refl)
]

join_all-same :
    (s : Threads)
    → Yields
        (λ taken s'. (taken ≡ []) × (s'.queue ≡ s.queue) × (s'.shutdown ≡ s.shutdown))
        (join_all s >>= λ s'. some ([], s'))
unfolding join_all
join_all-same s = elim (Bool-cases (s.shutdown && all_returned s.threads)) [
  | inl all ↦ simp all (refl, refl, refl)
  | inr left ↦ simp left tt
]

implies :
    (P Q : List ℕ → Threads → Type 0) (o : After)
    → ((taken : List ℕ) (s : Threads) → P taken s → Q taken s)
    → Yields P o
    → Yields Q o
implies P Q none f h = tt
implies P Q (some (taken, s)) f h = f taken s h

step-IsFifo : (m : Move) (s : Threads) → Yields (IsFifo (arrival m) s) (step m s)
unfolding step
step-IsFifo (arrive currtime buf) s = refl
step-IsFifo stop s = append-nil s.queue ∙ sym (stop_all-same s).0
step-IsFifo join s =
    implies _ (IsFifo [] s) (join_all s >>= λ s'. some ([], s'))
      (λ taken s' (e, f, g). append-nil s.queue ∙ sym f ∙ ap (λ t. t ++ s'.queue) (sym e))
      (join_all-same s)
step-IsFifo (turn i) s = turn_at-Yields (IsFifo []) thread_step-IsFifo i [] s.threads s

IsFifo-trans :
    (came later taken more : List ℕ) (s s' s'' : Threads)
    → IsFifo came s taken s'
    → IsFifo later s' more s''
    → IsFifo (came ++ later) s (taken ++ more) s''
IsFifo-trans came later taken more s s' s'' e f =
    sym (append_assoc s.queue came later)
    ∙ ap (λ q. q ++ later) e
    ∙ append_assoc taken s'.queue later
    ∙ ap (◌++◌ taken) f
    ∙ sym (append_assoc taken more s''.queue)

-- In every run, what waited at its start and what came during it is what threads took, in that
-- order, and what waits at its end: no message is lost, taken twice or overtaken.
pub run-IsFifo :
    (ms : List Move) (s s' : Threads) (taken : List ℕ)
    → run ms s ≡ some (taken, s')
    → s.queue ++ arrivals ms ≡ taken ++ s'.queue
run-IsFifo ms s s' taken e =
    (run-from (λ s. Unit {0}) (λ m. IsFifo (arrival m)) (λ ms. IsFifo (arrivals ms))
      (λ m s u. implies _ _ (step m s) (λ taken s' h. (tt, h)) (step-IsFifo m s))
      (λ s. append-nil s.queue)
      (λ m ms s s' s'' taken more. IsFifo-trans (arrival m) (arrivals ms) taken more s s' s'') ms s
      s' taken e tt).1

abbrev Stopped : Threads → List ℕ → Threads → Type 0
Stopped s taken s' = s.shutdown ≡ true → (s'.shutdown ≡ true) × (taken ≡ [])

locked-Stopped :
    (ready stops : Bool) (queue : List ℕ) (n : ℤ)
    → stops ≡ true
    → (locked ready stops queue n).taken ≡ []
unfolding locked
locked-Stopped ready true queue n h = refl
locked-Stopped ready false queue n h = cc

thread_step-Stopped :
    (ready : Bool) (p : Stage) (with_thread : Thread → List Thread) (s : Threads)
    → Yields (Stopped s) (thread_step ready p with_thread s)
unfolding thread_step
thread_step-Stopped ready at_lock with_thread s =
    λ h. (h, locked-Stopped ready s.shutdown s.queue s.queue_n h)
thread_step-Stopped ready waiting with_thread s = λ h. (h, refl)
thread_step-Stopped ready (holding m) with_thread s = λ h. (h, refl)
thread_step-Stopped ready (working m) with_thread s = λ h. (h, refl)
thread_step-Stopped ready (handled m) with_thread s = λ h. (h, refl)
thread_step-Stopped ready at_end with_thread s = tt
thread_step-Stopped ready absent with_thread s = tt

step-Stopped : (m : Move) (s : Threads) → Yields (Stopped s) (step m s)
unfolding step
step-Stopped (arrive currtime buf) s = λ h. (h, refl)
step-Stopped stop s = λ h. ((stop_all-same s).1, refl)
step-Stopped join s =
    implies _ (Stopped s) (join_all s >>= λ s'. some ([], s')) (λ taken s' (e, f, g) h. (g ∙ h, e))
      (join_all-same s)
step-Stopped (turn i) s = turn_at-Yields Stopped thread_step-Stopped i [] s.threads s

-- From StopAll on no thread takes a message, whatever waits in the queue or still comes, and the
-- stop is not taken back.
pub run-stopped :
    (ms : List Move) (s s' : Threads) (taken : List ℕ)
    → run ms s ≡ some (taken, s')
    → s.shutdown ≡ true
    → (s'.shutdown ≡ true) × (taken ≡ [])
run-stopped ms s s' taken e h =
    run-from (λ s. s.shutdown ≡ true) (λ m s taken s'. taken ≡ []) (λ ms s taken s'. taken ≡ [])
      (λ m s i. implies _ _ (step m s) (λ taken s' g. g i) (step-Stopped m s)) (λ s. refl)
      (λ m ms s s' s'' taken more f g. ap (λ t. t ++ more) f ∙ g) ms s s' taken e h
