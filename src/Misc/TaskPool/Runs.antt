-- ===== src/Misc/TaskPool/Runs.antt =====
-- What holds of every run of the task pool, from what holds of a move.
use quick_comm.Base.{
  &&_left, ap, Bool, false, refl, true, not, not-false, if_cases, ℕ, List, [], ◌∷◌, ◌++◌, Option,
  none, some, ◌≡◌, All, >>=-eq-some,
}
use mathlib.Core.Path.{subst}
use quick_comm.Base.Int.{pos, ◌+ℤ◌}
use quick_comm.Misc.TaskPool.{
  TaskPool, After, Move, step, run, Place, at_lock, waiting, ended, working, locked, thread_func,
  is_cached, is_idle, leave_idle, put, needs_thread, add_thread, queue_task, accept,
}

-- What holds of the outcome of a move, if there is one
abbrev pub Yields : (List ℕ → List ℕ → TaskPool → Type 0) → After → Type 0
Yields P none = Unit
Yields P (some (accepted, taken, s)) = P accepted taken s

pub Yields-both :
    (P Q : List ℕ → List ℕ → TaskPool → Type 0) (o : After)
    → Yields P o
    → Yields Q o
    → Yields (λ accepted taken s. P accepted taken s × Q accepted taken s) o
Yields-both P Q none p q = tt
Yields-both P Q (some (accepted, taken, s)) p q = (p, q)

pub Yields-map :
    (P Q : List ℕ → List ℕ → TaskPool → Type 0) (o : After)
    → ((accepted taken : List ℕ) (s : TaskPool) → P accepted taken s → Q accepted taken s)
    → Yields P o
    → Yields Q o
Yields-map P Q none f p = tt
Yields-map P Q (some (accepted, taken, s)) f p = f accepted taken s p

-- `R`: what a run of moves with `G` relates, from what a move does in a pool with `I`
module _ (G : Move → Type 0) (I : TaskPool → Type 0)
    (R : TaskPool → List ℕ → List ℕ → TaskPool → Type 0)
    (each : (m : Move) (s : TaskPool)
      → G m
      → I s
      → Yields (λ accepted taken s'. I s' × R s accepted taken s') (step m s))
    (nil : (s : TaskPool) → I s → R s [] [] s)
    (cons : (s s' s'' : TaskPool) (accepted taken later more : List ℕ)
      → R s accepted taken s'
      → R s' later more s''
      → R s (accepted ++ later) (taken ++ more) s'') where
  pub run-from :
      (ms : List Move) (s s' : TaskPool) (accepted taken : List ℕ)
      → All G ms
      → I s
      → run ms s ≡ some (accepted, taken, s')
      → I s' × R s accepted taken s'
  unfolding run
  run-from [] s s' accepted taken g i e = subst (Yields (λ a t u. I u × R s a t u)) e (i, nil s i)
  run-from (m ∷ ms) s s' accepted taken (g, gs) i e =
      let ((a, t, u), one, e1) = >>=-eq-some (step m s) _ e in
      let ((later, more, v), others, e2) = >>=-eq-some (run ms u) _ e1 in
      let (j, r) = subst (Yields (λ a t u. I u × R s a t u)) one (each m s g i) in
      let (k, q) = run-from ms u v later more gs j others in
      subst (Yields (λ a t u. I u × R s a t u)) e2 (k, cons s u v a t later more r q)

abbrev pub is_live : Place → Bool
is_live ended = false
is_live _ = true

-- The turns of a thread, from what it does under the lock, when it leaves, and behind a task
module _ (P : List ℕ → List ℕ → TaskPool → Type 0) (id : ℕ) (s : TaskPool)
    (locks : is_live (s.places id) ≡ true → Yields P (locked id s.task_queue s))
    (leaves : (dur : ℕ)
      → is_cached s.pool_mode ≡ true
      → is_live (s.places id) ≡ true
      → is_idle dur s ≡ true
      → P [] [] (leave_idle id s))
    (works : is_live (s.places id) ≡ true
      → P [] []
          (put id at_lock (record s { spare_thread_size = s.spare_thread_size +ℤ pos 1 }))) where
  place-Yields : (p : Place) (dur : Option ℕ) → s.places id ≡ p → Yields P (thread_func p dur id s)
  unfolding thread_func
  place-Yields at_lock dur e = locks (ap is_live e)
  place-Yields waiting none e = locks (ap is_live e)
  place-Yields waiting (some dur) e =
      if_cases (Yields P) (not (is_cached s.pool_mode)) _ _ (λ _. tt)
        (λ c.
          if_cases (Yields P) (is_idle dur s) _ _
            (λ idle. leaves dur (not-false (is_cached s.pool_mode) c) (ap is_live e) idle)
            (λ _. locks (ap is_live e)))
  place-Yields (working task) dur e = works (ap is_live e)
  place-Yields ended dur e = tt

  pub func-Yields : (dur : Option ℕ) → Yields P (thread_func (s.places id) dur id s)
  func-Yields dur = place-Yields (s.places id) dur refl

-- submitTask with room makes a thread only in the cached mode.
pub accept-cases :
    (P : TaskPool → Type 0) (task : ℕ) (s : TaskPool)
    → (is_cached s.pool_mode ≡ true → P (add_thread (queue_task task s)))
    → P (queue_task task s)
    → P (accept task s)
unfolding accept
accept-cases P task s more same =
    if_cases P (needs_thread (queue_task task s)) _ _
      (λ needs. more (&&_left (is_cached s.pool_mode) _ (&&_left _ _ needs))) (λ _. same)
