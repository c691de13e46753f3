-- ===== src/Misc/TaskPool/Order.antt =====
-- Tasks are taken in the order in which they were accepted.
use quick_comm.Base.{ℕ, ◌≡◌, refl, sym, ap, ◌∙◌, List, [], ◌∷◌, ◌++◌, ltb, length, if_cases}
use mathlib.Core.List.{append_assoc, append-nil}
use quick_comm.Misc.TaskPool.{
  TaskPool, Move, submit, turn, stop, notify, accept, submit_task, locked, step, as_size,
}
use quick_comm.Misc.TaskPool.Runs.{Yields, func-Yields, accept-cases}

abbrev pub IsFifo : TaskPool → List ℕ → List ℕ → TaskPool → Type 0
IsFifo s accepted taken s' = s.task_queue ++ accepted ≡ taken ++ s'.task_queue

accept-queue : (task : ℕ) (s : TaskPool) → (accept task s).task_queue ≡ s.task_queue ++ (task ∷ [])
accept-queue task s =
    accept-cases (λ (t : TaskPool). t.task_queue ≡ s.task_queue ++ (task ∷ [])) task s (λ _. refl)
      refl

submit-IsFifo : (task : ℕ) (s : TaskPool) → Yields (IsFifo s) (submit_task task s)
unfolding submit_task
submit-IsFifo task s =
    if_cases (Yields (IsFifo s)) (ltb (length s.task_queue) (as_size s.max_task_size)) _ _
      (λ _. sym (accept-queue task s)) (λ _. append-nil s.task_queue)

locked-IsFifo :
    (id : ℕ) (queue : List ℕ) (s : TaskPool)
    → s.task_queue ≡ queue
    → Yields (IsFifo s) (locked id queue s)
unfolding locked
locked-IsFifo id [] s e =
    if_cases (λ (t : TaskPool). s.task_queue ++ [] ≡ t.task_queue) s.is_pool_running _ _
      (λ _. append-nil s.task_queue) (λ _. append-nil s.task_queue)
locked-IsFifo id (task ∷ rest) s e =
    if_cases (λ (t : TaskPool). s.task_queue ++ [] ≡ task ∷ t.task_queue) (ltb 0 (length rest)) _ _
      (λ _. append-nil s.task_queue ∙ e) (λ _. append-nil s.task_queue ∙ e)

pub step-IsFifo : (m : Move) (s : TaskPool) → Yields (IsFifo s) (step m s)
unfolding step
step-IsFifo (submit task) s = submit-IsFifo task s
step-IsFifo (turn dur id) s =
    func-Yields (IsFifo s) id s (λ w. locked-IsFifo id s.task_queue s refl)
      (λ d c w h. append-nil s.task_queue) (λ w. append-nil s.task_queue) dur
step-IsFifo stop s = append-nil s.task_queue
step-IsFifo notify s = append-nil s.task_queue

pub IsFifo-trans :
    (s s' s'' : TaskPool) (accepted taken later more : List ℕ)
    → IsFifo s accepted taken s'
    → IsFifo s' later more s''
    → IsFifo s (accepted ++ later) (taken ++ more) s''
IsFifo-trans s s' s'' accepted taken later more e f =
    sym (append_assoc s.task_queue accepted later)
    ∙ ap (λ q. q ++ later) e
    ∙ append_assoc taken s'.task_queue later
    ∙ ap (◌++◌ taken) f
    ∙ sym (append_assoc taken more s''.task_queue)
