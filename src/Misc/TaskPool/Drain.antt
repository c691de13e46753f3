-- ===== src/Misc/TaskPool/Drain.antt =====
-- The destructor of a task pool waits for all of its tasks.
use quick_comm.Base.{
  ℕ, ◌<◌, ◌≡◌, refl, sym, ap, ◌∙◌, true, List, [], ◌∷◌, ◌++◌, Option, some, ltb, length, All,
  if_cases, if◌then◌else◌, ◌==◌, arith,
}
use mathlib.Core.List.{append-nil}
use quick_comm.Misc.TaskPool.{
  TaskPool, new_pool, start, mode_fixed, working, Move, submit, turn, stop, notify, accept,
  submit_task, locked, thread_func, step, run, notify_all, as_size,
}
use quick_comm.Misc.TaskPool.Runs.{Yields, run-from, func-Yields, accept-cases, Yields-both}
use quick_comm.Misc.TaskPool.Started.{IsStarted, start-IsStarted}
use mathlib.Core.Path.{subst}
use quick_comm.Base.Int.{pos}
use quick_comm.Misc.TaskPool.Order.{IsFifo, IsFifo-trans, step-IsFifo}

-- A pool of a fixed number of threads: while it runs it has threads, and it has no tasks when the
-- last of them is gone.
pub record IsStaffed (s : TaskPool) : Type 0 where
  pub fixed : s.pool_mode ≡ mode_fixed
  pub staffed : s.is_pool_running ≡ true → 0 < length s.thread_list
  pub done : length s.thread_list ≡ 0 → s.task_queue ≡ []

-- What a move has to leave alone for this
module _ (s : TaskPool) (i : IsStaffed s) where
  accept-IsStaffed : (task : ℕ) → s.is_pool_running ≡ true → IsStaffed (accept task s)
  accept-IsStaffed task runs =
      accept-cases IsStaffed task s (λ cached. absurd (cc (cached, i.fixed)))
        (record {
          fixed = i.fixed;
          staffed = i.staffed;
          done = λ e. absurd (omega (arith, e, i.staffed runs));
        })

  locked-IsStaffed :
      (id : ℕ) (queue : List ℕ)
      → s.task_queue ≡ queue
      → Yields (λ accepted taken s'. IsStaffed s') (locked id queue s)
  unfolding locked
  locked-IsStaffed id [] e =
      if_cases IsStaffed s.is_pool_running _ _
        (λ runs. record { fixed = i.fixed; staffed = i.staffed; done = i.done })
        (λ stopped. record {
          fixed = i.fixed;
          staffed = λ runs. absurd (cc (runs, stopped));
          done = λ _. e;
        })
  locked-IsStaffed id (task ∷ rest) e =
      let kept : length s.thread_list ≡ 0 → rest ≡ [] = λ z. absurd (cc (e, i.done z)) in
      if_cases
        (λ (t : TaskPool).
          IsStaffed (record t { places = λ b. if b == id then working task else t.places b }))
        (ltb 0 (length rest)) _ _
        (λ _. record { fixed = i.fixed; staffed = i.staffed; done = kept })
        (λ _. record { fixed = i.fixed; staffed = i.staffed; done = kept })

  submit-IsStaffed :
      (task : ℕ)
      → s.is_pool_running ≡ true
      → Yields (λ accepted taken s'. IsStaffed s') (submit_task task s)
  unfolding submit_task
  submit-IsStaffed task runs =
      if_cases (Yields (λ accepted taken s'. IsStaffed s'))
        (ltb (length s.task_queue) (as_size s.max_task_size)) _ _ (λ _. accept-IsStaffed task runs)
        (λ _. i)

  turn-IsStaffed :
      (dur : Option ℕ) (id : ℕ)
      → Yields (λ accepted taken s'. IsStaffed s') (thread_func (s.places id) dur id s)
  turn-IsStaffed dur id =
      func-Yields (λ accepted taken s'. IsStaffed s') id s
        (λ w. locked-IsStaffed id s.task_queue refl) (λ d c w h. absurd (cc (c, i.fixed)))
        (λ w. record { fixed = i.fixed; staffed = i.staffed; done = i.done }) dur

-- The moves before ~ThreadPool, and those from then on
abbrev pub IsBefore : Move → Type 0
IsBefore stop = ⊥
IsBefore _ = Unit

abbrev pub IsBehind : Move → Type 0
IsBehind (submit task) = ⊥
IsBehind _ = Unit

-- Before the destructor the pool runs on.
abbrev pub Runs : List ℕ → List ℕ → TaskPool → Type 0
Runs accepted taken s = s.is_pool_running ≡ true

locked-Runs :
    (id : ℕ) (queue : List ℕ) (s : TaskPool)
    → s.is_pool_running ≡ true
    → Yields Runs (locked id queue s)
unfolding locked
locked-Runs id [] s runs =
    if_cases (λ (t : TaskPool). t.is_pool_running ≡ true) s.is_pool_running _ _ (λ _. runs)
      (λ _. runs)
locked-Runs id (task ∷ rest) s runs =
    if_cases (λ (t : TaskPool). t.is_pool_running ≡ true) (ltb 0 (length rest)) _ _ (λ _. runs)
      (λ _. runs)

pub step-Runs :
    (m : Move) (s : TaskPool) → IsBefore m → s.is_pool_running ≡ true → Yields Runs (step m s)
unfolding step submit_task
step-Runs (submit task) s before runs =
    if_cases (Yields Runs) (ltb (length s.task_queue) (as_size s.max_task_size)) _ _
      (λ _. accept-cases (λ t. t.is_pool_running ≡ true) task s (λ _. runs) runs) (λ _. runs)
step-Runs (turn dur id) s before runs =
    func-Yields Runs id s (λ w. locked-Runs id s.task_queue s runs) (λ d c w h. runs) (λ w. runs)
      dur
step-Runs stop s before runs = absurd before
step-Runs notify s before runs = runs

abbrev Works : TaskPool → Type 0
Works s = IsStaffed s × (s.is_pool_running ≡ true)

notify-IsStaffed : (s : TaskPool) → IsStaffed s → IsStaffed (notify_all s)
notify-IsStaffed s i = record { fixed = i.fixed; staffed = i.staffed; done = i.done }

before-Works :
    (m : Move) (s : TaskPool)
    → IsBefore m
    → Works s
    → Yields (λ accepted taken s'. Works s' × IsFifo s accepted taken s') (step m s)
unfolding step submit_task
before-Works m s before (i, runs) =
    Yields-both (λ a t s'. Works s') (IsFifo s) (step m s)
      (Yields-both (λ a t s'. IsStaffed s') Runs (step m s) (staffs m before)
        (step-Runs m s before runs))
      (step-IsFifo m s)
  where
    staffs : (m : Move) → IsBefore m → Yields (λ a t s'. IsStaffed s') (step m s)
    staffs (submit task) b = submit-IsStaffed s i task runs
    staffs (turn dur id) b = turn-IsStaffed s i dur id
    staffs stop b = absurd b
    staffs notify b = notify-IsStaffed s i

behind-IsStaffed :
    (m : Move) (s : TaskPool)
    → IsBehind m
    → IsStaffed s
    → Yields (λ accepted taken s'. IsStaffed s' × IsFifo s accepted taken s') (step m s)
unfolding step
behind-IsStaffed m s behind i =
    Yields-both (λ a t s'. IsStaffed s') (IsFifo s) (step m s) (staffs m behind) (step-IsFifo m s)
  where
    staffs : (m : Move) → IsBehind m → Yields (λ a t s'. IsStaffed s') (step m s)
    staffs (submit task) b = absurd b
    staffs (turn dur id) b = turn-IsStaffed s i dur id
    staffs stop b = record { fixed = i.fixed; staffed = λ runs. absurd (cc runs); done = i.done }
    staffs notify b = notify-IsStaffed s i

-- A pool of a fixed number of threads, one at least, is started as the first of its process, works
-- through any moves but the destructor's, and then through any moves but submitTask. Whatever the
-- moves are, the tasks that threads took are the first of those that submitTask accepted, each
-- once and in their order. When thread_list_ is empty, so that ~ThreadPool returns, they are all
-- that were accepted.
pub run-Drains :
    (threadsize : ℕ) (before behind : List Move) (s s1 s2 : TaskPool)
    (accepted later taken more : List ℕ)
    → 0 < threadsize
    → start (pos threadsize) (new_pool 0) ≡ some s
    → All IsBefore before
    → run before s ≡ some (accepted, taken, s1)
    → All IsBehind behind
    → run behind s1 ≡ some (later, more, s2)
    → (accepted ++ later ≡ (taken ++ more) ++ s2.task_queue)
      × (length s2.thread_list ≡ 0 → accepted ++ later ≡ taken ++ more)
run-Drains threadsize before behind s s1 s2 accepted later taken more h e b r1 c r2 =
    let (s', e', started) = start-IsStarted mode_fixed threadsize in
    let same : s' ≡ s = cc (e', e) in
    let st = subst (IsStarted mode_fixed threadsize _) same started in
    let i : IsStaffed s = record {
      fixed = st.has_mode;
      staffed = λ _. ground (arith, h, st.size);
      done = λ _. st.no_tasks;
    } in
    let ((i1, runs), f1) =
      run-from IsBefore Works IsFifo before-Works (λ s _. append-nil s.task_queue) IsFifo-trans
        before s s1 accepted taken b (i, st.runs) r1 in
    let (i2, f2) =
      run-from IsBehind IsStaffed IsFifo behind-IsStaffed (λ s _. append-nil s.task_queue)
        IsFifo-trans behind s1 s2 later more c i1 r2 in
    let all : accepted ++ later ≡ (taken ++ more) ++ s2.task_queue =
      ap (λ q. q ++ (accepted ++ later)) (sym st.no_tasks)
      ∙ IsFifo-trans s s1 s2 accepted taken later more f1 f2 in
    (all, λ z. all ∙ ap (λ q. (taken ++ more) ++ q) (i2.done z) ∙ append-nil (taken ++ more))
