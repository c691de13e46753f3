-- ===== src/Misc/TaskPool/Counts.antt =====
-- What the counts of a task pool are while it runs: the number of tasks only grows, and the number
-- of threads falls with each task that is taken.
use quick_comm.Base.{
  some, ℕ, suc, ◌+◌, ◌≤◌, ◌≡◌, refl, sym, ap, ◌∙◌, true, false, inl, inr, List, [], ◌∷◌, ◌++◌, ltb,
  ◌==◌, if◌then◌else◌, length, length-append, All, if_cases, Bool-cases, arith,
}
use mathlib.Core.Path.{subst}
use quick_comm.Base.Int.{ℤ, pos, pos_part, neg_part, ◌+ℤ◌, ◌-ℤ◌, +ℤ_parts, -ℤ_parts, eq_of_parts}
use quick_comm.Net.Pool.{contains}
use quick_comm.Misc.TaskPool.{
  TaskPool, PoolMode, new_pool, set_mode, start, Place, at_lock, waiting, ended, working, Move,
  submit, turn, stop, notify, submit_task, erase, locked, step, run, queue_task, add_thread,
  notify_all, notified, put, leave_idle, as_size, take_task,
}
use quick_comm.Misc.TaskPool.Runs.{
  Yields, Yields-both, Yields-map, run-from, func-Yields, accept-cases, is_live,
}
use quick_comm.Misc.TaskPool.Started.{IsStarted, IsKeyed, start-IsStarted, put-IsKeyed}
use quick_comm.Misc.TaskPool.Drain.{IsBefore, Runs, step-Runs}

-- A number that goes from `a` to `b` gets the difference of `up` and `down`.
abbrev Moves : ℤ → ℤ → ℕ → ℕ → Type 0
Moves a b up down = pos_part b + neg_part a + down ≡ pos_part a + neg_part b + up

-- The tasks are counted when they are accepted, and the threads when they come or go, but also
-- down when they take a task.
pub record Counted (s : TaskPool) (accepted taken : List ℕ) (s' : TaskPool) : Type 0 where
  pub tasks : Moves s.current_task_size s'.current_task_size (length accepted) 0
  pub threads :
      Moves s.current_thread_size s'.current_thread_size
        (length s'.thread_list)
        (length taken + length s.thread_list)

moved : (a b : ℤ) (x : ℕ) → b ≡ a +ℤ pos 1 → Moves a b (suc x) x
moved a b x e = omega (arith, ap pos_part e, ap neg_part e, +ℤ_parts a (pos 1))

moved_down : (a b : ℤ) (x : ℕ) → b ≡ a -ℤ pos 1 → Moves a b x (suc x)
moved_down a b x e = omega (arith, ap pos_part e, ap neg_part e, -ℤ_parts a (pos 1))

length-erase :
    (id : ℕ) (ids : List ℕ) → contains id ids ≡ true → suc (length (erase id ids)) ≡ length ids
unfolding contains
length-erase id [] h = cc
length-erase id (b ∷ ids) h = elim (Bool-cases (b == id)) [
  | inl own ↦ simp own refl
  | inr other ↦
      let later : contains id ids ≡ true =
        ap (λ x. if x then true else contains id ids) (sym other) ∙ h in
      simp other (ap suc (length-erase id ids later))
]

contains-erase :
    (id b : ℕ) (ids : List ℕ) → (b == id) ≡ false → contains b (erase id ids) ≡ contains b ids
unfolding contains
contains-erase id b [] n = refl
contains-erase id b (c ∷ ids) n = elim (Bool-cases (c == id)) [
  | inl own ↦ let other : (c == b) ≡ false = ground (arith, own, n) in simp own (simp other refl)
  | inr kept ↦ simp kept (ap (λ x. if c == b then true else x) (contains-erase id b ids n))
]

live-notified : (p : Place) → is_live (notified p) ≡ is_live p
live-notified at_lock = refl
live-notified waiting = refl
live-notified ended = refl
live-notified (working task) = refl

notify-IsKeyed : (s : TaskPool) → IsKeyed s → IsKeyed (notify_all s)
notify-IsKeyed s k b live = k b (sym (live-notified (s.places b)) ∙ live)

-- A new key in front
new-IsKeyed :
    (id : ℕ) (s : TaskPool)
    → IsKeyed s
    → (b : ℕ) → is_live (s.places b) ≡ true
    → contains b (id ∷ s.thread_list) ≡ true
unfolding contains
new-IsKeyed id s k b live =
    if_cases (λ x. x ≡ true) (id == b) true (contains b s.thread_list) (λ _. refl) (λ _. k b live)

add-IsKeyed : (s : TaskPool) → IsKeyed s → IsKeyed (add_thread s)
unfolding contains
add-IsKeyed s k =
    put-IsKeyed s.genera_id at_lock (record s { thread_list = s.genera_id ∷ s.thread_list })
      (if_cases (λ x. x ≡ true) (s.genera_id == s.genera_id) true
        (contains s.genera_id s.thread_list) (λ _. refl) (λ n. absurd (ground (arith, n))))
      (new-IsKeyed s.genera_id s k)

leave-IsKeyed : (id : ℕ) (s : TaskPool) → IsKeyed s → IsKeyed (leave_idle id s)
leave-IsKeyed id s k b =
    if_cases (λ p. is_live p ≡ true → contains b (erase id s.thread_list) ≡ true) (b == id) _ _
      (λ _ live. absurd (cc live))
      (λ other live. contains-erase id b s.thread_list other ∙ k b live)

-- What a move does to a pool with its keys
abbrev Goes : TaskPool → List ℕ → List ℕ → TaskPool → Type 0
Goes s accepted taken s' = IsKeyed s' × Counted s accepted taken s'

same-Counted :
    (s s' : TaskPool)
    → s'.current_task_size ≡ s.current_task_size
    → s'.current_thread_size ≡ s.current_thread_size
    → length s'.thread_list ≡ length s.thread_list
    → Counted s [] [] s'
same-Counted s s' e f g = record {
  tasks = omega (arith, ap pos_part e, ap neg_part e);
  threads = omega (arith, ap pos_part f, ap neg_part f, g);
}

module _ (s : TaskPool) (k : IsKeyed s) where
  submit-Goes : (task : ℕ) → Yields (Goes s) (submit_task task s)
  unfolding submit_task
  submit-Goes task =
      let one : Moves s.current_task_size (queue_task task s).current_task_size 1 0 =
        moved s.current_task_size _ 0 refl in
      if_cases (Yields (Goes s)) (ltb (length s.task_queue) (as_size s.max_task_size)) _ _
        (λ _.
          accept-cases (Goes s (task ∷ []) []) task s
            (λ _. (
              add-IsKeyed (queue_task task s) (notify-IsKeyed s k),
              record {
                tasks = one;
                threads = omega (
                  arith,
                  moved s.current_thread_size (s.current_thread_size +ℤ pos 1)
                      (length s.thread_list) refl,
                );
              },
            ))
            (notify-IsKeyed s k, record { tasks = one; threads = omega arith }))
        (λ _. (k, same-Counted s s refl refl refl))

  -- A thread that takes a task
  took-Goes :
      (id task : ℕ) (rest : List ℕ)
      → contains id s.thread_list ≡ true
      → Goes s [] (task ∷ []) (take_task id task rest s)
  took-Goes id task rest there =
      let less : Moves s.current_thread_size (s.current_thread_size -ℤ pos 1) (length s.thread_list)
          (suc (length s.thread_list)) =
        moved_down s.current_thread_size _ (length s.thread_list) refl in
      if_cases (λ (t : TaskPool). Goes s [] (task ∷ []) (put id (working task) t))
        (ltb 0 (length rest)) _ _
        (λ _. (
          put-IsKeyed id (working task) (notify_all s) there (notify-IsKeyed s k),
          record { tasks = omega arith; threads = omega (arith, less) },
        ))
        (λ _. (
          put-IsKeyed id (working task) s there k,
          record { tasks = omega arith; threads = omega (arith, less) },
        ))

  locked-Goes :
      (id : ℕ) (queue : List ℕ)
      → s.is_pool_running ≡ true
      → contains id s.thread_list ≡ true
      → Yields (Goes s) (locked id queue s)
  unfolding locked
  locked-Goes id [] runs there =
      if_cases (Goes s [] []) s.is_pool_running _ _
        (λ _. (put-IsKeyed id waiting s there k, same-Counted s (put id waiting s) refl refl refl))
        (λ stopped. absurd (cc (runs, stopped)))
  locked-Goes id (task ∷ rest) runs there = took-Goes id task rest there

  left-Goes : (id : ℕ) → contains id s.thread_list ≡ true → Goes s [] [] (leave_idle id s)
  left-Goes id there = (
    leave-IsKeyed id s k,
    record {
      tasks = omega arith;
      threads = omega (
        arith,
        length-erase id s.thread_list there,
        moved_down s.current_thread_size (s.current_thread_size -ℤ pos 1)
            (length (erase id s.thread_list)) refl,
      );
    },
  )

  step-Goes : (m : Move) → IsBefore m → s.is_pool_running ≡ true → Yields (Goes s) (step m s)
  unfolding step
  step-Goes (submit task) b runs = submit-Goes task
  step-Goes (turn dur id) b runs =
      func-Yields (Goes s) id s (λ live. locked-Goes id s.task_queue runs (k id live))
        (λ d c live idle. left-Goes id (k id live))
        (λ live. (put-IsKeyed id at_lock s (k id live) k, same-Counted s _ refl refl refl)) dur
  step-Goes stop b runs = absurd b
  step-Goes notify b runs = (notify-IsKeyed s k, same-Counted s (notify_all s) refl refl refl)

Counted-trans :
    (s s' s'' : TaskPool) (accepted taken later more : List ℕ)
    → Counted s accepted taken s'
    → Counted s' later more s''
    → Counted s (accepted ++ later) (taken ++ more) s''
Counted-trans s s' s'' accepted taken later more e f = record {
  tasks = omega (arith, e.tasks, f.tasks, length-append accepted later);
  threads = omega (arith, e.threads, f.threads, length-append taken more);
}

abbrev Good : TaskPool → Type 0
Good s = IsKeyed s × (s.is_pool_running ≡ true)

step-Good :
    (m : Move) (s : TaskPool)
    → IsBefore m
    → Good s
    → Yields (λ accepted taken s'. Good s' × Counted s accepted taken s') (step m s)
step-Good m s b (k, runs) =
    Yields-map _ _ (step m s) (λ accepted taken s' ((keyed, counted), on). ((keyed, on), counted))
      (Yields-both (Goes s) Runs (step m s) (step-Goes s k m b runs) (step-Runs m s b runs))

-- A pool that is started with up to 1024 threads as the first of its process, in either mode,
-- behind any moves but the destructor's: currentTaskSize_ is the number of the tasks ever
-- accepted, the taken ones included, and currentThreadSize_ is smaller than the number of threads
-- by one for each task ever taken; each thread that has not ended has its key in thread_list_.
pub run-Counted :
    (mode : PoolMode) (threadsize : ℕ) (ms : List Move) (s s' : TaskPool) (accepted taken : List ℕ)
    → threadsize ≤ 1024
    → start (pos threadsize) (set_mode mode (new_pool 0)) ≡ some s
    → All IsBefore ms
    → run ms s ≡ some (accepted, taken, s')
    → (s'.current_task_size ≡ pos (length accepted))
      × (s'.current_thread_size +ℤ pos (length taken) ≡ pos (length s'.thread_list))
      × IsKeyed s'
run-Counted mode threadsize ms s s' accepted taken h e b r =
    let (t, e', started) = start-IsStarted mode threadsize in
    let same : t ≡ s = cc (e', e) in
    let st = subst (IsStarted mode threadsize _) same started in
    let ((k, runs), c) =
      run-from IsBefore Good Counted step-Good (λ s _. same-Counted s s refl refl refl)
        Counted-trans ms s s' accepted taken b (st.keyed, st.runs) r in
    (
      eq_of_parts _ _
          (omega (arith, c.tasks, ap pos_part st.tasks_counted, ap neg_part st.tasks_counted)),
      eq_of_parts _ _ (
          ground (
            arith,
            h,
            st.size,
            c.threads,
            ap pos_part st.counted,
            ap neg_part st.counted,
            +ℤ_parts s'.current_thread_size (pos (length taken)),
          )),
      k,
    )
