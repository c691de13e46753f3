-- ===== src/Misc/TaskPool/Started.antt =====
-- start() on a new pool: it makes its threads if no pool had any before, and else it follows a
-- null pointer.
use quick_comm.Base.{
  ℕ, zero, suc, ◌+◌, ◌≤◌, ◌<◌, ◌≡◌, refl, sym, ap, ◌∙◌, true, false, inl, inr, List, [], ◌∷◌, none,
  some, ◌==◌, length, if_cases, Bool-cases, ==_iff, arith,
}
use mathlib.Core.Path.{subst}
use quick_comm.Base.Int.{pos, ◌+ℤ◌}
use quick_comm.Net.Pool.{contains}
use quick_comm.Misc.TaskPool.Runs.{is_live}
use quick_comm.Misc.TaskPool.{
  TaskPool, PoolMode, Place, at_lock, new_pool, set_mode, put, new_thread, create_threads, min_of,
  start_loop, start,
}

-- The list with `n` new numbers from `id` on
fresh : ℕ → ℕ → List ℕ → List ℕ
fresh zero id ids = ids
fresh (suc n) id ids = fresh n (id + 1) (id ∷ ids)

create_threads-eq :
    (n : ℕ) (s : TaskPool)
    → create_threads n s
      ≡ record s { thread_list = fresh n s.genera_id s.thread_list; genera_id = s.genera_id + n }
unfolding create_threads fresh
create_threads-eq zero s =
    let sum : s.genera_id ≡ s.genera_id + 0 = omega arith in
    let behind : ℕ → TaskPool = λ g. record s { genera_id = g } in ap behind sum
create_threads-eq (suc n) s =
    let sum : s.genera_id + 1 + n ≡ s.genera_id + suc n = omega arith in
    let behind : ℕ → TaskPool = λ g. record s {
      thread_list = fresh n (s.genera_id + 1) (s.genera_id ∷ s.thread_list);
      genera_id = g;
    } in
    create_threads-eq n (new_thread s) ∙ ap behind sum

length-fresh : (n id : ℕ) (ids : List ℕ) → length (fresh n id ids) ≡ n + length ids
unfolding fresh
length-fresh zero id ids = omega arith
length-fresh (suc n) id ids = omega (arith, length-fresh n (id + 1) (id ∷ ids))

-- Numbers below the new ones
contains-below : (n id i : ℕ) (ids : List ℕ) → i < id → contains i (fresh n id ids) ≡ contains i ids
unfolding fresh contains
contains-below zero id i ids h = refl
contains-below (suc n) id i ids h =
    let other : (id == i) ≡ false = ground arith in
    contains-below n (id + 1) i (id ∷ ids) (omega (arith, h)) ∙ simp other refl

contains-own : (i : ℕ) (ids : List ℕ) → contains i (i ∷ ids) ≡ true
unfolding contains
contains-own i ids = let own : (i == i) ≡ true = ground arith in simp own refl

contains-fresh :
    (n id i : ℕ) (ids : List ℕ) → id ≤ i → i < id + n → contains i (fresh n id ids) ≡ true
unfolding fresh
contains-fresh zero id i ids h l = absurd (omega (arith, h, l))
contains-fresh (suc n) id i ids h l = elim (Bool-cases (id == i)) [
  | inl own ↦
      let e = (==_iff id i).0 own in
      contains-below n (id + 1) i (id ∷ ids) (omega (arith, e))
      ∙ subst (λ b. contains b (id ∷ ids) ≡ true) e (contains-own id ids)
  | inr other ↦ contains-fresh n (id + 1) i (id ∷ ids) (ground (arith, other, h)) (omega (arith, l))
]

-- The second loop over numbers that are keys
module _ (I : TaskPool → Type 0)
    (keep : (i : ℕ) (s : TaskPool)
      → contains i s.thread_list ≡ true
      → I s
      → I (put i at_lock (record s { spare_thread_size = s.spare_thread_size +ℤ pos 1 }))) where
  start_loop-keeps :
      (n i : ℕ) (s : TaskPool)
      → ((b : ℕ) → i ≤ b → b < i + n → contains b s.thread_list ≡ true)
      → I s
      → (s' : TaskPool) × (start_loop n i s ≡ some s') × I s'
  unfolding start_loop
  start_loop-keeps zero i s h k = (s, refl, k)
  start_loop-keeps (suc n) i s h k =
      let there = h i (omega arith) (omega arith) in
      let (s', e, k') =
        start_loop-keeps n (suc i)
          (put i at_lock (record s { spare_thread_size = s.spare_thread_size +ℤ pos 1 }))
          (λ b l u. h b (omega (arith, l)) (omega (arith, u))) (keep i s there k) in
      (s', simp there e, k')

start_loop-stops :
    (n i : ℕ) (s : TaskPool) → 0 < n → contains i s.thread_list ≡ false → start_loop n i s ≡ none
unfolding start_loop
start_loop-stops zero i s h e = absurd (omega (arith, h))
start_loop-stops (suc n) i s h e = simp e refl

-- Every thread that has not ended has its key in thread_list_.
abbrev pub IsKeyed : TaskPool → Type 0
IsKeyed s = (b : ℕ) → is_live (s.places b) ≡ true → contains b s.thread_list ≡ true

-- A pool behind start(), for the number of its threads
pub record IsStarted (mode : PoolMode) (threadsize n : ℕ) (s : TaskPool) : Type 0 where
  pub has_mode : s.pool_mode ≡ mode
  pub size : length s.thread_list ≡ n
  pub runs : s.is_pool_running ≡ true
  pub no_tasks : s.task_queue ≡ []
  pub counted : s.current_thread_size ≡ pos threadsize
  pub tasks_counted : s.current_task_size ≡ pos 0
  pub keyed : IsKeyed s

pub put-IsKeyed :
    (id : ℕ) (p : Place) (s : TaskPool)
    → contains id s.thread_list ≡ true
    → IsKeyed s
    → IsKeyed (put id p s)
put-IsKeyed id p s there k b =
    if_cases (λ x. is_live x ≡ true → contains b s.thread_list ≡ true) (b == id) _ _
      (λ own live. subst (λ x. contains x s.thread_list ≡ true) (sym ((==_iff b id).0 own)) there)
      (λ other live. k b live)

-- start() makes its threads in a pool like this.
abbrev made : ℕ → ℕ → TaskPool → TaskPool
made k threadsize s = create_threads k (record s {
  is_pool_running = true;
  init_thread_size = pos threadsize;
  current_thread_size = pos threadsize;
})

-- start(threadsize) on the first pool of a process makes as many threads as asked for, but 1024 at
-- most, each with its key in thread_list_; the pool runs and has no tasks, and
-- currentThreadSize_ is threadsize.
pub start-IsStarted :
    (mode : PoolMode) (threadsize : ℕ)
    → (s : TaskPool) × (start (pos threadsize) (set_mode mode (new_pool 0)) ≡ some s)
      × IsStarted mode threadsize (min_of threadsize 1024) s
unfolding start
start-IsStarted mode threadsize =
    let k = min_of threadsize 1024 in
    let s : TaskPool = set_mode mode (new_pool 0) in
    let e = create_threads-eq k (record s {
      is_pool_running = true;
      init_thread_size = pos threadsize;
      current_thread_size = pos threadsize;
    }) in
    let size : length (fresh k 0 []) ≡ k = omega (arith, length-fresh k 0 []) in
    let list : (made k threadsize s).thread_list ≡ fresh k 0 [] = ap (λ t. t.thread_list) e in
    start_loop-keeps (IsStarted mode threadsize k)
      (λ i s there st. record {
        has_mode = st.has_mode;
        size = st.size;
        runs = st.runs;
        no_tasks = st.no_tasks;
        counted = st.counted;
        tasks_counted = st.tasks_counted;
        keyed =
            put-IsKeyed i at_lock (record s { spare_thread_size = s.spare_thread_size +ℤ pos 1 })
              there st.keyed;
      })
      (length (made k threadsize s).thread_list) 0 (made k threadsize s)
      (λ b l u.
        ap (contains b) list ∙ contains-fresh k 0 b [] l (omega (arith, u, ap length list, size)))
      (subst (IsStarted mode threadsize k) (sym e) (record {
        has_mode = refl;
        size = size;
        runs = refl;
        no_tasks = refl;
        counted = refl;
        tasks_counted = refl;
        keyed = λ b live. absurd (cc live);
      }))

contains-nil : (i : ℕ) → contains i [] ≡ false
unfolding contains
contains-nil i = refl

-- A pool that starts with a thread after another pool had some follows a null pointer: start()
-- looks for its threads at the numbers from 0 on, and the numbers go on from the first pool's.
pub start-again :
    (threadsize genera_id : ℕ)
    → 0 < threadsize
    → 0 < genera_id
    → start (pos threadsize) (new_pool genera_id) ≡ none
unfolding start
start-again threadsize genera_id h g =
    let k = min_of threadsize 1024 in
    let s : TaskPool = new_pool genera_id in
    let e = create_threads-eq k (record s {
      is_pool_running = true;
      init_thread_size = pos threadsize;
      current_thread_size = pos threadsize;
    }) in
    let list : (made k threadsize s).thread_list ≡ fresh k genera_id [] =
      ap (λ t. t.thread_list) e in
    start_loop-stops (length (made k threadsize s).thread_list) 0 (made k threadsize s)
      (ground (arith, h, ap length list, length-fresh k genera_id []))
      (ap (contains 0) list ∙ contains-below k genera_id 0 [] g ∙ contains-nil 0)
