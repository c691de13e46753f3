-- ===== src/Misc/Threads/Counts.antt =====
-- The two counts of the thread pool are right in every run.
use quick_comm.Base.{
  ℕ, zero, suc, ◌+◌, ◌≡◌, refl, sym, ap, ◌∙◌, Bool, true, false, List, [], ◌∷◌, ◌++◌, some, none,
  length, length-append, map, arith, ◌>>=◌, &&_left, &&_right, Bool-cases, inl, inr, ◌&&◌,
}
use mathlib.Core.List.{append_assoc}
use quick_comm.Base.Int.{lower_pos, ℤ, pos, ◌+ℤ◌}
use quick_comm.Misc.Threads.Runs.{Yields, run-from}
use quick_comm.Misc.Threads.{
  Stage, at_lock, waiting, at_end, absent, holding, working, handled, Thread, Threads, After, Move,
  arrive, stop, join, turn, locked, thread_step, turn_at, woken, wake, stop_all, join_all,
  all_returned, has_returned, step, run,
}

-- Behind ++m_iRunningThreadNum, and before --m_iRunningThreadNum
abbrev pub is_busy : Stage → ℕ
is_busy (working m) = 1
is_busy (handled m) = 1
is_busy _ = 0

abbrev pub busy : List Thread → ℕ
busy [] = 0
busy (t ∷ ts) = is_busy t.place + busy ts

busy-append : (front ts : List Thread) → busy (front ++ ts) ≡ busy front + busy ts
busy-append [] ts = omega arith
busy-append (t ∷ front) ts = omega (arith, busy-append front ts)

pub record Inv (s : Threads) : Type 0 where
  pub queued : s.queue_n ≡ pos (length s.queue)
  pub running : s.running_n ≡ pos (busy s.threads)

plus_one : (n m : ℕ) (z : ℤ) → z ≡ pos n → m ≡ n + 1 → z +ℤ pos 1 ≡ pos m
unfolding ◌+ℤ◌
plus_one n m z e h = rw e (ground (arith, h))

locked-queued :
    (ready stops : Bool) (queue : List ℕ) (n : ℤ)
    → n ≡ pos (length queue)
    → let l = locked ready stops queue n in
      (l.queue_n ≡ pos (length l.queue)) × (is_busy l.thread.place ≡ 0)
unfolding locked
locked-queued ready true queue n e = (e, refl)
locked-queued ready false [] n e = (e, refl)
locked-queued ready false (m ∷ queue) n e =
    (lower_pos (length (m ∷ queue)) (length queue) n e (omega arith), refl)

module _ (front ts : List Thread) (s : Threads) (v : Inv s) where
  -- The busy threads before and after one of them moves
  before :
      (ready : Bool) (p : Stage)
      → s.threads ≡ front ++ (record { ifrunning = ready; place = p } ∷ ts)
      → busy s.threads ≡ busy front + (is_busy p + busy ts)
  before ready p e = ap busy e ∙ busy-append front (record { ifrunning = ready; place = p } ∷ ts)

  behind : (t : Thread) → busy (front ++ (t ∷ ts)) ≡ busy front + (is_busy t.place + busy ts)
  behind t = busy-append front (t ∷ ts)

  same_busy :
      (ready : Bool) (p : Stage) (t : Thread)
      → s.threads ≡ front ++ (record { ifrunning = ready; place = p } ∷ ts)
      → is_busy t.place ≡ is_busy p
      → s.running_n ≡ pos (busy (front ++ (t ∷ ts)))
  same_busy ready p t e h =
      let sum : busy s.threads ≡ busy (front ++ (t ∷ ts)) =
        omega (arith, before ready p e, behind t, h) in
      v.running ∙ ap pos sum

  thread_step-Inv :
      (ready : Bool) (p : Stage)
      → s.threads ≡ front ++ (record { ifrunning = ready; place = p } ∷ ts)
      → Yields (λ taken s'. Inv s') (thread_step ready p (λ t. front ++ (t ∷ ts)) s)
  unfolding thread_step
  thread_step-Inv ready at_lock e =
      let (q, idle) = locked-queued ready s.shutdown s.queue s.queue_n v.queued in
      let l = locked ready s.shutdown s.queue s.queue_n in
      record { queued = q; running = same_busy ready at_lock l.thread e idle }
  thread_step-Inv ready waiting e = record {
    queued = v.queued;
    running = same_busy ready waiting (record { ifrunning = ready; place = at_lock }) e refl;
  }
  thread_step-Inv ready (holding m) e =
      let t : Thread = record { ifrunning = ready; place = working m } in
      record {
        queued = v.queued;
        running =
            plus_one (busy s.threads) (busy (front ++ (t ∷ ts))) s.running_n v.running
              (omega (arith, before ready (holding m) e, behind t));
      }
  thread_step-Inv ready (working m) e = record {
    queued = v.queued;
    running = same_busy ready (working m) (record { ifrunning = ready; place = handled m }) e refl;
  }
  thread_step-Inv ready (handled m) e =
      let t : Thread = record { ifrunning = ready; place = at_lock } in
      record {
        queued = v.queued;
        running =
            lower_pos (busy s.threads) (busy (front ++ (t ∷ ts))) s.running_n v.running
              (omega (arith, before ready (handled m) e, behind t));
      }
  thread_step-Inv ready at_end e = tt
  thread_step-Inv ready absent e = tt

turn_at-Inv :
    (i : ℕ) (front ts : List Thread) (s : Threads)
    → Inv s
    → s.threads ≡ front ++ ts
    → Yields (λ taken s'. Inv s') (turn_at i front ts s)
unfolding turn_at
turn_at-Inv i front [] s v e = tt
turn_at-Inv zero front (t ∷ ts) s v e = thread_step-Inv front ts s v t.ifrunning t.place e
turn_at-Inv (suc i) front (t ∷ ts) s v e =
    turn_at-Inv i (front ++ (t ∷ [])) ts s v (e ∙ sym (append_assoc front (t ∷ []) ts))

woken-busy : (p : Stage) → is_busy (woken p) ≡ is_busy p
woken-busy at_lock = refl
woken-busy waiting = refl
woken-busy at_end = refl
woken-busy absent = refl
woken-busy (holding m) = refl
woken-busy (working m) = refl
woken-busy (handled m) = refl

map-wake-busy : (ts : List Thread) → busy (map wake ts) ≡ busy ts
map-wake-busy [] = refl
map-wake-busy (t ∷ ts) = omega (arith, woken-busy t.place, map-wake-busy ts)

stop_all-Inv : (s : Threads) → Inv s → Inv (stop_all s)
unfolding stop_all
stop_all-Inv s v = elim (Bool-cases s.shutdown) [
  | inl again ↦ simp again v
  | inr first ↦
      simp first
        (record { queued = v.queued; running = v.running ∙ ap pos (sym (map-wake-busy s.threads)) })
]

returned-busy : (p : Stage) → has_returned p ≡ true → is_busy p ≡ 0
unfolding has_returned
returned-busy at_lock h = refl
returned-busy waiting h = refl
returned-busy at_end h = refl
returned-busy absent h = refl
returned-busy (holding m) h = refl
returned-busy (working m) h = cc
returned-busy (handled m) h = cc

all_returned-busy : (ts : List Thread) → all_returned ts ≡ true → busy ts ≡ 0
unfolding all_returned
all_returned-busy [] h = refl
all_returned-busy (t ∷ ts) h = omega (
  arith,
  returned-busy t.place (&&_left (has_returned t.place) (all_returned ts) h),
  all_returned-busy ts (&&_right (has_returned t.place) (all_returned ts) h),
)

join_all-Inv :
    (s : Threads) → Inv s → Yields (λ taken s'. Inv s') (join_all s >>= λ s'. some ([], s'))
unfolding join_all
join_all-Inv s v = elim (Bool-cases (s.shutdown && all_returned s.threads)) [
  | inl all ↦
      let idle = all_returned-busy s.threads (&&_right s.shutdown (all_returned s.threads) all) in
      simp all (record { queued = v.queued; running = v.running ∙ ap pos idle })
  | inr some_left ↦ simp some_left tt
]

step-Inv : (m : Move) (s : Threads) → Inv s → Yields (λ taken s'. Inv s') (step m s)
unfolding step
step-Inv (arrive currtime buf) s v = record {
  queued =
      plus_one (length s.queue) (length (s.queue ++ (buf ∷ []))) s.queue_n v.queued
        (omega (arith, length-append s.queue (buf ∷ [])));
  running = v.running;
}
step-Inv stop s v = stop_all-Inv s v
step-Inv join s v = join_all-Inv s v
step-Inv (turn i) s v = turn_at-Inv i [] s.threads s v refl

with_unit : (o : After) → Yields (λ taken s'. Inv s') o → Yields (λ taken s'. Inv s' × Unit {0}) o
with_unit none h = tt
with_unit (some (taken, s')) h = (h, tt)

-- Whatever the threads and the callers do in turn: m_iRecvMsgQueueCount is the length of the
-- queue, and m_iRunningThreadNum is the number of the threads that handle a message.
pub run-Inv :
    (ms : List Move) (s s' : Threads) (taken : List ℕ)
    → run ms s ≡ some (taken, s')
    → Inv s
    → Inv s'
run-Inv ms s s' taken e v =
    (run-from Inv (λ m s taken s'. Unit) (λ ms s taken s'. Unit)
      (λ m s v. with_unit (step m s) (step-Inv m s v)) (λ s. tt)
      (λ m ms s s' s'' taken more h g. tt) ms s s' taken e v).0
