-- ===== src/Net/Timer/Order.antt =====
-- The timer queue is sorted by time, and its size and earliest time are those of its entries.
use quick_comm.Base.{
  ℕ, zero, suc, ◌+◌, ◌-◌, ◌≤◌, ◌<◌, ◌≡◌, refl, sym, ap, ◌∙◌, Bool, true, false, ◌⊎◌, inl, inr, List,
  [], ◌∷◌, none, some, ltb, leb, ◌==◌, if◌then◌else◌, length, Bool-cases, leb→le, arith,
}
use mathlib.Core.Path.{subst}
use quick_comm.Net.Timer.{
  Header, Timers, insert, earliest, refresh, add_to_timer_queue, remove_head, remove_first_timer,
  put_back, get_over_time_timer, erase_first, delete_loop, delete_from_timer_queue,
}

abbrev pub Above : ℕ → List (ℕ × Header) → Type 0
Above t [] = Unit {0}
Above t ((u, h) ∷ es) = (t ≤ u) × Above u es

abbrev pub IsSorted : List (ℕ × Header) → Type 0
IsSorted es = Above 0 es

-- The recorded time is that of the first entry, if there is one.
abbrev pub Earliest : List (ℕ × Header) → ℕ → Type 0
Earliest [] v = Unit {0}
Earliest ((t, h) ∷ es) v = v ≡ t

pub record Inv (q : Timers) : Type 0 where
  pub sorted : IsSorted q.entries
  pub sized : q.size ≡ length q.entries
  pub first : Earliest q.entries q.value

pub length-insert :
    (t : ℕ) (h : Header) (es : List (ℕ × Header)) → length (insert t h es) ≡ suc (length es)
unfolding insert
length-insert t h [] = refl
length-insert t h ((u, g) ∷ es) = ground (arith, length-insert t h es)

insert-Above :
    (b t : ℕ) (h : Header) (es : List (ℕ × Header)) → b ≤ t → Above b es → Above b (insert t h es)
unfolding insert
insert-Above b t h [] k s = (k, tt)
insert-Above b t h ((u, g) ∷ es) k s = ground (arith, insert-Above u t h es)

earliest-Earliest : (es : List (ℕ × Header)) (old : ℕ) → Earliest es (earliest es old)
unfolding earliest
earliest-Earliest [] old = tt
earliest-Earliest ((t, h) ∷ es) old = refl

pub entries-refresh : (q : Timers) → (refresh q).entries ≡ q.entries
unfolding refresh
entries-refresh q = ground arith

refresh-Inv : (q : Timers) → IsSorted q.entries → q.size ≡ length q.entries → Inv (refresh q)
unfolding refresh
refresh-Inv q s n = elim (Bool-cases (ltb 0 q.size)) [
  | inl some_left ↦
      simp some_left (record { sorted = s; sized = n; first = earliest-Earliest q.entries q.value })
  | inr empty ↦
      simp empty
        (record { sorted = s; sized = n; first = nothing q.entries (ground (arith, empty)) })
]
  where
    nothing : (es : List (ℕ × Header)) → length es ≡ 0 → Earliest es q.value
    nothing [] e = tt
    nothing ((t, h) ∷ es) e = absurd (omega arith)

pub add-Inv :
    (now wait conn seq : ℕ) (q : Timers) → Inv q → Inv (add_to_timer_queue now wait conn seq q)
unfolding add_to_timer_queue
add-Inv now wait conn seq q v =
    let h : Header = record { conn = conn; seq = seq } in
    record {
      sorted = insert-Above 0 (now + wait) h q.entries (omega arith) v.sorted;
      sized = omega (arith, length-insert (now + wait) h q.entries, v.sized);
      first = earliest-Earliest (insert (now + wait) h q.entries) q.value;
    }

Above-mono : (a b : ℕ) (es : List (ℕ × Header)) → a ≤ b → Above b es → Above a es
Above-mono a b [] k s = tt
Above-mono a b ((u, h) ∷ es) k s = (omega arith, s.1)

put_back-Inv :
    (cur wait : ℕ) (kick : Bool) (h : Header) (q : Timers)
    → IsSorted q.entries
    → q.size ≡ length q.entries
    → Inv (refresh (put_back cur wait kick (some h) q))
unfolding put_back
put_back-Inv cur wait true h q s n = refresh-Inv q s n
put_back-Inv cur wait false h q s n =
    refresh-Inv _ (insert-Above 0 (cur + wait) h q.entries (omega arith) s)
      (omega (arith, length-insert (cur + wait) h q.entries))

abbrev pub IsLater : ℕ → List (ℕ × Header) → Type 0
IsLater cur [] = Unit {0}
IsLater cur ((t, h) ∷ es) = cur < t

-- Whether the first entry of a queue is due.
pub data Front (cur wait : ℕ) (kick : Bool) (q : Timers) : Type 0 where
  idle :
      get_over_time_timer cur wait kick q ≡ (none, q)
      → IsLater cur q.entries
      → Front cur wait kick q
  taken :
      (t : ℕ) (h : Header) (es : List (ℕ × Header))
      → q.entries ≡ (t, h) ∷ es
      → t ≤ cur
      → (rest : Timers) → rest.entries ≡ es
      → rest.size ≡ length es
      → get_over_time_timer cur wait kick q
        ≡ (some h, refresh (put_back cur wait kick (some h) rest))
      → Front cur wait kick q

Front_at :
    (cur wait : ℕ) (kick : Bool) (es : List (ℕ × Header)) (n v : ℕ)
    → n ≡ length es
    → Front cur wait kick (record { entries = es; size = n; value = v })
unfolding get_over_time_timer remove_first_timer remove_head
Front_at cur wait kick [] n v e = elim (Bool-cases (n == 0)) [
  | inl z ↦ idle (simp z) tt
  | inr z ↦ idle (simp z) tt
]
Front_at cur wait kick ((t, h) ∷ es) n v e =
    let z : (n == 0) ≡ false = ground (arith, e) in
    let y : leb n 0 ≡ false = ground (arith, e) in
    elim (Bool-cases (leb t cur)) [
      | inl now ↦
          taken t h es refl (leb→le t cur now) (record { entries = es; size = n - 1; value = v })
            refl (omega (arith, e)) (simp (z, y, now))
      | inr later ↦ idle (simp (z, later)) (ground (arith, later))
    ]

pub front : (cur wait : ℕ) (kick : Bool) (q : Timers) → Inv q → Front cur wait kick q
front cur wait kick q v = Front_at cur wait kick q.entries q.size q.value v.sized

-- GetOverTimeTimer keeps the queue in order, whether or not an entry is due.
pub get_over-Inv :
    (cur wait : ℕ) (kick : Bool) (q : Timers) → Inv q → Inv (get_over_time_timer cur wait kick q).1
get_over-Inv cur wait kick q v = elim (front cur wait kick q v) [
  | idle e l ↦ rw e v
  | taken t h es p d rest a b e ↦
      let tail : Above t es = (subst IsSorted p v.sorted).1 in
      let sorted : IsSorted rest.entries =
        subst IsSorted (sym a) (Above-mono 0 t es (omega arith) tail) in
      rw e (put_back-Inv cur wait kick h rest sorted (b ∙ ap length (sym a)))
]

-- The entries of the other connections, in their order.
abbrev pub others : ℕ → List (ℕ × Header) → List (ℕ × Header)
others conn [] = []
others conn ((t, h) ∷ es) = if h.conn == conn then others conn es else (t, h) ∷ others conn es

others-Above : (conn b : ℕ) (es : List (ℕ × Header)) → Above b es → Above b (others conn es)
others-Above conn b [] s = tt
others-Above conn b ((t, h) ∷ es) s =
    ground (arith, others-Above conn t es, Above-mono b t (others conn es))

length-others : (conn : ℕ) (es : List (ℕ × Header)) → length (others conn es) ≤ length es
length-others conn [] = omega arith
length-others conn ((t, h) ∷ es) = ground (arith, length-others conn es)

-- What an erased entry leaves.
erased :
    (conn : ℕ) (es : List (ℕ × Header))
    → ((erase_first conn es ≡ none) × (others conn es ≡ es))
      ⊎ ((rest : List (ℕ × Header)) × (erase_first conn es ≡ some rest)
          × (others conn rest ≡ others conn es)
          × (length es ≡ suc (length rest)))
unfolding erase_first
erased conn [] = inl (refl, refl)
erased conn ((t, h) ∷ es) = elim (Bool-cases (h.conn == conn)) [
  | inl same ↦ simp same (inr (es, refl, refl, refl))
  | inr other ↦ elim (erased conn es) [
    | inl (e, k) ↦ simp (other, e) (inl (refl, ap (◌∷◌ (t, h)) k))
    | inr (rest, e, k, n) ↦
        simp (other, e) (inr ((t, h) ∷ rest, refl, simp other (ap (◌∷◌ (t, h)) k), ap suc n))
  ]
]

delete_loop-others :
    (fuel conn : ℕ) (q : Timers)
    → q.size ≡ length q.entries
    → length q.entries ≤ fuel
    → ((delete_loop fuel conn q).entries ≡ others conn q.entries)
      × ((delete_loop fuel conn q).size ≡ length (others conn q.entries))
unfolding delete_loop
delete_loop-others zero conn q n k = nothing q.entries n (omega arith)
  where
    nothing :
        (es : List (ℕ × Header))
        → q.size ≡ length es
        → length es ≤ 0
        → (es ≡ others conn es) × (q.size ≡ length (others conn es))
    nothing [] e z = (refl, e)
    nothing (x ∷ es) e z = absurd (omega arith)
delete_loop-others (suc fuel) conn q n k = elim (erased conn q.entries) [
  | inl (e, o) ↦ rw (e, delete_loop) (sym o, n ∙ ap length (sym o))
  | inr (rest, e, o, l) ↦
      let r : Timers = record q { entries = rest; size = q.size - 1 } in
      let (a, b) = delete_loop-others fuel conn r (omega arith) (omega arith) in
      rw (e, delete_loop) (a ∙ o, b ∙ ap length o)
]

-- On a queue in order, DeleteFromTimerQueue removes every entry of the connection, keeps the others
-- in their order, and keeps the size and the earliest time right.
pub delete-others :
    (conn : ℕ) (q : Timers)
    → Inv q
    → Inv (delete_from_timer_queue conn q)
      × ((delete_from_timer_queue conn q).entries ≡ others conn q.entries)
unfolding delete_from_timer_queue
delete-others conn q v =
    let (a, b) = delete_loop-others q.size conn q v.sized (omega (arith, v.sized)) in
    let done = delete_loop q.size conn q in
    (
      refresh-Inv done (subst IsSorted (sym a) (others-Above conn 0 q.entries v.sorted))
          (b ∙ ap length (sym a)),
      entries-refresh done ∙ a,
    )
