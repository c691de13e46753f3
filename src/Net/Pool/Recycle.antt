-- ===== src/Net/Pool/Recycle.antt =====
-- The recycling thread: a round releases exactly the connections whose wait is over, in order.
use quick_comm.Base.{
  ℕ, zero, suc, ◌+◌, ◌≤◌, ◌≡◌, refl, sym, ap, ◌∙◌, Bool, true, false, ◌&&◌, not, inl, inr, List, [],
  ◌∷◌, ◌++◌, none, some, ltb, ◌==◌, ==_iff, if◌then◌else◌, length, Bool-cases, arith,
}
use mathlib.Core.Path.{fun_ext}
use mathlib.Core.List.{append_assoc, append-nil}
use quick_comm.Base.Int.{pos, ◌+ℤ◌, ◌-ℤ◌, ltb_ℤ}
use quick_comm.Net.Pool.{
  Pool, put_one_to_free, free_connection, waits, first_ripe, release, recycle_loop, recycle_ripe,
  recycle_round,
}
use quick_comm.Net.Pool.Owners.{Inv, count, count-append, places, pos_up, pos_down, length_more}

-- Releasing a connection of the recycling queue: `others` are the queue without it.
release-Inv :
    (a : ℕ) (rest : List ℕ) (p : Pool)
    → Inv p
    → length p.recy_list ≡ suc (length rest)
    → ((b : ℕ) → count b p.recy_list ≡ count b (a ∷ []) + count b rest)
    → Inv (release a rest p)
unfolding free_connection
release-Inv a rest p v n c = record {
  frees = ap (λ m. m +ℤ pos 1) v.frees ∙ pos_up _ _ (length_more p.free_list a);
  recys = ap (λ m. m -ℤ pos 1) (v.recys ∙ ap pos n) ∙ pos_down (length rest);
  totals = v.totals;
  exclusive = λ b. omega (arith, v.exclusive b, moved b);
  known = λ b h. omega (arith, v.known b h, moved b);
}
  where
    moved : (b : ℕ) → places b (p.free_list ++ (a ∷ [])) rest ≡ places b p.free_list p.recy_list
    moved b = omega (arith, count-append b p.free_list (a ∷ []), c b)

-- The addresses for which a test fails, and those for which it holds.
abbrev pub ripe : (ℕ → Bool) → List ℕ → List ℕ
ripe waiting [] = []
ripe waiting (a ∷ xs) = if waiting a then ripe waiting xs else a ∷ ripe waiting xs

abbrev pub waiters : (ℕ → Bool) → List ℕ → List ℕ
waiters waiting [] = []
waiters waiting (a ∷ xs) = if waiting a then a ∷ waiters waiting xs else waiters waiting xs

-- What the scan finds in the queue xs.
data Scan (waiting : ℕ → Bool) (xs : List ℕ) : Type 0 where
  nothing :
      first_ripe waiting xs ≡ none
      → ripe waiting xs ≡ []
      → waiters waiting xs ≡ xs
      → Scan waiting xs
  found :
      (a : ℕ) (rest : List ℕ)
      → first_ripe waiting xs ≡ some (a, rest)
      → ripe waiting xs ≡ a ∷ ripe waiting rest
      → waiters waiting xs ≡ waiters waiting rest
      → length xs ≡ suc (length rest)
      → ((b : ℕ) → count b xs ≡ count b (a ∷ []) + count b rest)
      → Scan waiting xs

scan : (waiting : ℕ → Bool) (xs : List ℕ) → Scan waiting xs
unfolding first_ripe
scan waiting [] = nothing refl refl refl
scan waiting (x ∷ xs) = elim (Bool-cases (waiting x)) [
  | inl w ↦ elim (scan waiting xs) [
    | nothing e r k ↦ nothing (simp (w, e)) (simp (w, r)) (simp (w, k))
    | found a rest e r k n c ↦
        found a (x ∷ rest) (simp (w, e)) (simp (w, r)) (simp (w, k)) (ap suc n)
          (λ b. omega (arith, c b))
  ]
  | inr w ↦ found x xs (simp w) (simp w) (simp w) refl (λ b. omega arith)
]

-- A release changes no connection's time in the queue.
waits-release :
    (cur wait : ℕ) (stop : Bool) (a : ℕ) (rest : List ℕ) (p : Pool) (b : ℕ)
    → waits cur wait stop (release a rest p) b ≡ waits cur wait stop p b
unfolding free_connection put_one_to_free
waits-release cur wait stop a rest p b = ap (λ t. ltb cur (t + wait) && not stop) same
  where
    same : ((release a rest p).conns b).in_recy_time ≡ (p.conns b).in_recy_time
    same = elim (Bool-cases (b == a)) [
      | inl e ↦ simp e (ap (λ x. (p.conns x).in_recy_time) (sym ((==_iff b a).0 e)))
      | inr e ↦ simp e
    ]

-- The recycling queue and the free list after a release of all that is ripe.
pub record Recycled (waiting : ℕ → Bool) (p q : Pool) : Type 0 where
  pub valid : Inv q
  pub queue : q.recy_list ≡ waiters waiting p.recy_list
  pub freed : q.free_list ≡ p.free_list ++ ripe waiting p.recy_list

none_left : (xs : List ℕ) → length xs ≤ 0 → xs ≡ []
none_left [] h = refl
none_left (x ∷ xs) h = absurd (omega arith)

-- With an empty queue there is nothing to release.
idle-Recycled :
    (waiting : ℕ → Bool) (p : Pool) → Inv p → length p.recy_list ≤ 0 → Recycled waiting p p
idle-Recycled waiting p v h =
    let e = none_left p.recy_list h in
    record {
      valid = v;
      queue = e ∙ sym (ap (waiters waiting) e);
      freed = sym (ap (λ xs. p.free_list ++ ripe waiting xs) e ∙ append-nil p.free_list);
    }

recycle_loop-Recycled :
    (fuel cur wait : ℕ) (stop : Bool) (p : Pool)
    → Inv p
    → length p.recy_list ≤ fuel
    → Recycled (waits cur wait stop p) p (recycle_loop fuel cur wait stop p)
unfolding recycle_loop free_connection
recycle_loop-Recycled zero cur wait stop p v h = idle-Recycled (waits cur wait stop p) p v h
recycle_loop-Recycled (suc fuel) cur wait stop p v h =
    elim (scan (waits cur wait stop p) p.recy_list) [
      | nothing e r k ↦
          rw (e, recycle_loop)
            (record {
              valid = v;
              queue = sym k;
              freed = sym (ap (◌++◌ p.free_list) r ∙ append-nil p.free_list);
            })
      | found a rest e r k n c ↦
          let q = release a rest p in
          let w =
            recycle_loop-Recycled fuel cur wait stop q (release-Inv a rest p v n c) (omega arith) in
          let same : waits cur wait stop q ≡ waits cur wait stop p =
            fun_ext (waits-release cur wait stop a rest p) in
          rw (e, recycle_loop)
            (record {
              valid = w.valid;
              queue = w.queue ∙ ap (λ f. waiters f rest) same ∙ sym k;
              freed =
                  w.freed
                  ∙ append_assoc p.free_list (a ∷ []) (ripe (waits cur wait stop q) rest)
                  ∙ ap (λ f. p.free_list ++ (a ∷ ripe f rest)) same
                  ∙ ap (◌++◌ p.free_list) (sym r);
            })
    ]

stopping : (cur wait : ℕ) (p : Pool) (xs : List ℕ) → waiters (waits cur wait true p) xs ≡ []
stopping cur wait p [] = refl
stopping cur wait p (x ∷ xs) = ground (arith, stopping cur wait p xs)

counted : (q : Pool) (n : ℕ) → q.recy_n ≡ pos n → ltb_ℤ (pos 0) q.recy_n ≡ ltb 0 n
counted q n e = ap (ltb_ℤ (pos 0)) e ∙ ground arith

first_part :
    (cur wait : ℕ) (stop : Bool) (p : Pool)
    → Inv p
    → Recycled (waits cur wait stop p) p (recycle_ripe cur wait stop p)
unfolding recycle_ripe
first_part cur wait stop p v = elim (Bool-cases (ltb 0 (length p.recy_list))) [
  | inl busy ↦
      rw (counted p (length p.recy_list) v.recys ∙ busy, recycle_ripe)
        (recycle_loop-Recycled (length p.recy_list) cur wait stop p v (omega arith))
  | inr idle ↦
      rw (counted p (length p.recy_list) v.recys ∙ idle, recycle_ripe)
        (idle-Recycled (waits cur wait stop p) p v (ground (arith, idle)))
]

-- A round of the recycling thread releases exactly the connections whose wait is over, or all of
-- them when the server stops, in the order of the queue, to the end of the free list. The others
-- stay in their order, and counts and owners stay right if they were.
pub recycle_round-Recycled :
    (cur wait : ℕ) (stop : Bool) (p : Pool)
    → Inv p
    → Recycled (waits cur wait stop p) p (recycle_round cur wait stop p)
unfolding recycle_round
recycle_round-Recycled cur wait false p v = first_part cur wait false p v
recycle_round-Recycled cur wait true p v =
    let w = first_part cur wait true p v in
    let empty = w.queue ∙ stopping cur wait p p.recy_list in
    rw (counted (recycle_ripe cur wait true p) 0 (w.valid.recys ∙ ap (λ xs. pos (length xs)) empty))
      w
