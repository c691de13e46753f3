-- ===== src/Net/Pool/Owners.antt =====
-- Who owns a connection: it is free, waits to be recycled, or is in use, and never two of these.
use quick_comm.Base.{
  ℕ, suc, ◌+◌, ◌≤◌, ◌<◌, ◌≡◌, ◌≢◌, refl, sym, ap, ◌∙◌, true, false, ◌⊎◌, inl, inr, List, [], ◌∷◌,
  ◌++◌, ltb, ◌==◌, ==_iff, ltb→lt, if◌then◌else◌, length, length-append, Bool-cases, arith,
}
use mathlib.Core.Path.{subst}
use quick_comm.Base.Int.{pos, ◌+ℤ◌, ◌-ℤ◌}
use quick_comm.Net.Pool.{
  Pool, get_from, get_connection, free_connection, contains, in_recy_connect_queue,
  close_connection,
}

-- How often an address stands in a list.
abbrev pub count : ℕ → List ℕ → ℕ
count a [] = 0
count a (b ∷ bs) = (if b == a then 1 else 0) + count a bs

pub count-append :
    (b : ℕ) (front back : List ℕ) → count b (front ++ back) ≡ count b front + count b back
count-append b [] back = omega arith
count-append b (c ∷ front) back = omega (count-append b front back, arith)

-- The places of an address in the free list and the recycling queue.
abbrev pub places : ℕ → List ℕ → List ℕ → ℕ
places a free recy = count a free + count a recy

pub record Inv (p : Pool) : Type 0 where
  pub frees : p.free_n ≡ pos (length p.free_list)
  pub recys : p.recy_n ≡ pos (length p.recy_list)
  pub totals : p.total_n ≡ pos (length p.conn_list)
  pub exclusive : (a : ℕ) → places a p.free_list p.recy_list ≤ 1
  pub known : (a : ℕ) → p.next_addr ≤ a → places a p.free_list p.recy_list ≡ 0

-- A connection that some socket holds.
abbrev pub InUse : ℕ → Pool → Type 0
InUse a p = (a < p.next_addr) × (places a p.free_list p.recy_list ≡ 0)

pub pos_up : (n m : ℕ) → m ≡ n + 1 → pos n +ℤ pos 1 ≡ pos m
unfolding ◌+ℤ◌
pos_up n m e = ground arith

pub pos_down : (n : ℕ) → pos (suc n) -ℤ pos 1 ≡ pos n
unfolding ◌-ℤ◌
pos_down n = ground arith

pub length_more : (xs : List ℕ) (a : ℕ) → length (xs ++ (a ∷ [])) ≡ length xs + 1
length_more xs a = omega (arith, length-append xs (a ∷ []))

hit : (a b : ℕ) → ((a ≡ b) × (count b (a ∷ []) ≡ 1)) ⊎ ((a ≢ b) × (count b (a ∷ []) ≡ 0))
hit a b = elim (Bool-cases (a == b)) [
  | inl same ↦ inl ((==_iff a b).0 same, ground (arith, same))
  | inr other ↦ inr (ground (arith, other), ground (arith, other))
]

-- An address without a place is given one.
module _ (free recy : List ℕ) (next a : ℕ) (k : a < next) (u : places a free recy ≡ 0) where
  given : (b m : ℕ) → m ≡ count b (a ∷ []) + places b free recy → places b free recy ≤ 1 → m ≤ 1
  given b m e h = elim (hit a b) [
    | inl (same, n) ↦
        let none_yet : places b free recy ≡ 0 = subst (λ x. places x free recy ≡ 0) same u in
        omega arith
    | inr (other, n) ↦ omega arith
  ]

  given_known :
      (b m : ℕ)
      → m ≡ count b (a ∷ []) + places b free recy
      → next ≤ b
      → places b free recy ≡ 0
      → m ≡ 0
  given_known b m e h z = elim (hit a b) [
    | inl (same, n) ↦ absurd (omega arith)
    | inr (other, n) ↦ omega arith
  ]

-- qc_free_connection on a connection in use keeps the counts and the owners right.
pub free-Inv : (a : ℕ) (p : Pool) → Inv p → InUse a p → Inv (free_connection a p)
unfolding free_connection
free-Inv a p v (k, u) = record {
  frees = ap (λ n. n +ℤ pos 1) v.frees ∙ pos_up _ _ (length_more p.free_list a);
  recys = v.recys;
  totals = v.totals;
  exclusive = λ b.
      given p.free_list p.recy_list p.next_addr a k u b _
        (omega (arith, count-append b p.free_list (a ∷ []))) (v.exclusive b);
  known = λ b h.
      given_known p.free_list p.recy_list p.next_addr a k u b _
        (omega (arith, count-append b p.free_list (a ∷ []))) h (v.known b h);
}

contains_not : (a : ℕ) (xs : List ℕ) → contains a xs ≡ false → count a xs ≡ 0
unfolding contains
contains_not a [] h = refl
contains_not a (x ∷ xs) h = ground (arith, contains_not a xs)

contains_yes : (a : ℕ) (xs : List ℕ) → contains a xs ≡ true → 1 ≤ count a xs
unfolding contains
contains_yes a [] h = cc
contains_yes a (x ∷ xs) h = ground (arith, contains_yes a xs)

-- inRecyConnectQueue keeps the counts and the owners right, on a connection that is in use or is in
-- the queue already.
pub recy-Inv :
    (now a : ℕ) (p : Pool)
    → Inv p
    → a < p.next_addr
    → count a p.free_list ≡ 0
    → Inv (in_recy_connect_queue now a p)
unfolding in_recy_connect_queue
recy-Inv now a p v k z = elim (Bool-cases (contains a p.recy_list)) [
  | inl there ↦ simp there v
  | inr new ↦
      let u : places a p.free_list p.recy_list ≡ 0 =
        omega (arith, contains_not a p.recy_list new) in
      simp new (record {
        frees = v.frees;
        recys = ap (λ n. n +ℤ pos 1) v.recys ∙ pos_up _ _ (length_more p.recy_list a);
        totals = v.totals;
        exclusive = λ b.
            given p.free_list p.recy_list p.next_addr a k u b _
              (omega (arith, count-append b p.recy_list (a ∷ []))) (v.exclusive b);
        known = λ b h.
            given_known p.free_list p.recy_list p.next_addr a k u b _
              (omega (arith, count-append b p.recy_list (a ∷ []))) h (v.known b h);
      })
]

-- What holds of a pool when it has lent the connection at address a.
pub record Lent (p : Pool) (a : ℕ) (q : Pool) : Type 0 where
  pub valid : Inv q
  pub in_use : InUse a q
  pub not_shared : (b : ℕ) → InUse b p → InUse b q × (b ≢ a)

get_from-Lent :
    (free : List ℕ) (now isock : ℕ) (p : Pool)
    → p.free_list ≡ free
    → Inv p
    → let (a, q) = get_from free now isock p in Lent p a q
unfolding get_from
get_from-Lent [] now isock p e v = record {
  valid = record {
    frees = v.frees;
    recys = v.recys;
    totals = ap (λ n. n +ℤ pos 1) v.totals ∙ pos_up _ _ (length_more p.conn_list p.next_addr);
    exclusive = v.exclusive;
    known = λ b h. v.known b (omega arith);
  };
  in_use = (omega arith, v.known p.next_addr (omega arith));
  not_shared = λ b u. ((omega arith, u.1), λ same. omega (arith, u.0));
}
get_from-Lent (a ∷ rest) now isock p e v = record {
  valid = record {
    frees = ap (λ n. n -ℤ pos 1) (v.frees ∙ ap (λ l. pos (length l)) e) ∙ pos_down (length rest);
    recys = v.recys;
    totals = v.totals;
    exclusive = λ b. omega (arith, v.exclusive b, at b);
    known = λ b h. omega (arith, v.known b h, at b);
  };
  in_use = (below, omega (arith, v.exclusive a, at a, own));
  not_shared = λ b u. ((u.0, omega (arith, u.1, at b)), λ same. different b u.1 same);
}
  where
    own : count a (a ∷ []) ≡ 1
    own = ground arith

    at : (b : ℕ) → places b p.free_list p.recy_list ≡ count b (a ∷ []) + places b rest p.recy_list
    at b = ap (λ l. places b l p.recy_list) e ∙ omega arith

    below : a < p.next_addr
    below = elim (Bool-cases (ltb a p.next_addr)) [
      | inl l ↦ ltb→lt a p.next_addr l
      | inr l ↦ absurd (omega (arith, v.known a (ground (arith, l)), at a, own))
    ]

    different : (b : ℕ) → places b p.free_list p.recy_list ≡ 0 → b ≢ a
    different b z same =
        let z' : count a (a ∷ []) ≡ 0 =
          subst (λ x. count x (a ∷ []) ≡ 0) same (omega (arith, z, at b)) in
        absurd (omega (arith, own, z'))

-- qc_get_connection lends a connection that no one else has: it is neither free nor waiting, and
-- whoever holds a connection holds another one. Counts and owners stay right if they were.
pub get-Lent :
    (now isock : ℕ) (p : Pool)
    → Inv p
    → Lent p (get_connection now isock p).0 (get_connection now isock p).1
unfolding get_connection
get-Lent now isock p v = get_from-Lent p.free_list now isock p refl v

pub close-Inv : (a : ℕ) (p : Pool) → Inv p → InUse a p → Inv (close_connection a p)
unfolding close_connection
close-Inv a p v u =
    let w = free-Inv a p v u in
    record {
      frees = w.frees;
      recys = w.recys;
      totals = w.totals;
      exclusive = w.exclusive;
      known = w.known;
    }

get_from-online :
    (free : List ℕ) (now isock : ℕ) (p : Pool) → (get_from free now isock p).1.online ≡ p.online
unfolding get_from
get_from-online [] now isock p = refl
get_from-online (a ∷ rest) now isock p = refl

pub get-online : (now isock : ℕ) (p : Pool) → (get_connection now isock p).1.online ≡ p.online
unfolding get_connection
get-online now isock p = get_from-online p.free_list now isock p

-- A connection in use stays so when another one is closed.
pub close-InUse : (a b : ℕ) (p : Pool) → InUse b p → b ≢ a → InUse b (close_connection a p)
unfolding close_connection free_connection
close-InUse a b p (k, z) n = elim (hit a b) [
  | inl (same, _) ↦ absurd (n (sym same))
  | inr (other, e) ↦ (k, omega (arith, count-append b p.free_list (a ∷ []), e))
]

-- A connection in use stays so when another one goes into the recycling queue.
pub recy-InUse :
    (now a b : ℕ) (p : Pool) → InUse b p → b ≢ a → InUse b (in_recy_connect_queue now a p)
unfolding in_recy_connect_queue
recy-InUse now a b p (k, z) n = elim (Bool-cases (contains a p.recy_list)) [
  | inl there ↦ simp there (k, z)
  | inr new ↦ elim (hit a b) [
    | inl (same, _) ↦ absurd (n (sym same))
    | inr (other, e) ↦ simp new (k, omega (arith, z, count-append b p.recy_list (a ∷ []), e))
  ]
]
