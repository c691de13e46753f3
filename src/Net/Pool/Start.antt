-- ===== src/Net/Pool/Start.antt =====
-- The pool that initconnection leaves.
use quick_comm.Base.{
  ℕ, zero, suc, ◌+◌, ◌≤◌, ◌≡◌, refl, sym, ap, ◌∙◌, [], ◌∷◌, ◌++◌, length, length-append, ◌⊎◌, inl,
  inr, ◌==◌, ==_iff, Bool-cases, arith,
}
use quick_comm.Base.Int.{pos}
use quick_comm.Net.Pool.{Pool, Conn, empty_pool, init_loop, init_connection}
use quick_comm.Net.Pool.Owners.{Inv, count, count-append}

-- A pool in which every connection is free.
record AllFree (p : Pool) : Type 0 where
  no_recy : p.recy_list ≡ []
  no_recy_n : p.recy_n ≡ pos 0
  same : length p.conn_list ≡ length p.free_list
  once : (a : ℕ) → count a p.free_list ≤ 1
  known : (a : ℕ) → p.next_addr ≤ a → count a p.free_list ≡ 0

init_loop-AllFree :
    (n now : ℕ) (p : Pool)
    → AllFree p
    → AllFree (init_loop n now p) × (length (init_loop n now p).free_list ≡ length p.free_list + n)
unfolding init_loop
init_loop-AllFree zero now p v = (v, omega arith)
init_loop-AllFree (suc n) now p v =
    let (w, e) = init_loop-AllFree n now _ (more _) in
    (w, omega (arith, e, length-append p.free_list (p.next_addr ∷ [])))
  where
    one : (a : ℕ) → count a (p.next_addr ∷ []) ≤ 1
    one a = ground arith

    at : (a : ℕ) → (count a (p.next_addr ∷ []) ≡ 0) ⊎ (p.next_addr ≡ a)
    at a = elim (Bool-cases (p.next_addr == a)) [
      | inl same ↦ inr ((==_iff p.next_addr a).0 same)
      | inr other ↦ inl (ground (arith, other))
    ]

    more :
        (g : ℕ → Conn)
        → AllFree (record p {
          conns = g;
          conn_list = p.conn_list ++ (p.next_addr ∷ []);
          free_list = p.free_list ++ (p.next_addr ∷ []);
          next_addr = p.next_addr + 1;
        })
    more g = record {
      no_recy = v.no_recy;
      no_recy_n = v.no_recy_n;
      same = omega (
        arith,
        v.same,
        length-append p.conn_list (p.next_addr ∷ []),
        length-append p.free_list (p.next_addr ∷ []),
      );
      once = λ a. elim (at a) [
        | inl z ↦ omega (arith, v.once a, z, count-append a p.free_list (p.next_addr ∷ []))
        | inr e ↦ omega (
          arith,
          v.known a (omega (arith, e)),
          one a,
          count-append a p.free_list (p.next_addr ∷ []),
        )
      ];
      known = λ a h. elim (at a) [
        | inl z ↦
            omega (arith, v.known a (omega arith), z, count-append a p.free_list (p.next_addr ∷ []))
        | inr e ↦ absurd (omega arith)
      ];
    }

-- initconnection gives a pool of as many free connections as the configuration says, with right
-- counts and no connection with two owners.
pub init-Inv :
    (n now : ℕ)
    → Inv (init_connection n now empty_pool)
      × (length (init_connection n now empty_pool).free_list ≡ n)
unfolding init_connection empty_pool
init-Inv n now =
    let (v, e) = init_loop-AllFree n now empty_pool (record {
      no_recy = refl;
      no_recy_n = refl;
      same = refl;
      once = λ a. omega arith;
      known = λ a h. refl;
    }) in
    let q = init_loop n now empty_pool in
    (
      record {
        frees = ap pos v.same;
        recys = v.no_recy_n ∙ sym (ap (λ xs. pos (length xs)) v.no_recy);
        totals = refl;
        exclusive = λ a. omega (arith, v.once a, ap (count a) v.no_recy);
        known = λ a h. omega (arith, v.known a h, ap (count a) v.no_recy);
      },
      e ∙ omega arith,
    )
