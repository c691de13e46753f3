-- ===== src/Net/Recv/Header.antt =====
-- The message that a complete header allocates, and the framing of that header.
use quick_comm.Base.{
  ◌||◌, ℕ, ◌≤◌, ◌≡◌, ◌≢◌, sym, ap, ◌∙◌, true, false, List, [], ◌∷◌, ◌++◌, ltb, ◌==◌, length,
  length-take, take, arith,
}
use quick_comm.Net.Recv.{Msg, declared, write_at, header_len, max_len}
use quick_comm.Net.Recv.Frames.{settle, declared-append}
use quick_comm.Net.Recv.Buffers.{length-write_at, take-write_at, write_at_full, declared-take}

-- The message header and the packet's first bytes, in memory of the declared length.
abbrev pub message : ℕ → ℕ → (ℕ → List ℕ) → List ℕ → Msg
message conn seq fresh head = record {
  conn = conn;
  seq = seq;
  packet = write_at 0 (take header_len head) (fresh (declared head));
}

pub ==-false : (a b : ℕ) → (a == b) ≡ false → a ≢ b
==-false a b e = ground arith

pub ==-false_comm : (a b : ℕ) → (a == b) ≡ false → (b == a) ≡ false
==-false_comm a b e = ground arith

pub ltb-false : (a b : ℕ) → ltb a b ≡ false → b ≤ a
ltb-false a b e = ground arith

module _ (head : List ℕ) (h : length head ≡ 20) where
  pub length-header : length (take header_len head) ≡ 8
  length-header = omega (arith, length-take header_len head)

  pub declared-header : declared (take header_len head) ≡ declared head
  declared-header = declared-take header_len head (omega arith) (omega arith)

  module _ (conn seq : ℕ) (fresh : ℕ → List ℕ) (fits : (n : ℕ) → length (fresh n) ≡ n) where
    pub length-message :
        header_len ≤ declared head → length (message conn seq fresh head).packet ≡ declared head
    length-message lo =
        length-write_at 0 (take header_len head) (fresh (declared head))
          (omega (arith, length-header, fits (declared head)))
        ∙ fits (declared head)

    pub declared-message : declared (message conn seq fresh head).packet ≡ declared head
    declared-message =
        declared-append (take header_len head) _ (omega (arith, length-header)) ∙ declared-header

    pub take-message : take header_len (message conn seq fresh head).packet ≡ take header_len head
    take-message =
        take-write_at 0 header_len (take header_len head) (fresh (declared head)) (omega arith)
          (omega (arith, length-header))

    pub bare_message :
        declared head ≡ header_len → (message conn seq fresh head).packet ≡ take header_len head
    bare_message e =
        write_at_full 0 (take header_len head) (fresh (declared head))
          (omega (arith, length-header, fits (declared head)))

  module _ (done : List (List ℕ)) where
    -- A header that declares less than itself, or more than a packet may have, is dropped.
    pub settle_bad :
        (ltb (declared head) header_len || ltb max_len (declared head)) ≡ true
        → settle done (take header_len head) ≡ record { pending = []; packets = done }
    unfolding settle
    settle_bad e = simp (length-header, declared-header, e)

    settled_bare :
        declared head ≡ header_len
        → settle done (take header_len head)
          ≡ record { pending = []; packets = done ++ (take header_len head ∷ []) }
    unfolding settle
    settled_bare e = simp (length-header, declared-header, e)

    -- A packet that is only a header is complete.
    pub settle_bare :
        (conn seq : ℕ) (fresh : ℕ → List ℕ)
        → ((n : ℕ) → length (fresh n) ≡ n)
        → declared head ≡ header_len
        → settle done (take header_len head)
          ≡ record { pending = []; packets = done ++ ((message conn seq fresh head).packet ∷ []) }
    settle_bare conn seq fresh fits e =
        settled_bare e
        ∙ ap (λ q. record { pending = []; packets = done ++ (q ∷ []) })
            (sym (bare_message conn seq fresh fits e))

    -- Any other header is kept, and the body follows.
    pub settle_longer :
        ltb (declared head) header_len ≡ false
        → ltb max_len (declared head) ≡ false
        → (declared head == header_len) ≡ false
        → settle done (take header_len head)
          ≡ record { pending = take header_len head; packets = done }
    unfolding settle
    settle_longer long small longer =
        simp (length-header, declared-header, long, small, ==-false_comm _ _ longer)
