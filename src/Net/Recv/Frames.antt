-- ===== src/Net/Recv/Frames.antt =====
-- The framing that the receive state machine implements, one byte at a time: the packet so far is
-- a list of bytes, and a packet is complete when it has the length that its header declares.
use quick_comm.Base.{
  ℕ, zero, suc, ◌+◌, ◌≤◌, ◌<◌, ◌≡◌, refl, sym, ap, ◌∙◌, List, [], ◌∷◌, ◌++◌, ltb, ◌==◌,
  if◌then◌else◌, length, length-append, get_or, arith, ◌||◌, ◌&&◌,
}
use mathlib.Core.List.{append_assoc, append-nil}
use quick_comm.Net.Recv.{declared, header_len, max_len}

pub record Frames : Type 0 where
  pub pending : List ℕ
  pub packets : List (List ℕ)

-- What happens when the packet so far is `p`, and `done` are the packets before it.
unfoldable pub settle : List (List ℕ) → List ℕ → Frames
settle done p =
    if ltb (length p) header_len
    then record { pending = p; packets = done }
    else if length p == header_len && (ltb (declared p) header_len || ltb max_len (declared p))
    then record { pending = []; packets = done }
    else if length p == declared p
    then record { pending = []; packets = done ++ (p ∷ []) }
    else record { pending = p; packets = done }

unfoldable pub feed : Frames → List ℕ → Frames
feed s [] = s
feed s (b ∷ bs) = feed (settle s.packets (s.pending ++ (b ∷ []))) bs

pub feed-append : (s : Frames) (xs ys : List ℕ) → feed s (xs ++ ys) ≡ feed (feed s xs) ys
unfolding feed
feed-append s [] ys = refl
feed-append s (x ∷ xs) ys = feed-append (settle s.packets (s.pending ++ (x ∷ []))) xs ys

abbrev at : List (List ℕ) → List ℕ → Frames
at done p = record { pending = p; packets = done }

append_one : (p bs : List ℕ) (b : ℕ) → (p ++ (b ∷ [])) ++ bs ≡ p ++ (b ∷ bs)
append_one p bs b = append_assoc p (b ∷ []) bs

pub get_or-append_left :
    (xs ys : List ℕ) (i d : ℕ) → i < length xs → get_or (xs ++ ys) i d ≡ get_or xs i d
get_or-append_left [] ys i d h = absurd (omega arith)
get_or-append_left (x ∷ xs) ys zero d h = refl
get_or-append_left (x ∷ xs) ys (suc i) d h = get_or-append_left xs ys i d (omega arith)

pub declared-append : (p q : List ℕ) → 2 ≤ length p → declared (p ++ q) ≡ declared p
declared-append p q h =
    omega
      (arith, get_or-append_left p q 0 0 (omega arith), get_or-append_left p q 1 0 (omega arith))

-- Bytes that do not complete the header are kept.
pub feed_header :
    (done : List (List ℕ)) (p bs : List ℕ)
    → length p + length bs < header_len
    → feed (at done p) bs ≡ at done (p ++ bs)
unfolding feed settle
feed_header done p [] h = ap (at done) (sym (append-nil p))
feed_header done p (b ∷ bs) h =
    let e : length (p ++ (b ∷ [])) ≡ length p + 1 = omega (arith, length-append p (b ∷ [])) in
    let kept : settle done (p ++ (b ∷ [])) ≡ at done (p ++ (b ∷ [])) = ground (arith, e) in
    rw kept (feed_header done (p ++ (b ∷ [])) bs (omega arith) ∙ ap (at done) (append_one p bs b))

-- Bytes that complete the header settle it.
pub feed_header_done :
    (done : List (List ℕ)) (p bs : List ℕ)
    → length p < header_len
    → length p + length bs ≡ header_len
    → feed (at done p) bs ≡ settle done (p ++ bs)
unfolding feed
feed_header_done done p [] h k = absurd (omega arith)
feed_header_done done p (b ∷ []) h k = refl
feed_header_done done p (b ∷ (c ∷ bs)) h k =
    let e : length (p ++ (b ∷ [])) ≡ length p + 1 = omega (arith, length-append p (b ∷ [])) in
    let kept : settle done (p ++ (b ∷ [])) ≡ at done (p ++ (b ∷ [])) =
      feed_header done p (b ∷ []) (omega arith) in
    rw kept (
      feed_header_done done (p ++ (b ∷ [])) (c ∷ bs) (omega arith) (omega arith)
      ∙ ap (settle done) (append_one p (c ∷ bs) b))

module _ (done : List (List ℕ)) where
  settle_body :
      (p : List ℕ) → header_len < length p → length p < declared p → settle done p ≡ at done p
  unfolding settle
  settle_body p h k = ground arith

  settle_complete :
      (p : List ℕ)
      → header_len < length p
      → length p ≡ declared p
      → settle done p ≡ record { pending = []; packets = done ++ (p ∷ []) }
  unfolding settle
  settle_complete p h k = ground arith

  -- Bytes that do not complete the body are kept.
  pub feed_body :
      (p bs : List ℕ)
      → header_len ≤ length p
      → length p + length bs < declared p
      → feed (at done p) bs ≡ at done (p ++ bs)
  unfolding feed
  feed_body p [] h k = ap (at done) (sym (append-nil p))
  feed_body p (b ∷ bs) h k =
      let e : length (p ++ (b ∷ [])) ≡ length p + 1 = omega (arith, length-append p (b ∷ [])) in
      let d : declared (p ++ (b ∷ [])) ≡ declared p = declared-append p (b ∷ []) (omega arith) in
      rw (settle_body (p ++ (b ∷ [])) (omega arith) (omega arith)) (
        feed_body (p ++ (b ∷ [])) bs (omega arith) (omega arith) ∙ ap (at done) (append_one p bs b))

  -- Bytes that complete the body complete the packet.
  pub feed_body_done :
      (p bs : List ℕ)
      → header_len ≤ length p
      → length p < declared p
      → length p + length bs ≡ declared p
      → feed (at done p) bs ≡ record { pending = []; packets = done ++ ((p ++ bs) ∷ []) }
  unfolding feed
  feed_body_done p [] h l k = absurd (omega arith)
  feed_body_done p (b ∷ []) h l k =
      let e : length (p ++ (b ∷ [])) ≡ length p + 1 = omega (arith, length-append p (b ∷ [])) in
      let d : declared (p ++ (b ∷ [])) ≡ declared p = declared-append p (b ∷ []) (omega arith) in
      settle_complete (p ++ (b ∷ [])) (omega arith) (omega arith)
  feed_body_done p (b ∷ (c ∷ bs)) h l k =
      let e : length (p ++ (b ∷ [])) ≡ length p + 1 = omega (arith, length-append p (b ∷ [])) in
      let d : declared (p ++ (b ∷ [])) ≡ declared p = declared-append p (b ∷ []) (omega arith) in
      rw (settle_body (p ++ (b ∷ [])) (omega arith) (omega arith)) (
        feed_body_done (p ++ (b ∷ [])) (c ∷ bs) (omega arith) (omega arith) (omega arith)
        ∙ ap (λ q. record { pending = []; packets = done ++ (q ∷ []) }) (append_one p (c ∷ bs) b))
