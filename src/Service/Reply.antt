-- ===== src/Service/Reply.antt =====
-- The packets that the handlers build, seen by the checks on received packets.
use quick_comm.Base.{
  ℕ, ◌+◌, ◌-◌, ◌^◌, ◌≤◌, ◌<◌, ◌≡◌, ◌≢◌, refl, sym, ap, ◌∙◌, true, false, List, [], Option, none,
  some, ◌==◌, ==_iff, length, take, take_all, All, arith,
}
use quick_comm.Misc.Crc.{get_crc}
use quick_comm.Misc.Crc.Bitwise.{IsByte, get_crc-lt}
use quick_comm.Net.Recv.{declared, header_len}
use quick_comm.Service.{msg_code, crc32, body_of, packet_of, checked}

declared-packet_of :
    (len code crc : ℕ) (body : List ℕ) → len < 2 ^ 16 → declared (packet_of len code crc body) ≡ len
declared-packet_of len code crc body h = omega arith

msg_code-packet_of :
    (len code crc : ℕ) (body : List ℕ)
    → code < 2 ^ 16
    → msg_code (packet_of len code crc body) ≡ code
msg_code-packet_of len code crc body h = omega arith

crc32-packet_of :
    (len code crc : ℕ) (body : List ℕ) → crc < 2 ^ 32 → crc32 (packet_of len code crc body) ≡ crc
crc32-packet_of len code crc body h = omega arith

body-packet_of :
    (len code crc : ℕ) (body : List ℕ)
    → len < 2 ^ 16
    → len ≡ header_len + length body
    → body_of (packet_of len code crc body) ≡ body
body-packet_of len code crc body h e =
    ap (λ n. take (n - header_len) body) (declared-packet_of len code crc body h)
    ∙ take_all (len - header_len) body (omega arith)

-- A packet as the receiver of the same program sees it.
pub record IsAccepted (packet : List ℕ) (code : ℕ) (body : Option (List ℕ)) : Type 0 where
  pub framed : declared packet ≡ length packet
  pub coded : msg_code packet ≡ code
  pub kept : checked packet ≡ some body

-- A packet that is built like those of _HandleRegister and _HandleLogIn, with a body of at least
-- one byte that fits the 16-bit length, a 16-bit code and the body's checksum, has the length that
-- its header declares, passes the checksum test of threadRecvProcFunc, and gives back the code
-- and the body.
pub packet_of-IsAccepted :
    (code : ℕ) (body : List ℕ)
    → code < 2 ^ 16
    → 1 ≤ length body
    → header_len + length body < 2 ^ 16
    → All IsByte body
    → IsAccepted (packet_of (header_len + length body) code (get_crc body) body) code (some body)
unfolding checked
packet_of-IsAccepted code body h n k b = record {
  framed = declared-packet_of len code crc body k ∙ omega arith;
  coded = msg_code-packet_of len code crc body h;
  kept =
      let d = declared-packet_of len code crc body k in
      let long : (header_len == declared p) ≡ false = ground (arith, d) in
      let same : (get_crc (body_of p) == crc32 p) ≡ true = (==_iff _ _).1 (
        ap get_crc (body-packet_of len code crc body k refl)
        ∙ sym (crc32-packet_of len code crc body (get_crc-lt body b))) in
      simp (long, same) (ap (λ x. some (some x)) (body-packet_of len code crc body k refl));
}
  where
    len : ℕ
    len = header_len + length body

    crc : ℕ
    crc = get_crc body

    p : List ℕ
    p = packet_of len code crc body

-- A packet with another checksum than its body's is dropped.
pub other_crc-dropped :
    (code crc : ℕ) (body : List ℕ)
    → 1 ≤ length body
    → header_len + length body < 2 ^ 16
    → crc < 2 ^ 32
    → get_crc body ≢ crc
    → checked (packet_of (header_len + length body) code crc body) ≡ none
unfolding checked
other_crc-dropped code crc body n k c differs =
    let d = declared-packet_of len code crc body k in
    let long : (header_len == declared p) ≡ false = ground (arith, d) in
    let other : (get_crc (body_of p) == crc32 p) ≡ false =
      ap (λ x. x == crc32 p) (ap get_crc (body-packet_of len code crc body k refl))
      ∙ ap (λ x. get_crc body == x) (crc32-packet_of len code crc body c)
      ∙ apart (get_crc body) crc differs in
    simp (long, other) refl
  where
    len : ℕ
    len = header_len + length body

    p : List ℕ
    p = packet_of len code crc body

    apart : (x y : ℕ) → x ≢ y → (x == y) ≡ false
    apart x y h = ground (arith, h)

-- The packet of SendNoBodyPkgToClient is accepted too, as one without a body.
pub no_body-IsAccepted :
    (code : ℕ) → code < 2 ^ 16 → IsAccepted (packet_of header_len code 0 []) code none
unfolding checked
no_body-IsAccepted code h = record {
  framed = refl;
  coded = msg_code-packet_of header_len code 0 [] h;
  kept = refl;
}
