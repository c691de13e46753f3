-- ===== src/Misc/Crc/Detect.antt =====
-- What the checksum detects: two buffers that differ in one byte never share it.
use Prim.Native.Nat.{bit_xor}
use quick_comm.Base.{
  All-append, ℕ, zero, suc, ◌+◌, ◌/◌, ◌%◌, ◌<◌, ◌≡◌, ◌≢◌, refl, sym, ap, ◌∙◌, ◌⊎◌, inl, inr, List,
  [], ◌∷◌, ◌++◌, All, arith,
}
use quick_comm.Base.Bits.{
  bit_xor-zero, bit_xor_assoc, bit_xor_comm, bit_xor_disjoint, bit_xor-lt, bit_xor_injective, shl,
}
use quick_comm.Misc.Crc.{get_crc}
use quick_comm.Misc.Crc.Table.{bit_round, byte_rounds}
use quick_comm.Misc.Crc.Bitwise.{IsByte, crc_bits, get_crc-eq}

-- The polynomial without its top bit.
abbrev low_polynomial : ℕ
low_polynomial = 0x6db8_8320

bit_round_even : (c : ℕ) → c % 2 ≡ 0 → bit_round c ≡ c / 2
unfolding bit_round
bit_round_even c h = rw h (bit_xor-zero (c / 2))

bit_round_odd : (c : ℕ) → c % 2 ≡ 1 → bit_round c ≡ bit_xor (c / 2) 0xedb8_8320
unfolding bit_round
bit_round_odd c h = rw h refl

polynomial_split : bit_xor low_polynomial (shl 31 1) ≡ 0xedb8_8320
polynomial_split = refl

-- After an odd state the top bit is set.
odd_high : (x : ℕ) → x < shl 31 1 → bit_xor x 0xedb8_8320 ≡ shl 31 1 + bit_xor x low_polynomial
odd_high x h =
    ap (bit_xor x) (sym polynomial_split)
    ∙ sym (bit_xor_assoc x low_polynomial (shl 31 1))
    ∙ bit_xor_comm (bit_xor x low_polynomial) (shl 31 1)
    ∙ bit_xor_disjoint 31 1 (bit_xor x low_polynomial)
        (bit_xor-lt 31 x low_polynomial h (omega arith))

parity : (c : ℕ) → (c % 2 ≡ 0) ⊎ (c % 2 ≡ 1)
parity c = omega arith

abbrev IsU32 : ℕ → Type 0
IsU32 c = c < shl 32 1

bit_round-IsU32 : (c : ℕ) → IsU32 c → IsU32 (bit_round c)
bit_round-IsU32 c h = elim (parity c) [
  | inl e ↦ omega (arith, bit_round_even c e)
  | inr e ↦
      omega
        (arith, bit_round_odd c e, bit_xor-lt 32 (c / 2) 0xedb8_8320 (omega arith) (omega arith))
]

-- A round loses nothing.
bit_round_injective : (c d : ℕ) → IsU32 c → IsU32 d → bit_round c ≡ bit_round d → c ≡ d
bit_round_injective c d hc hd e = elim (parity c) [
  | inl p ↦ elim (parity d) [
    | inl q ↦ omega (arith, bit_round_even c p, bit_round_even d q)
    | inr q ↦
        absurd
          (omega (arith, bit_round_even c p, bit_round_odd d q, odd_high (d / 2) (omega arith)))
  ]
  | inr p ↦ elim (parity d) [
    | inl q ↦
        absurd
          (omega (arith, bit_round_even d q, bit_round_odd c p, odd_high (c / 2) (omega arith)))
    | inr q ↦ omega (
      arith,
      bit_xor_injective (c / 2) (d / 2) 0xedb8_8320
          (sym (bit_round_odd c p) ∙ e ∙ bit_round_odd d q),
    )
  ]
]

rounds : ℕ → ℕ → ℕ
rounds zero c = c
rounds (suc n) c = rounds n (bit_round c)

rounds-IsU32 : (n c : ℕ) → IsU32 c → IsU32 (rounds n c)
unfolding rounds
rounds-IsU32 zero c h = h
rounds-IsU32 (suc n) c h = rounds-IsU32 n (bit_round c) (bit_round-IsU32 c h)

rounds_injective : (n c d : ℕ) → IsU32 c → IsU32 d → rounds n c ≡ rounds n d → c ≡ d
unfolding rounds
rounds_injective zero c d hc hd e = e
rounds_injective (suc n) c d hc hd e =
    bit_round_injective c d hc hd (
      rounds_injective n (bit_round c) (bit_round d) (bit_round-IsU32 c hc) (bit_round-IsU32 d hd)
        e)

byte_rounds-IsU32 : (c : ℕ) → IsU32 c → IsU32 (byte_rounds c)
unfolding rounds
byte_rounds-IsU32 c h = rounds-IsU32 8 c h

byte_rounds_injective : (c d : ℕ) → IsU32 c → IsU32 d → byte_rounds c ≡ byte_rounds d → c ≡ d
unfolding rounds
byte_rounds_injective c d hc hd e = rounds_injective 8 c d hc hd e

mixed-IsU32 : (c b : ℕ) → IsU32 c → IsByte b → IsU32 (bit_xor c b)
mixed-IsU32 c b h k = bit_xor-lt 32 c b h (omega arith)

crc_bits-IsU32 : (c : ℕ) (bs : List ℕ) → IsU32 c → All IsByte bs → IsU32 (crc_bits c bs)
unfolding crc_bits
crc_bits-IsU32 c [] h k = h
crc_bits-IsU32 c (b ∷ bs) h (k, ks) =
    crc_bits-IsU32 (byte_rounds (bit_xor c b)) bs
      (byte_rounds-IsU32 (bit_xor c b) (mixed-IsU32 c b h k)) ks

crc_bits_injective :
    (c d : ℕ) (bs : List ℕ)
    → IsU32 c
    → IsU32 d
    → All IsByte bs
    → crc_bits c bs ≡ crc_bits d bs
    → c ≡ d
unfolding crc_bits
crc_bits_injective c d [] hc hd k e = e
crc_bits_injective c d (b ∷ bs) hc hd (k, ks) e =
    let c' = mixed-IsU32 c b hc k in
    let d' = mixed-IsU32 d b hd k in
    bit_xor_injective c d b (
      byte_rounds_injective (bit_xor c b) (bit_xor d b) c' d' (
        crc_bits_injective (byte_rounds (bit_xor c b)) (byte_rounds (bit_xor d b)) bs
          (byte_rounds-IsU32 (bit_xor c b) c') (byte_rounds-IsU32 (bit_xor d b) d') ks e))

crc_bits-append : (c : ℕ) (xs ys : List ℕ) → crc_bits c (xs ++ ys) ≡ crc_bits (crc_bits c xs) ys
unfolding crc_bits
crc_bits-append c [] ys = refl
crc_bits-append c (x ∷ xs) ys = crc_bits-append (byte_rounds (bit_xor c x)) xs ys

-- With all other bytes given, the checksum determines a byte.
get_crc_determines :
    (front back : List ℕ) (x y : ℕ)
    → All IsByte front
    → All IsByte back
    → IsByte x
    → IsByte y
    → get_crc (front ++ (x ∷ back)) ≡ get_crc (front ++ (y ∷ back))
    → x ≡ y
unfolding crc_bits bit_round
get_crc_determines front back x y hf hb hx hy e =
    let state : ℕ = crc_bits 0xffff_ffff front in
    let hs : IsU32 state = crc_bits-IsU32 0xffff_ffff front (omega arith) hf in
    let cx = mixed-IsU32 state x hs hx in
    let cy = mixed-IsU32 state y hs hy in
    let ends : crc_bits 0xffff_ffff (front ++ (x ∷ back))
        ≡ crc_bits 0xffff_ffff (front ++ (y ∷ back)) =
      bit_xor_injective _ _ 0xffff_ffff (
        sym (get_crc-eq (front ++ (x ∷ back)) (All-append IsByte front (x ∷ back) hf (hx, hb)))
        ∙ e
        ∙ get_crc-eq (front ++ (y ∷ back)) (All-append IsByte front (y ∷ back) hf (hy, hb))) in
    let inner : byte_rounds (bit_xor state x) ≡ byte_rounds (bit_xor state y) =
      crc_bits_injective _ _ back (byte_rounds-IsU32 _ cx) (byte_rounds-IsU32 _ cy) hb (
        sym (crc_bits-append 0xffff_ffff front (x ∷ back))
        ∙ ends
        ∙ crc_bits-append 0xffff_ffff front (y ∷ back)) in
    bit_xor_injective x y state
      (bit_xor_comm x state ∙ byte_rounds_injective _ _ cx cy inner ∙ bit_xor_comm state y)

-- Two byte buffers that differ in exactly one byte have different checksums: Get_CRC notices every
-- corruption of a single byte of a packet body.
pub get_crc_detects :
    (front back : List ℕ) (x y : ℕ)
    → All IsByte front
    → All IsByte back
    → IsByte x
    → IsByte y
    → x ≢ y
    → get_crc (front ++ (x ∷ back)) ≢ get_crc (front ++ (y ∷ back))
get_crc_detects front back x y hf hb hx hy n e = n (get_crc_determines front back x y hf hb hx hy e)
