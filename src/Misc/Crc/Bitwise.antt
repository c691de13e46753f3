-- ===== src/Misc/Crc/Bitwise.antt =====
-- CCRC32::Get_CRC computes the bitwise CRC-32: the table lookup does eight single-bit rounds.
use Prim.Native.Nat.{bit_xor}
use quick_comm.Base.{
  ℕ, zero, suc, ◌+◌, ◌*◌, ◌/◌, ◌%◌, ◌^◌, ◌<◌, ◌≡◌, refl, sym, ap, ◌∙◌, List, [], ◌∷◌, All, arith,
}
use quick_comm.Base.Bits.{
  bit_xor-zero, bit_xor_assoc, bit_xor_swap, bit_xor_disjoint, bit_xor-lt, half-bit_xor,
  parity-bit_xor, bit_and_byte, shl,
}
use quick_comm.Misc.Crc.{init_crc32_table, crc_round, crc_loop, get_crc}
use quick_comm.Misc.Crc.Table.{bit_round, byte_rounds, get_or-init_crc32_table}

abbrev pub IsByte : ℕ → Type 0
IsByte b = b < 256

-- The checksum state after a buffer, one bit at a time.
unfoldable pub crc_bits : ℕ → List ℕ → ℕ
crc_bits c [] = c
crc_bits c (b ∷ bs) = crc_bits (byte_rounds (bit_xor c b)) bs

gate :
    (p q : ℕ)
    → p < 2
    → q < 2
    → bit_xor (p * 0xedb8_8320) (q * 0xedb8_8320) ≡ (p + q) % 2 * 0xedb8_8320
gate zero zero h k = refl
gate zero (suc zero) h k = refl
gate (suc zero) zero h k = refl
gate (suc zero) (suc zero) h k = refl
gate p (suc (suc q)) h k = absurd (omega arith)
gate (suc (suc p)) q h k = absurd (omega arith)

mod_two_sum : (u v : ℕ) → (u % 2 + v % 2) % 2 ≡ (u + v) % 2
mod_two_sum u v = omega arith

-- A round is linear.
bit_round-bit_xor : (u v : ℕ) → bit_round (bit_xor u v) ≡ bit_xor (bit_round u) (bit_round v)
unfolding bit_round
bit_round-bit_xor u v =
    rw (half-bit_xor u v, parity-bit_xor u v)
      (ap (λ t. bit_xor (bit_xor (u / 2) (v / 2)) (t * 0xedb8_8320)) (sym (mod_two_sum u v))
        ∙ ap (bit_xor (bit_xor (u / 2) (v / 2)))
            (sym (gate (u % 2) (v % 2) (omega arith) (omega arith)))
        ∙ bit_xor_swap (u / 2) (v / 2) (u % 2 * 0xedb8_8320) (v % 2 * 0xedb8_8320))

bit_round_double : (x : ℕ) → bit_round (x * 2) ≡ x
unfolding bit_round
bit_round_double x =
    let h : x * 2 / 2 ≡ x = omega arith in
    let p : x * 2 % 2 ≡ 0 = omega arith in rw (h, p) (bit_xor-zero x)

byte_rounds-bit_xor :
    (u v : ℕ) → byte_rounds (bit_xor u v) ≡ bit_xor (byte_rounds u) (byte_rounds v)
byte_rounds-bit_xor u v = simp bit_round-bit_xor

byte_rounds_shifted : (x : ℕ) → byte_rounds (shl 8 x) ≡ x
byte_rounds_shifted x = simp bit_round_double

split_byte : (c : ℕ) → c ≡ bit_xor (shl 8 (c / 256)) (c % 256)
split_byte c =
    let e : c ≡ shl 8 (c / 256) + c % 256 = omega arith in
    e ∙ sym (bit_xor_disjoint 8 (c / 256) (c % 256) (omega arith))

-- The table lookup on the low byte is eight rounds on the whole state.
round-eq : (c b : ℕ) → IsByte b → crc_round init_crc32_table c b ≡ byte_rounds (bit_xor c b)
unfolding crc_round
round-eq c b h =
    rw (bit_and_byte c, get_or-init_crc32_table (bit_xor (c % 256) b) low)
      (sym (
        ap (λ t. byte_rounds (bit_xor t b)) (split_byte c)
        ∙ ap byte_rounds (bit_xor_assoc (shl 8 (c / 256)) (c % 256) b)
        ∙ byte_rounds-bit_xor (shl 8 (c / 256)) (bit_xor (c % 256) b)
        ∙ ap (λ t. bit_xor t (byte_rounds (bit_xor (c % 256) b))) (byte_rounds_shifted (c / 256))))
  where
    low : bit_xor (c % 256) b < 256
    low = bit_xor-lt 8 (c % 256) b (omega arith) h

loop-eq : (c : ℕ) (bs : List ℕ) → All IsByte bs → crc_loop init_crc32_table c bs ≡ crc_bits c bs
unfolding crc_loop crc_bits
loop-eq c [] h = refl
loop-eq c (b ∷ bs) (h, hs) =
    ap (λ t. crc_loop init_crc32_table t bs) (round-eq c b h)
    ∙ loop-eq (byte_rounds (bit_xor c b)) bs hs

-- On every byte buffer, Get_CRC is the bitwise reflected CRC-32 with initial value and final
-- exclusive or 0xffffffff.
pub get_crc-eq :
    (bs : List ℕ) → All IsByte bs → get_crc bs ≡ bit_xor (crc_bits 0xffff_ffff bs) 0xffff_ffff
unfolding get_crc
get_crc-eq bs h = ap (λ t. bit_xor t 0xffff_ffff) (loop-eq 0xffff_ffff bs h)

bit_round-lt : (c : ℕ) → c < shl 32 1 → bit_round c < shl 32 1
unfolding bit_round
bit_round-lt c h = bit_xor-lt 32 (c / 2) (c % 2 * 0xedb8_8320) (omega arith) (omega arith)

byte_rounds-lt : (c : ℕ) → c < shl 32 1 → byte_rounds c < shl 32 1
byte_rounds-lt c h =
    let twice : (x : ℕ) → x < shl 32 1 → bit_round (bit_round x) < shl 32 1 =
      λ x k. bit_round-lt (bit_round x) (bit_round-lt x k) in
    twice _ (twice _ (twice _ (twice c h)))

crc_bits-lt : (c : ℕ) (bs : List ℕ) → c < shl 32 1 → All IsByte bs → crc_bits c bs < shl 32 1
unfolding crc_bits
crc_bits-lt c [] h k = h
crc_bits-lt c (b ∷ bs) h (k, ks) =
    crc_bits-lt (byte_rounds (bit_xor c b)) bs
      (byte_rounds-lt (bit_xor c b) (bit_xor-lt 32 c b h (omega arith))) ks

-- The checksum of bytes is a 32-bit number.
pub get_crc-lt : (bs : List ℕ) → All IsByte bs → get_crc bs < 2 ^ 32
get_crc-lt bs h =
    let k =
      bit_xor-lt 32 (crc_bits 0xffff_ffff bs) 0xffff_ffff
        (crc_bits-lt 0xffff_ffff bs (omega arith) h) (omega arith) in
    omega (arith, k, get_crc-eq bs h)
