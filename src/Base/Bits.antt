-- ===== src/Base/Bits.antt =====
-- Exclusive or at variables: the digit recursion, and the laws of a group of exponent two.
use Prim.Native.Nat.{
  ℕ, zero, suc, ◌+◌, ◌*◌, ◌/◌, ◌%◌, ◌≤◌, ◌<◌, bit_xor, bit_xor-bitwise, digits, differ, bit_and,
  bit_and-bitwise, min,
}
use mathlib.Core.Path.{◌≡◌, refl, sym, ap, ◌∙◌}
use native.Mathlib.Omega.{arith}

-- The digit recursion of an operation does not need more fuel than its first number.
module _ (last : ℕ → ℕ) (digit : ℕ → ℕ → ℕ) where
  fuel-digits : (k j x y : ℕ) → x ≤ k → x ≤ j → digits last digit k x y ≡ digits last digit j x y
  fuel-digits zero zero x y h g = refl
  fuel-digits zero (suc j) zero y h g = refl
  fuel-digits (suc k) zero zero y h g = refl
  fuel-digits (suc k) (suc j) zero y h g = refl
  fuel-digits zero (suc j) (suc x) y h g = absurd (omega arith)
  fuel-digits (suc k) zero (suc x) y h g = absurd (omega arith)
  fuel-digits (suc k) (suc j) (suc x) y h g =
      ap (λ t. t * 2 + digit (suc x % 2) (y % 2))
        (fuel-digits k j (suc x / 2) (y / 2) (omega arith) (omega arith))

pub zero-bit_xor : (b : ℕ) → bit_xor 0 b ≡ b
zero-bit_xor b = bit_xor-bitwise 0 b

differ_digits : (x y : ℕ) → x < 2 → y < 2 → differ x y ≡ (x + y) % 2
differ_digits zero y p q = omega arith
differ_digits (suc zero) zero p q = refl
differ_digits (suc zero) (suc zero) p q = refl
differ_digits (suc zero) (suc (suc y)) p q = absurd (omega arith)
differ_digits (suc (suc x)) y p q = absurd (omega arith)

differ_parity : (a b : ℕ) → differ (a % 2) (b % 2) ≡ (a + b) % 2
differ_parity a b = omega (arith, differ_digits (a % 2) (b % 2) (omega arith) (omega arith))

pub bit_xor_step : (a b : ℕ) → bit_xor a b ≡ bit_xor (a / 2) (b / 2) * 2 + (a + b) % 2
bit_xor_step zero b = omega (arith, zero-bit_xor b, zero-bit_xor (b / 2))
bit_xor_step (suc a) b = omega (
  arith,
  bit_xor-bitwise (suc a) b,
  bit_xor-bitwise (suc a / 2) (b / 2),
  fuel-digits (λ y. y) differ a (suc a / 2) (suc a / 2) (b / 2) (omega arith) (omega arith),
  differ_parity (suc a) b,
)

pub half-bit_xor : (a b : ℕ) → bit_xor a b / 2 ≡ bit_xor (a / 2) (b / 2)
half-bit_xor a b = omega (arith, bit_xor_step a b)

pub parity-bit_xor : (a b : ℕ) → bit_xor a b % 2 ≡ (a + b) % 2
parity-bit_xor a b = omega (arith, bit_xor_step a b)

xor-zero_below : (n a : ℕ) → a ≤ n → bit_xor a 0 ≡ a
xor-zero_below n zero h = zero-bit_xor 0
xor-zero_below zero (suc a) h = absurd (omega arith)
xor-zero_below (suc n) (suc a) h =
    omega (arith, bit_xor_step (suc a) 0, xor-zero_below n (suc a / 2) (omega arith))

pub bit_xor-zero : (a : ℕ) → bit_xor a 0 ≡ a
bit_xor-zero a = xor-zero_below a a (omega arith)

comm_below : (n a b : ℕ) → a ≤ n → bit_xor a b ≡ bit_xor b a
comm_below n zero b h = zero-bit_xor b ∙ sym (bit_xor-zero b)
comm_below zero (suc a) b h = absurd (omega arith)
comm_below (suc n) (suc a) b h = omega (
  arith,
  bit_xor_step (suc a) b,
  bit_xor_step b (suc a),
  comm_below n (suc a / 2) (b / 2) (omega arith),
)

pub bit_xor_comm : (a b : ℕ) → bit_xor a b ≡ bit_xor b a
bit_xor_comm a b = comm_below a a b (omega arith)

assoc_below : (n a b c : ℕ) → a ≤ n → bit_xor (bit_xor a b) c ≡ bit_xor a (bit_xor b c)
assoc_below n zero b c h = ap (λ t. bit_xor t c) (zero-bit_xor b) ∙ sym (zero-bit_xor (bit_xor b c))
assoc_below zero (suc a) b c h = absurd (omega arith)
assoc_below (suc n) (suc a) b c h = omega (
  arith,
  bit_xor_step (bit_xor (suc a) b) c,
  bit_xor_step (suc a) (bit_xor b c),
  ap (λ t. bit_xor t (c / 2)) (half-bit_xor (suc a) b),
  ap (bit_xor (suc a / 2)) (half-bit_xor b c),
  parity-bit_xor (suc a) b,
  parity-bit_xor b c,
  assoc_below n (suc a / 2) (b / 2) (c / 2) (omega arith),
)

pub bit_xor_assoc : (a b c : ℕ) → bit_xor (bit_xor a b) c ≡ bit_xor a (bit_xor b c)
bit_xor_assoc a b c = assoc_below a a b c (omega arith)

self_below : (n a : ℕ) → a ≤ n → bit_xor a a ≡ 0
self_below n zero h = zero-bit_xor 0
self_below zero (suc a) h = absurd (omega arith)
self_below (suc n) (suc a) h =
    omega (arith, bit_xor_step (suc a) (suc a), self_below n (suc a / 2) (omega arith))

pub bit_xor_self : (a : ℕ) → bit_xor a a ≡ 0
bit_xor_self a = self_below a a (omega arith)

pub bit_xor_cancel : (a b : ℕ) → bit_xor (bit_xor a b) b ≡ a
bit_xor_cancel a b = bit_xor_assoc a b b ∙ ap (bit_xor a) (bit_xor_self b) ∙ bit_xor-zero a

pub bit_xor_injective : (a b c : ℕ) → bit_xor a c ≡ bit_xor b c → a ≡ b
bit_xor_injective a b c h = sym (bit_xor_cancel a c) ∙ ap (λ t. bit_xor t c) h ∙ bit_xor_cancel b c

-- (a ^ b) ^ (c ^ d) = (a ^ c) ^ (b ^ d)
pub bit_xor_swap :
    (a b c d : ℕ) → bit_xor (bit_xor a b) (bit_xor c d) ≡ bit_xor (bit_xor a c) (bit_xor b d)
bit_xor_swap a b c d =
    bit_xor_assoc a b (bit_xor c d)
    ∙ ap (bit_xor a)
        (sym (bit_xor_assoc b c d) ∙ ap (λ t. bit_xor t d) (bit_xor_comm b c) ∙ bit_xor_assoc c b d)
    ∙ sym (bit_xor_assoc a c (bit_xor b d))

-- `x * 2 ^ k`, by doubling.
abbrev pub shl : ℕ → ℕ → ℕ
shl zero x = x
shl (suc k) x = shl k x * 2

-- A shifted number and one below the shift have no bit in common.
pub bit_xor_disjoint : (k x low : ℕ) → low < shl k 1 → bit_xor (shl k x) low ≡ shl k x + low
bit_xor_disjoint zero x low h =
    let e : low ≡ 0 = omega arith in ap (bit_xor x) e ∙ omega (arith, bit_xor-zero x)
bit_xor_disjoint (suc k) x low h = omega (
  arith,
  bit_xor_step (shl k x * 2) low,
  ap (λ t. bit_xor t (low / 2)) (let e : shl k x * 2 / 2 ≡ shl k x = omega arith in e),
  bit_xor_disjoint k x (low / 2) (omega arith),
)

-- The exclusive or of two k-bit numbers has k bits.
pub bit_xor-lt : (k a b : ℕ) → a < shl k 1 → b < shl k 1 → bit_xor a b < shl k 1
bit_xor-lt zero a b h g =
    let e : a ≡ 0 = omega arith in omega (arith, ap (λ t. bit_xor t b) e, zero-bit_xor b)
bit_xor-lt (suc k) a b h g =
    omega (arith, bit_xor_step a b, bit_xor-lt k (a / 2) (b / 2) (omega arith) (omega arith))

bit_and-of_zero : (y : ℕ) → bit_and 0 y ≡ 0
bit_and-of_zero y = bit_and-bitwise 0 y

-- The lowest digit of a conjunction, and the rest.
pub bit_and_step : (x y : ℕ) → bit_and x y ≡ min (x % 2) (y % 2) + bit_and (x / 2) (y / 2) * 2
bit_and_step zero y = omega (arith, bit_and-of_zero (y / 2), bit_and-of_zero y)
bit_and_step (suc x) y =
    let half = bit_and-bitwise (suc x / 2) (y / 2) in
    let less =
      fuel-digits (λ b. 0) min x (suc x / 2) (suc x / 2) (y / 2) (omega arith) (omega arith) in
    omega (arith, bit_and-bitwise (suc x) y, half, less)

and-zero_below : (k x : ℕ) → x ≤ k → bit_and x 0 ≡ 0
and-zero_below k zero g = bit_and-of_zero 0
and-zero_below zero (suc x) g = absurd (omega arith)
and-zero_below (suc k) (suc x) g =
    omega (and-zero_below k (suc x / 2) (omega arith), bit_and_step (suc x) 0, arith)

bit_and_three : (a : ℕ) → bit_and a 3 ≡ a % 4
bit_and_three a = omega (
  arith,
  bit_and_step a 3,
  bit_and_step (a / 2) 1,
  and-zero_below (a / 2 / 2) (a / 2 / 2) (omega arith),
)

pub bit_and_fifteen : (a : ℕ) → bit_and a 0xf ≡ a % 16
bit_and_fifteen a =
    omega (arith, bit_and_step a 15, bit_and_step (a / 2) 7, bit_and_three (a / 2 / 2))

-- `a & 0xff` is the low byte.
pub bit_and_byte : (a : ℕ) → bit_and a 0xff ≡ a % 256
bit_and_byte a = omega (
  arith,
  bit_and_step a 255,
  bit_and_step (a / 2) 127,
  bit_and_step (a / 2 / 2) 63,
  bit_and_step (a / 2 / 2 / 2) 31,
  bit_and_fifteen (a / 2 / 2 / 2 / 2),
)
