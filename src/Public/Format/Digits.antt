-- ===== src/Public/Format/Digits.antt =====
-- The digits of qc_sprintf_num: they fit its array, and they spell the number.
use Prim.Native.Nat.{bit_and}
use quick_comm.Base.{
  All-append, ℕ, zero, suc, ◌+◌, ◌-◌, ◌*◌, ◌/◌, ◌%◌, ◌^◌, ◌≤◌, ◌<◌, ◌≡◌, refl, sym, ap, ◌∙◌, Bool,
  true, false, ◌&&◌, inl, inr, [], ◌∷◌, ◌++◌, some, leb, leb→le, ltb, ◌==◌, ==_iff, &&_left,
  &&_right, if◌then◌else◌, length, length-append, get_or, All, Bool-cases, arith,
}
use mathlib.Core.Path.{subst}
use mathlib.Core.List.{append_assoc, append-nil}
use quick_comm.Base.Bits.{bit_and_fifteen}
use quick_comm.Public.Format.{
  ByteList, digit_loop, decimal_digit, hex_low, hex_up, temp_digits, int64_len, max_uint32_value,
}

-- The digit for a number below the base, in the letters that `hexadecimal` asks for.
abbrev pub digit_char : ℕ → ℕ → ℕ
digit_char hexadecimal m =
    if ltb m 10 then b'0' + m else if hexadecimal == 1 then b'a' + (m - 10) else b'A' + (m - 10)

-- What a digit stands for.
abbrev pub char_value : ℕ → ℕ
char_value c = if leb c b'9' then c - b'0' else if leb c b'F' then c - 55 else c - 87

abbrev pub base_of : ℕ → ℕ
base_of hexadecimal = if hexadecimal == 0 then 10 else 16

-- The number that digits spell behind `n`.
abbrev pub value : ℕ → ℕ → ByteList → ℕ
value base n [] = n
value base n (c ∷ ds) = value base (n * base + char_value c) ds

abbrev pub IsNumeral : ℕ → ℕ → Type 0
IsNumeral hexadecimal c = (m : ℕ) × (m < base_of hexadecimal) × (c ≡ digit_char hexadecimal m)

-- One to twenty digits that spell `n`, with no zero before them.
abbrev pub Spells : ℕ → ℕ → ByteList → Type 0
Spells hexadecimal n ds =
    (value (base_of hexadecimal) 0 ds ≡ n)
    × (0 < length ds)
    × (length ds ≤ int64_len)
    × (char_value (get_or ds 0 0) ≡ 0 → (n ≡ 0) × (length ds ≡ 1))
    × All (IsNumeral hexadecimal) ds

value-append :
    (base n : ℕ) (ds : ByteList) (c : ℕ)
    → value base n (ds ++ (c ∷ [])) ≡ value base n ds * base + char_value c
value-append base n [] c = refl
value-append base n (d ∷ ds) c = value-append base (n * base + char_value d) ds c

get_or-append : (ds es : ByteList) → 0 < length ds → get_or (ds ++ es) 0 0 ≡ get_or ds 0 0
get_or-append [] es h = absurd (omega arith)
get_or-append (d ∷ ds) es h = refl

char_value-digit_char : (hexadecimal m : ℕ) → m < 16 → char_value (digit_char hexadecimal m) ≡ m
char_value-digit_char hexadecimal m h = ground arith

-- `below`: a number below it has so many digits at most.
module _ (hexadecimal base : ℕ) (digit : ℕ → ℕ) (below : ℕ → ℕ)
    (is_base : base ≡ base_of hexadecimal)
    (last : (n : ℕ)
      → (m : ℕ) × (m < base) × (digit n ≡ digit_char hexadecimal m) × (n / base * base + m ≡ n))
    (shorter : (k n : ℕ) → n < below (suc k) → n / base < below k)
    (one : (n : ℕ) → n < below 0 → n ≡ 0) where
  abbrev Result : ℕ → ℕ → ByteList → ByteList → Type 0
  Result k n p ds =
      (digit_loop digit base k n p ≡ some (ds ++ p))
      × (value base 0 ds ≡ n)
      × (0 < length ds)
      × (length ds ≤ k)
      × (char_value (get_or ds 0 0) ≡ 0 → (n ≡ 0) × (length ds ≡ 1))
      × All (IsNumeral hexadecimal) ds

  digit_value : (n : ℕ) → char_value (digit n) + n / base * base ≡ n
  digit_value n =
      let (m, l, e, f) = last n in
      let v = ap char_value e ∙ char_value-digit_char hexadecimal m (ground (arith, is_base, l)) in
      omega (arith, v, f)

  numeral : (n : ℕ) → IsNumeral hexadecimal (digit n)
  numeral n = let (m, l, e, f) = last n in (m, omega (arith, l, is_base), e)

  only : (k n : ℕ) (p : ByteList) → (n / base == 0) ≡ true → Result (suc k) n p (digit n ∷ [])
  unfolding digit_loop
  only k n p done =
      let z = (==_iff (n / base) 0).0 done in
      let v : char_value (digit n) + 0 * base ≡ n =
        ap (λ t. char_value (digit n) + t * base) (sym z) ∙ digit_value n in
      let front : char_value (digit n) ≡ n = omega (arith, v) in
      (
        simp done refl,
        omega (arith, front),
        omega arith,
        omega arith,
        λ e. (sym front ∙ e, refl),
        (numeral n, tt),
      )

  loop-Result :
      (k n : ℕ) (p : ByteList) → n < below (suc k) → (ds : ByteList) × Result (suc k) n p ds
  unfolding digit_loop
  loop-Result zero n p h =
      (digit n ∷ [], only 0 n p (ground (arith, one (n / base) (shorter 0 n h))))
  loop-Result (suc k) n p h = elim (Bool-cases (n / base == 0)) [
    | inl done ↦ (digit n ∷ [], only (suc k) n p done)
    | inr more ↦
        let (ds, found) = loop-Result k (n / base) (digit n ∷ p) (shorter (suc k) n h) in
        let (e, v, l, u, z, a) = found in
        (
          ds ++ (digit n ∷ []),
          (
            simp more (e ∙ ap some (sym (append_assoc ds (digit n ∷ []) p))),
            value-append base 0 ds (digit n)
                ∙ ap (λ t. t * base + char_value (digit n)) v
                ∙ omega (arith, digit_value n),
            omega (arith, l, length-append ds (digit n ∷ [])),
            omega (arith, u, length-append ds (digit n ∷ [])),
            λ f.
                absurd
                  (ground (arith, more, (z (sym (ap char_value (get_or-append ds _ l)) ∙ f)).0)),
            All-append (IsNumeral hexadecimal) ds (digit n ∷ []) a (numeral n, tt),
          ),
        )
  ]

  spelled :
      (k n : ℕ)
      → suc k ≤ int64_len
      → n < below (suc k)
      → (ds : ByteList) × (digit_loop digit base (suc k) n [] ≡ some ds) × Spells hexadecimal n ds
  spelled k n h l =
      let (ds, found) = loop-Result k n [] l in
      let (e, v, i, u, z, a) = found in
      (
        ds,
        e ∙ ap some (append-nil ds),
        (ap (λ b. value b 0 ds) (sym is_base) ∙ v, i, omega (arith, u, h), z, a),
      )

-- 10 ^ k and 16 ^ k
below_ten : ℕ → ℕ
below_ten zero = 1
below_ten (suc k) = 10 * below_ten k

below_sixteen : ℕ → ℕ
below_sixteen zero = 1
below_sixteen (suc k) = 16 * below_sixteen k

decimal_loop :
    (n : ℕ)
    → n < 2 ^ 64
    → (ds : ByteList) × (digit_loop decimal_digit 10 int64_len n [] ≡ some ds) × Spells 0 n ds
unfolding below_ten
decimal_loop n h =
    spelled 0 10 decimal_digit below_ten refl
      (λ m. (m % 10, omega arith, ground arith, omega arith)) (λ k m l. omega (arith, l))
      (λ m l. omega (arith, l)) 19 n (omega arith) (omega (arith, h))

-- The characters of a table that starts with the digits from `m` on
table_agrees : ℕ → ℕ → ByteList → Bool
table_agrees hexadecimal m [] = true
table_agrees hexadecimal m (c ∷ table) =
    (c == digit_char hexadecimal m) && table_agrees hexadecimal (m + 1) table

at_table :
    (hexadecimal m : ℕ) (table : ByteList) (i : ℕ)
    → table_agrees hexadecimal m table ≡ true
    → i < length table
    → get_or table i 0 ≡ digit_char hexadecimal (m + i)
unfolding table_agrees
at_table hexadecimal m [] i a h = absurd (omega arith)
at_table hexadecimal m (c ∷ table) zero a h =
    (==_iff c (digit_char hexadecimal m)).0 (&&_left (c == digit_char hexadecimal m) _ a)
    ∙ ap (digit_char hexadecimal) (omega arith)
at_table hexadecimal m (c ∷ table) (suc i) a h =
    at_table hexadecimal (m + 1) table i (&&_right (c == digit_char hexadecimal m) _ a)
      (omega arith)
    ∙ ap (digit_char hexadecimal) (omega arith)

hex_loop :
    (hexadecimal : ℕ) (table : ByteList) (n : ℕ)
    → (hexadecimal == 0) ≡ false
    → table_agrees hexadecimal 0 table ≡ true
    → length table ≡ 16
    → n < 2 ^ 64
    → (ds : ByteList) × (digit_loop (λ m. get_or table (bit_and m 0xf) 0) 16 int64_len n []
        ≡ some ds)
      × Spells hexadecimal n ds
unfolding below_sixteen
hex_loop hexadecimal table n z agrees len h =
    spelled hexadecimal 16 _ below_sixteen (ground (arith, z))
      (λ m. (m % 16, omega arith, at m, omega arith)) (λ k m l. omega (arith, l))
      (λ m l. omega (arith, l)) 19 n (omega arith) (omega (arith, h))
  where
    at : (m : ℕ) → get_or table (bit_and m 0xf) 0 ≡ digit_char hexadecimal (m % 16)
    at m =
        ap (λ i. get_or table i 0) (bit_and_fifteen m)
        ∙ at_table hexadecimal 0 table (m % 16) agrees (omega (arith, len))
        ∙ ap (digit_char hexadecimal) (omega arith)

narrow : (n : ℕ) → leb n max_uint32_value ≡ true → n % 2 ^ 32 ≡ n
narrow n fits = omega (arith, leb→le n max_uint32_value fits)

-- The two branches of base ten run the same loop.
temp_digits-ten : (ui64 : ℕ) → temp_digits ui64 0 ≡ digit_loop decimal_digit 10 int64_len ui64 []
unfolding temp_digits
temp_digits-ten ui64 = elim (Bool-cases (leb ui64 max_uint32_value)) [
  | inl fits ↦ simp fits (ap (λ n. digit_loop decimal_digit 10 int64_len n []) (narrow ui64 fits))
  | inr big ↦ simp big refl
]

-- Every uint64_t gets one to twenty digits of its base in qc_sprintf_num's array, which spell it
-- without a zero in front.
pub temp_digits-Spells :
    (ui64 hexadecimal : ℕ)
    → ui64 < 2 ^ 64
    → (ds : ByteList) × (temp_digits ui64 hexadecimal ≡ some ds) × Spells hexadecimal ui64 ds
unfolding temp_digits table_agrees
temp_digits-Spells ui64 hexadecimal h = elim (Bool-cases (hexadecimal == 0)) [
  | inl ten ↦
      let (ds, e, spells) = decimal_loop ui64 h in
      let same = sym ((==_iff hexadecimal 0).0 ten) in
      (
        ds,
        ap (temp_digits ui64) (sym same) ∙ temp_digits-ten ui64 ∙ e,
        subst (λ x. Spells x ui64 ds) same spells,
      )
  | inr sixteen ↦ elim (Bool-cases (hexadecimal == 1)) [
    | inl low ↦
        let (ds, e, spells) = hex_loop hexadecimal hex_low ui64 sixteen (simp low refl) refl h in
        (ds, simp (sixteen, low) e, spells)
    | inr up ↦
        let (ds, e, spells) = hex_loop hexadecimal hex_up ui64 sixteen (simp up refl) refl h in
        (ds, simp (sixteen, up) e, spells)
  ]
]
