-- ===== src/Public/Format/Pieces/Lengths.antt =====
-- How long the texts of the pieces can be.
use quick_comm.Base.{
  ℕ, zero, suc, ◌+◌, ◌-◌, ◌*◌, ◌^◌, ◌≤◌, ◌<◌, ◌≡◌, ap, ◌∙◌, inl, inr, List, [], ◌∷◌, All, some, ltb,
  leb, ltb→lt, Bool-cases, length, length-append, length-replicate, take_all, replicate, arith,
}
use quick_comm.Public.Format.{ByteList, Doubles, vslprintf}
use quick_comm.Public.Format.Digits.{Spells, value, char_value}
use quick_comm.Public.Format.Room.{padded}
use quick_comm.Public.Format.Pieces.{
  Piece, literal, Renders, AllRender, IsPiece, formats, all_args, ShowsSigned,
}
use quick_comm.Public.Format.Pieces.Render.{vslprintf-Renders}

-- m * 10 ^ k
abbrev pub tens : ℕ → ℕ → ℕ
tens m zero = m
tens m (suc k) = tens (m * 10) k

tens_mono : (k m n : ℕ) → m ≤ n → tens m k ≤ tens n k
tens_mono zero m n h = h
tens_mono (suc k) m n h = tens_mono k (m * 10) (n * 10) (omega (arith, h))

tens_longer : (k j m : ℕ) → k ≤ j → 0 < m → tens m k ≤ tens m j
tens_longer zero zero m h l = omega arith
tens_longer zero (suc j) m h l =
    omega (arith, tens_longer zero j (m * 10) (omega arith) (omega (arith, l)), l)
tens_longer (suc k) zero m h l = absurd (omega (arith, h))
tens_longer (suc k) (suc j) m h l = tens_longer k j (m * 10) (omega (arith, h)) (omega (arith, l))

tens-value : (ds : ByteList) (m : ℕ) → tens m (length ds) ≤ value 10 m ds
tens-value [] m = omega arith
tens-value (c ∷ ds) m = omega (
  arith,
  tens_mono (length ds) (m * 10) (m * 10 + char_value c) (omega arith),
  tens-value ds (m * 10 + char_value c),
)

-- A small number has few digits.
pub few_digits : (k n : ℕ) (ds : ByteList) → Spells 0 n ds → n < tens 1 (suc k) → length ds ≤ suc k
few_digits k n [] (v, p, l, z, a) h = omega arith
few_digits k n (c ∷ ds) (v, p, l, z, a) h =
    let start : char_value c ≡ 0 * 10 + char_value c = omega arith in
    let spelled : value 10 (char_value c) ds ≡ n = ap (λ m. value 10 m ds) start ∙ v in
    elim (Bool-cases (leb (length ds) k)) [
      | inl short ↦ ground (arith, short)
      | inr long ↦ elim (Bool-cases (ltb 0 (char_value c))) [
        | inl front ↦ absurd (
            omega (
              arith,
              h,
              spelled,
              tens-value ds (char_value c),
              tens_mono (length ds) 1 (char_value c) (ltb→lt 0 (char_value c) front),
              tens_longer (suc k) (length ds) 1 (ground (arith, long)) (omega arith),
            ))
        | inr none_front ↦ omega (arith, (z (ground (arith, none_front))).1)
      ]
    ]

-- A text of at most `k` characters, however the piece is shown.
module _ {F : Type 0} (doubles : Doubles F) where
  abbrev pub Short : ℕ → Piece F → Type 0
  Short k p = (t : ByteList) → Renders doubles p t → length t ≤ k

  -- Pieces, each with its most characters, the sum of which is `total` at most
  abbrev pub AllShort : List (Piece F) → ℕ → Type 0
  AllShort [] total = Unit
  AllShort (p ∷ ps) total = (k : ℕ) × (k ≤ total) × Short k p × AllShort ps (total - k)

  pub length-AllRender :
      (ps : List (Piece F)) (total : ℕ) (t : ByteList)
      → AllShort ps total
      → AllRender doubles ps t
      → length t ≤ total
  length-AllRender [] total t s e = omega (arith, ap length e)
  length-AllRender (p ∷ ps) total t (k, l, short, s) (u, v, r, rs, e) =
      omega (
        arith,
        l,
        ap length e,
        length-append u v,
        short u r,
        length-AllRender ps (total - k) v s rs,
      )

  pub literal-Short : (c : ℕ) → Short 1 (literal c)
  literal-Short c t e = omega (arith, ap length e)

  pub length-padded :
      (z width k : ℕ) (ds : ByteList) → width ≤ k → length ds ≤ k → length (padded z width ds) ≤ k
  length-padded z width k ds h l = omega (
    arith,
    h,
    l,
    length-append (replicate (width - length ds) z) ds,
    length-replicate (width - length ds) z,
  )

  -- An int that is not negative
  pub small-ShowsSigned :
      (z width k n : ℕ) (t : ByteList)
      → n < 2 ^ 31
      → n < tens 1 (suc k)
      → width ≤ suc k
      → ShowsSigned (2 ^ 31) z width n t
      → length t ≤ suc k
  small-ShowsSigned z width k n t h l j (inl (low, (ds, spells, e))) =
      omega (arith, ap length e, length-padded z width (suc k) ds j (few_digits k n ds spells l))
  small-ShowsSigned z width k n t h l j (inr (high, others)) = absurd (omega (arith, h, high))

  -- With room for its longest text a format is written whole.
  pub short-Renders :
      (ps : List (Piece F)) (k : ℕ)
      → All IsPiece ps
      → AllShort ps k
      → (t : ByteList) × AllRender doubles ps t
        × (length t ≤ k)
        × ((room : ℕ) → k ≤ room → vslprintf doubles room (formats ps) (all_args ps) ≡ some t)
  short-Renders ps k h s =
      let (t, renders, writes) = vslprintf-Renders doubles ps h in
      let short = length-AllRender ps k t s renders in
      (
        t,
        renders,
        short,
        λ room l. writes room ∙ ap some (take_all room t (omega (arith, short, l))),
      )
