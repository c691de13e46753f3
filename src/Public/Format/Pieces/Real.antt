-- ===== src/Public/Format/Pieces/Real.antt =====
-- The directive %f: integer part, point and decimals, as far as there is room.
use quick_comm.Base.{
  ℕ, zero, suc, ◌-◌, ◌^◌, ◌<◌, ◌≡◌, refl, sym, ap, true, false, ◌∷◌, ◌++◌, ◌==◌, inl, inr, some,
  length, take, ltb, Bool-cases, arith,
}
use quick_comm.Public.Format.{
  ByteList, scale_loop, shown_parts, point_of, Doubles, parts, Style, new_style, unsigned_double,
  write_double, carried,
}
use quick_comm.Public.Format.Digits.{Spells}
use quick_comm.Public.Format.Room.{padded, Writes, sprintf_num-Spells, take-append, left_over}
use quick_comm.Public.Format.Pieces.{pad_of, width_of, ShowsReal, ShowsDecimals}

with_point :
    (left : ℕ) (u : ByteList)
    → point_of left ++ take (left - length (point_of left)) u ≡ take left (b'.' ∷ u)
with_point zero u = refl
with_point (suc left) u =
    let shown : ltb 0 (suc left) ≡ true = ground arith in
    let behind : suc left - 1 ≡ left = omega arith in simp (shown, behind) refl

shown_parts-Writes :
    (z width k ui64 frac : ℕ)
    → ui64 < 2 ^ 64
    → frac < 2 ^ 64
    → let y : Style = record {
      zero_char = z;
      width = width;
      sign = true;
      hex = 0;
      frac_width = k;
    } in
      (t : ByteList) × ((ds : ByteList) × Spells 0 ui64 ds
        × ShowsDecimals k frac (padded z width ds) t)
      × Writes (λ room. shown_parts room y (ui64, frac)) t
unfolding shown_parts
shown_parts-Writes z width zero ui64 frac h j =
    let (ds, spells, writes) = sprintf_num-Spells ui64 z 0 width h in
    (padded z width ds, (ds, spells, refl), λ room. rw (writes room) refl)
shown_parts-Writes z width (suc k) ui64 frac h j =
    let (ds, spells, writes) = sprintf_num-Spells ui64 z 0 width h in
    let (es, decimals, more) = sprintf_num-Spells frac b'0' 0 (suc k) j in
    let a = padded z width ds in
    let u = padded b'0' (suc k) es in
    let some_decimals : (suc k == 0) ≡ false = ground arith in
    let left = λ (room : ℕ). room - length a in
    (
      a ++ (b'.' ∷ u),
      (ds, spells, (es, decimals, refl)),
      λ room. simp some_decimals (
          rw
            (
              writes room,
              left_over room a,
              more (left room - length (point_of (left room))),
              with_point (left room) u,
            )
            (ap some (sym (take-append room a (b'.' ∷ u))))),
    )

module _ {F : Type 0} (doubles : Doubles F) where
  carried-lt :
      (ui64 frac scale : ℕ)
      → ui64 < 2 ^ 64
      → frac < 2 ^ 64
      → ((carried ui64 frac scale).0 < 2 ^ 64) × ((carried ui64 frac scale).1 < 2 ^ 64)
  carried-lt ui64 frac scale h k = elim (Bool-cases (frac == scale)) [
    | inl up ↦ simp up (omega arith, omega arith)
    | inr stay ↦ simp stay (h, k)
  ]

  parts-lt : (k : ℕ) (f : F) → ((parts doubles k f).0 < 2 ^ 64) × ((parts doubles k f).1 < 2 ^ 64)
  parts-lt zero f = (doubles.whole-lt f, omega arith)
  parts-lt (suc k) f =
      let ui64 = doubles.whole f in
      let scale = scale_loop (suc k) 1 in
      let some_decimals : (suc k == 0) ≡ false = ground arith in
      simp some_decimals (
        carried-lt ui64 (doubles.fraction f ui64 scale) scale (doubles.whole-lt f)
          (doubles.fraction-lt f ui64 scale))

  unsigned_double-Writes :
      (z width k : ℕ) (f : F)
      → let y : Style = record {
        zero_char = z;
        width = width;
        sign = true;
        hex = 0;
        frac_width = k;
      } in
        (t : ByteList) × ((ds : ByteList) × Spells 0 (parts doubles k f).0 ds
          × ShowsDecimals k (parts doubles k f).1 (padded z width ds) t)
        × Writes (λ room. unsigned_double doubles room y f) t
  unfolding unsigned_double
  unsigned_double-Writes z width k f =
      let (h, j) = parts-lt k f in
      shown_parts-Writes z width k (parts doubles k f).0 (parts doubles k f).1 h j

  one_less : (room : ℕ) → suc room - 1 ≡ room
  one_less room = omega arith

  -- A minus in front changes nothing behind it.
  minus-ShowsDecimals :
      (k frac : ℕ) (a t : ByteList)
      → ShowsDecimals k frac a t
      → ShowsDecimals k frac (b'-' ∷ a) (b'-' ∷ t)
  minus-ShowsDecimals zero frac a t e = ap (◌∷◌ b'-') e
  minus-ShowsDecimals (suc k) frac a t (es, spells, e) = (es, spells, ap (◌∷◌ b'-') e)

  -- %f writes the sign, the integer part and, if decimals are asked for, the point and so many
  -- decimals.
  pub write_double-Writes :
      (w d : ByteList) (f : F)
      → let y = record (new_style (pad_of w) (width_of w)) { frac_width = width_of d } in
        (t : ByteList) × ShowsReal doubles w d f t
        × ((room : ℕ) → write_double doubles (suc room) y f ≡ some (take (suc room) t))
  unfolding write_double
  write_double-Writes w d f = elim (Bool-cases (doubles.is_negative f)) [
    | inl negative ↦
        let (t, (ds, spells, shows), writes) =
          unsigned_double-Writes (pad_of w) (width_of w) (width_of d) (doubles.negated f) in
        (
          b'-' ∷ t,
          simp negative (ds, spells, minus-ShowsDecimals (width_of d) _ _ t shows),
          λ room. simp negative (rw (one_less room, writes room) refl),
        )
    | inr positive ↦
        let (t, shows, writes) = unsigned_double-Writes (pad_of w) (width_of w) (width_of d) f in
        (t, simp positive shows, λ room. simp positive (writes (suc room)))
  ]
