-- ===== src/Public/Format/Room.antt =====
-- What qc_sprintf_num writes is the padded number, cut where the room ends.
use quick_comm.Base.{
  ℕ, zero, suc, ◌-◌, ◌^◌, ◌<◌, ◌≡◌, refl, sym, ap, ◌∙◌, inl, inr, [], ◌∷◌, ◌++◌, Option, some, Bool,
  true, false, ltb, leb, length, length-take, take, take_all, replicate, Bool-cases, arith, ltb→lt,
}
use quick_comm.Public.Format.{ByteList, pad_loop, fitting, temp_digits, sprintf_num}
use quick_comm.Public.Format.Digits.{Spells, temp_digits-Spells}

-- At least `width` characters, with `z` on the left.
abbrev pub padded : ℕ → ℕ → ByteList → ByteList
padded z width ds = replicate (width - length ds) z ++ ds

-- A writer that writes `t`, as far as there is room.
abbrev pub Writes : (ℕ → Option ByteList) → ByteList → Type 0
Writes w t = (room : ℕ) → w room ≡ some (take room t)

pub take-append :
    (room : ℕ) (t u : ByteList) → take room (t ++ u) ≡ take room t ++ take (room - length t) u
take-append zero t u = let spent : 0 ≡ 0 - length t = omega arith in ap (λ n. take n u) spent
take-append (suc room) [] u =
    let whole : suc room ≡ suc room - 0 = omega arith in ap (λ n. take n u) whole
take-append (suc room) (c ∷ t) u =
    let same : room - length t ≡ suc room - length (c ∷ t) = omega arith in
    ap (◌∷◌ c) (take-append room t u ∙ ap (λ n. take room t ++ take n u) same)

-- The room behind what was written
pub left_over : (room : ℕ) (t : ByteList) → room - length (take room t) ≡ room - length t
left_over room t = omega (arith, length-take room t)

pad_loop-eq :
    (room len width z : ℕ) → pad_loop room len width z ≡ take room (replicate (width - len) z)
unfolding pad_loop
pad_loop-eq zero len width z = refl
pad_loop-eq (suc room) len width z =
    let go = λ (b : Bool). elim b as (λ _. ByteList) [
      | true ↦ z ∷ pad_loop room (suc len) width z
      | false ↦ []
    ] in
    elim (Bool-cases (ltb len width)) [
      | inl short ↦
          let one_more : suc (width - suc len) ≡ width - len =
            omega (arith, ltb→lt len width short) in
          ap go short
          ∙ ap (◌∷◌ z) (pad_loop-eq room (suc len) width z)
          ∙ ap (λ n. take (suc room) (replicate n z)) one_more
      | inr full ↦
          let none_left : width - len ≡ 0 = ground (arith, full) in
          ap go full ∙ ap (λ n. take (suc room) (replicate n z)) (sym none_left)
    ]

fitting-eq : (room : ℕ) (ds : ByteList) → fitting room ds ≡ take room ds
fitting-eq room ds = elim (Bool-cases (leb room (length ds))) [
  | inl tight ↦ simp tight refl
  | inr fits ↦
      simp fits
        (take_all (length ds) ds (omega arith) ∙ sym (take_all room ds (ground (arith, fits))))
]

-- qc_sprintf_num on a number with the digits `ds`
pub sprintf_num-padded :
    (ui64 z hexadecimal width : ℕ) (ds : ByteList)
    → temp_digits ui64 hexadecimal ≡ some ds
    → Writes (λ room. sprintf_num room ui64 z hexadecimal width) (padded z width ds)
unfolding sprintf_num
sprintf_num-padded ui64 z hexadecimal width ds e room =
    let pad = replicate (width - length ds) z in
    rw
      (
        e,
        fitting-eq (room - length (pad_loop room (length ds) width z)) ds,
        pad_loop-eq room (length ds) width z,
        left_over room pad,
      )
      (ap some (sym (take-append room pad ds)))

-- qc_sprintf_num shows a number in its base, right-aligned in the width that is asked for, and
-- writes as much of it as there is room for.
pub sprintf_num-Spells :
    (ui64 z hexadecimal width : ℕ)
    → ui64 < 2 ^ 64
    → (ds : ByteList) × Spells hexadecimal ui64 ds
      × Writes (λ room. sprintf_num room ui64 z hexadecimal width) (padded z width ds)
sprintf_num-Spells ui64 z hexadecimal width h =
    let (ds, e, spells) = temp_digits-Spells ui64 hexadecimal h in
    (ds, spells, sprintf_num-padded ui64 z hexadecimal width ds e)
