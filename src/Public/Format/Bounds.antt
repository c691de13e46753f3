-- ===== src/Public/Format/Bounds.antt =====
-- The formatted output stays inside its buffer, whatever the format and the arguments are.
use quick_comm.Base.{
  ℕ, zero, suc, ◌-◌, ◌≤◌, ◌≡◌, refl, true, false, Bool, List, [], ◌∷◌, ◌++◌, ◌⊎◌, ◌==◌, ◌||◌,
  if◌then◌else◌, inl, inr, Option, some, none, get_or, length, length-append, length-take, take,
  ltb, leb, Option-cases, Bool-cases, ◌^◌, ◌%◌, arith, ◌>>=◌,
}
use mathlib.Core.Path.{subst}
use quick_comm.Public.Format.{
  ByteList, Doubles, Arg, word32, word64, string, double, temp_digits, sprintf_num, sign_extend,
  parts, point_of, Style, read_flags, Written, number, signed, copy_string, shown_parts,
  unsigned_double, write_double, new_style, read_number, takes_arg, finish, convert, directive,
  format_round, format_loop, vslprintf,
}
use quick_comm.Public.Format.Room.{padded, sprintf_num-padded}

sprintf_num-cases :
    (room ui64 z hexadecimal width : ℕ)
    → (sprintf_num room ui64 z hexadecimal width ≡ none)
      ⊎ ((t : ByteList) × (sprintf_num room ui64 z hexadecimal width ≡ some t) × (length t ≤ room))
unfolding sprintf_num
sprintf_num-cases room ui64 z hexadecimal width =
    elim (Option-cases (temp_digits ui64 hexadecimal)) [
      | inl fault ↦ inl (rw fault refl)
      | inr (ds, e) ↦
          let t = padded z width ds in
          inr (
            take room t,
            sprintf_num-padded ui64 z hexadecimal width ds e room,
            omega (arith, length-take room t),
          )
    ]

-- Bytes that a step writes, if it writes any, fit the room.
abbrev FitsBytes : ℕ → Option ByteList → Type 0
FitsBytes room none = Unit
FitsBytes room (some out) = length out ≤ room

abbrev Fits : {F : Type 0} → ℕ → Written F → Type 0
Fits room none = Unit
Fits room (some (out, rest, args)) = length out ≤ room

sprintf_num-FitsBytes :
    (room ui64 z hexadecimal width : ℕ) → FitsBytes room (sprintf_num room ui64 z hexadecimal width)
sprintf_num-FitsBytes room ui64 z hexadecimal width =
    elim (sprintf_num-cases room ui64 z hexadecimal width) [
      | inl fault ↦ rw fault tt
      | inr (t, e, l) ↦ rw e l
    ]

copy_string-length : (room : ℕ) (p : ByteList) → length (copy_string room p) ≤ room
unfolding copy_string
copy_string-length zero p = omega arith
copy_string-length (suc room) [] = omega arith
copy_string-length (suc room) (c ∷ p) = omega (arith, copy_string-length room p)

one_less : (room : ℕ) → suc room - 1 ≡ room
one_less room = omega arith

minus-FitsBytes :
    (room : ℕ) (o : Option ByteList)
    → FitsBytes room o
    → FitsBytes (suc room) (o >>= λ bytes. some (b'-' ∷ bytes))
minus-FitsBytes room none h = tt
minus-FitsBytes room (some out) h = omega (arith, h)

point-length : (left : ℕ) → length (point_of left) ≤ left
point-length zero = omega arith
point-length (suc left) =
    let shown : ltb 0 (suc left) ≡ true = ground arith in simp shown (omega arith)

decimals-FitsBytes :
    (room : ℕ) (a : ByteList) (o : Option ByteList) (some_decimals : Bool)
    → length a ≤ room
    → FitsBytes (room - length a - length (point_of (room - length a))) o
    → FitsBytes room (
        if some_decimals
        then some a
        else (o >>= λ more. some (a ++ (point_of (room - length a) ++ more))))
decimals-FitsBytes room a o true h k = h
decimals-FitsBytes room a none false h k = tt
decimals-FitsBytes room a (some u) false h k =
    let point = point_of (room - length a) in
    omega (
      arith,
      h,
      k,
      point-length (room - length a),
      length-append a (point ++ u),
      length-append point u,
    )

shown_parts-FitsBytes :
    (room : ℕ) (y : Style) (ui64 frac : ℕ) → FitsBytes room (shown_parts room y (ui64, frac))
unfolding shown_parts
shown_parts-FitsBytes room y ui64 frac = elim (sprintf_num-cases room ui64 y.zero_char 0 y.width) [
  | inl fault ↦ rw fault tt
  | inr (a, e, l) ↦ rw e (
      decimals-FitsBytes room a
        (sprintf_num (room - length a - length (point_of (room - length a))) frac b'0' 0
          y.frac_width)
        (y.frac_width == 0) l (sprintf_num-FitsBytes _ frac b'0' 0 y.frac_width))
]

module _ {F : Type 0} where
  if-Fits :
      (room : ℕ) (b : Bool) (x y : Written F)
      → Fits room x
      → Fits room y
      → Fits room (if b then x else y)
  if-Fits room true x y h k = h
  if-Fits room false x y h k = k

  bytes-Fits :
      (room : ℕ) (o : Option ByteList) (rest : ByteList) (args : List (Arg F))
      → FitsBytes room o
      → Fits room (o >>= λ bytes. some (bytes, rest, args))
  bytes-Fits room none rest args h = tt
  bytes-Fits room (some out) rest args h = h

  number-Fits :
      (room : ℕ) (y : Style) (n : ℕ) (rest : ByteList) (args : List (Arg F))
      → Fits room (number room y n rest args)
  number-Fits room y n rest args =
      bytes-Fits room (sprintf_num room n y.zero_char y.hex y.width) rest args
        (sprintf_num-FitsBytes room n y.zero_char y.hex y.width)

  minus-Fits :
      (room : ℕ) (o : Option ByteList) (rest : ByteList) (args : List (Arg F))
      → FitsBytes room o
      → Fits (suc room) (o >>= λ bytes. some (b'-' ∷ bytes, rest, args))
  minus-Fits room none rest args h = tt
  minus-Fits room (some out) rest args h = omega (arith, h)

  signed-Fits :
      (room : ℕ) (y : Style) (n : ℕ) (rest : ByteList) (args : List (Arg F))
      → Fits (suc room) (signed (suc room) y n rest args)
  unfolding signed
  signed-Fits room y n rest args = rw (one_less room) (
      if-Fits (suc room) (leb (2 ^ 63) n) _ _
        (minus-Fits room _ rest args
          (sprintf_num-FitsBytes room ((2 ^ 64 - n) % 2 ^ 64) y.zero_char y.hex y.width))
        (number-Fits (suc room) y n rest args))

module _ {F : Type 0} (doubles : Doubles F) where
  write_double-FitsBytes :
      (room : ℕ) (y : Style) (f : F) → FitsBytes (suc room) (write_double doubles (suc room) y f)
  unfolding write_double unsigned_double
  write_double-FitsBytes room y f = elim (Bool-cases (doubles.is_negative f)) [
    | inl negative ↦
        let g = doubles.negated f in
        simp (negative, one_less room)
          (minus-FitsBytes room (unsigned_double doubles room y g) (
            shown_parts-FitsBytes room y (parts doubles y.frac_width g).0
              (parts doubles y.frac_width g).1))
    | inr positive ↦ simp positive (
        shown_parts-FitsBytes (suc room) y (parts doubles y.frac_width f).0
          (parts doubles y.frac_width f).1)
  ]

  convert-Fits :
      (room : ℕ) (y : Style) (c : ℕ) (rest : ByteList) (args : List (Arg F))
      → Fits (suc room) (convert doubles (suc room) y c rest args)
  unfolding convert
  convert-Fits room y c rest [] = tt
  convert-Fits room y c rest (word32 n ∷ args) =
      if-Fits (suc room) (c == b'd') _ _
        (if-Fits (suc room) y.sign _ _ (signed-Fits room y (sign_extend n) rest args)
          (number-Fits (suc room) y n rest args))
        (if-Fits (suc room) (c == b'P') _ none (signed-Fits room y (sign_extend n) rest args) tt)
  convert-Fits room y c rest (word64 n ∷ args) =
      if-Fits (suc room) (c == b'i' || c == b'L') _ _
        (if-Fits (suc room) y.sign _ _ (signed-Fits room y n rest args)
          (number-Fits (suc room) y n rest args))
        (if-Fits (suc room) (c == b'p') _ none
          (number-Fits (suc room) (record y { hex = 2; zero_char = b'0'; width = 16 }) n rest args)
          tt)
  convert-Fits room y c rest (string p ∷ args) =
      if-Fits (suc room) (c == b's') _ none (copy_string-length (suc room) p) tt
  convert-Fits room y c rest (double f ∷ args) =
      if-Fits (suc room) (c == b'f') _ none
        (bytes-Fits (suc room) (write_double doubles (suc room) y f) rest args
          (write_double-FitsBytes room y f))
        tt

  finish-Fits :
      (room : ℕ) (args : List (Arg F)) (y : Style) (fmt : ByteList)
      → Fits (suc room) (finish doubles (suc room) args (y, fmt))
  unfolding finish
  finish-Fits room args y [] = tt
  finish-Fits room args y (c ∷ rest) =
      if-Fits (suc room) (takes_arg doubles c) _ (some (c ∷ [], rest, args))
        (convert-Fits room y c rest args) (omega arith)

  round-Fits :
      (room c : ℕ) (fmt : ByteList) (args : List (Arg F))
      → Fits (suc room) (format_round doubles (suc room) c fmt args)
  unfolding directive
  round-Fits room c fmt args =
      let z = if get_or fmt 0 0 == b'0' then b'0' else b' ' in
      let read = read_flags (new_style z (read_number 0 fmt).0) (read_number 0 fmt).1 in
      if-Fits (suc room) (c == b'%') _ (some (c ∷ [], fmt, args))
        (finish-Fits room args read.0 read.1) (omega arith)

  -- A round, and `go` on the room that it leaves
  module _ (go : ℕ → ByteList → List (Arg F) → Option ByteList)
      (each : (left : ℕ) (rest : ByteList) (args : List (Arg F))
        → FitsBytes left (go left rest args)) where
    behind-FitsBytes :
        (room : ℕ) (out : ByteList) (o : Option ByteList)
        → length out ≤ room
        → FitsBytes (room - length out) o
        → FitsBytes room (o >>= λ more. some (out ++ more))
    behind-FitsBytes room out none h k = tt
    behind-FitsBytes room out (some more) h k = omega (arith, h, k, length-append out more)

    join-FitsBytes :
        (room : ℕ) (o : Written F)
        → Fits room o
        → FitsBytes room
            (do (out, rest, args) ← o; more ← go (room - length out) rest args; some (out ++ more))
    join-FitsBytes room none h = tt
    join-FitsBytes room (some (out, rest, args)) h =
        behind-FitsBytes room out (go (room - length out) rest args) h
          (each (room - length out) rest args)

  loop-FitsBytes :
      (fuel room : ℕ) (fmt : ByteList) (args : List (Arg F))
      → FitsBytes room (format_loop doubles fuel room fmt args)
  unfolding format_loop
  loop-FitsBytes fuel room [] args = omega arith
  loop-FitsBytes fuel zero (c ∷ fmt) args = omega arith
  loop-FitsBytes zero (suc room) (c ∷ fmt) args = tt
  loop-FitsBytes (suc fuel) (suc room) (c ∷ fmt) args =
      join-FitsBytes (format_loop doubles fuel) (loop-FitsBytes fuel) (suc room)
        (format_round doubles (suc room) c fmt args) (round-Fits room c fmt args)

  -- Whatever the format and the arguments are, qc_vslprintf writes nothing at or behind `last`.
  pub vslprintf-length :
      (room : ℕ) (fmt out : ByteList) (args : List (Arg F))
      → vslprintf doubles room fmt args ≡ some out
      → length out ≤ room
  unfolding vslprintf
  vslprintf-length room fmt out args e =
      subst (FitsBytes room) e (loop-FitsBytes (length fmt) room fmt args)
