-- ===== src/Public/Format/Pieces/Integer.antt =====
-- The directives of the format with an integer: width, letters and conversion.
use quick_comm.Base.{
  ℕ, suc, ◌+◌, ◌-◌, ◌*◌, ◌%◌, ◌^◌, ◌≤◌, ◌<◌, ◌≡◌, refl, ap, ◌∙◌, true, false, List, [], ◌∷◌, ◌++◌,
  ◌==◌, if◌then◌else◌, inl, inr, get_or, some, take, leb, Bool-cases, arith,
}
use mathlib.Core.Path.{subst}
use mathlib.Core.List.{append_assoc}
use quick_comm.Public.Format.{
  ByteList, Doubles, Arg, is_digit, sign_extend, Style, new_style, read_number, read_flags, Written,
  number, signed, finish, directive, format_round,
}
use quick_comm.Public.Format.Digits.{Spells, value, char_value}
use quick_comm.Public.Format.Room.{padded, sprintf_num-Spells}
use quick_comm.Public.Format.Pieces.{
  Shape, as_signed, as_unsigned, as_low, as_up, letters, AreDigits, pad_of, width_of, ShowsNumber,
  ShowsSigned, ShowsInteger,
}

pub next_digit :
    (m c : ℕ)
    → is_digit c ≡ true
    → (m % 2 ^ 64 * 10 + (c - b'0')) % 2 ^ 64 ≡ (m * 10 + char_value c) % 2 ^ 64
next_digit m c h = ground arith

-- A number in the format is read up to the first character that is not a digit.
pub read_number-digits :
    (m : ℕ) (w : ByteList) (c : ℕ) (r : ByteList)
    → AreDigits w
    → is_digit c ≡ false
    → read_number (m % 2 ^ 64) (w ++ (c ∷ r)) ≡ (value 10 m w % 2 ^ 64, c ∷ r)
unfolding read_number
read_number-digits m [] c r h stop = simp stop refl
read_number-digits m (d ∷ w) c r (h, hs) stop = simp h (
    ap (λ n. read_number n (w ++ (c ∷ r))) (next_digit m d h)
    ∙ read_number-digits (m * 10 + char_value d) w c r hs stop)

get_or-front :
    (w : ByteList) (c : ℕ) (r : ByteList)
    → (c == b'0') ≡ false
    → (get_or (w ++ (c ∷ r)) 0 0 == b'0') ≡ (get_or w 0 0 == b'0')
get_or-front [] c r h = h
get_or-front (d ∷ w) c r h = refl

module _ {F : Type 0} (doubles : Doubles F) where
  -- What a directive does behind its width.
  pub directive-width :
      (room : ℕ) (w : ByteList) (c : ℕ) (r fmt : ByteList) (args : List (Arg F))
      → AreDigits w
      → is_digit c ≡ false
      → (c == b'0') ≡ false
      → directive doubles room ((w ++ (c ∷ r)) ++ fmt) args
        ≡ finish doubles room args (read_flags (new_style (pad_of w) (width_of w)) (c ∷ (r ++ fmt)))
  unfolding directive
  directive-width room w c r fmt args h stop other =
      rw
        (
          append_assoc w (c ∷ r) fmt,
          read_number-digits 0 w c (r ++ fmt) h stop,
          get_or-front w c (r ++ fmt) other,
        )
        refl

  -- What a conversion writes: `t`, as far as there is room, with no other change.
  abbrev pub Puts : (ℕ → ByteList → List (Arg F) → Written F) → ByteList → Type 0
  Puts conversion t =
      (room : ℕ) (fmt : ByteList) (args : List (Arg F))
      → conversion (suc room) fmt args ≡ some (take (suc room) t, fmt, args)

  pub number-Puts :
      (y : Style) (n : ℕ)
      → n < 2 ^ 64
      → (t : ByteList) × ShowsNumber y.zero_char y.width y.hex n t
        × Puts (λ room. number room y n) t
  number-Puts y n h =
      let (ds, spells, writes) = sprintf_num-Spells n y.zero_char y.hex y.width h in
      let t = padded y.zero_char y.width ds in
      (t, (ds, spells, refl), λ room fmt args. rw (writes (suc room)) refl)

  one_less : (room : ℕ) → suc room - 1 ≡ room
  one_less room = omega arith

  pub signed-Puts :
      (z width i64 : ℕ)
      → i64 < 2 ^ 64
      → (t : ByteList) × ShowsSigned (2 ^ 63) z width i64 t
        × Puts (λ room. signed room (new_style z width) i64) t
  unfolding signed
  signed-Puts z width i64 h = elim (Bool-cases (leb (2 ^ 63) i64)) [
    | inl negative ↦
        let (ds, spells, writes) =
          sprintf_num-Spells (2 ^ 64 - i64) z 0 width (ground (arith, negative)) in
        let small : (2 ^ 64 - i64) % 2 ^ 64 ≡ 2 ^ 64 - i64 = ground (arith, negative) in
        (
          b'-' ∷ padded z width ds,
          inr (ground (arith, negative), (ds, spells, refl)),
          λ room fmt args. simp negative (rw (one_less room, small, writes room) refl),
        )
    | inr positive ↦
        let (t, shows, puts) = number-Puts (new_style z width) i64 h in
        (
          t,
          inl (ground (arith, positive), shows),
          λ room fmt args. simp positive (puts room fmt args),
        )
  ]

  -- An int is shown by its own 32 bits.
  pub narrow-ShowsSigned :
      (z width n : ℕ) (t : ByteList)
      → n < 2 ^ 32
      → ShowsSigned (2 ^ 63) z width (sign_extend n) t
      → ShowsSigned (2 ^ 31) z width n t
  narrow-ShowsSigned z width n t h (inl (l, shows)) =
      let low : n < 2 ^ 31 = ground (arith, h, l) in
      let same : sign_extend n ≡ n = ground (arith, low) in
      inl (low, subst (λ x. ShowsNumber z width 0 x t) same shows)
  narrow-ShowsSigned z width n t h (inr (g, (ds, spells, q))) =
      let high : 2 ^ 31 ≤ n = ground (arith, h, g) in
      let size : 2 * 2 ^ 63 - sign_extend n ≡ 2 * 2 ^ 31 - n = ground (arith, high) in
      inr (high, (ds, subst (λ x. Spells 0 x ds) size spells, q))

  -- A directive with its width; behind it stands `c`, whose flags and conversion are `conversion`.
  module _ (w : ByteList) (c : ℕ) (r : ByteList)
      (conversion : ℕ → ByteList → List (Arg F) → Written F) (given : List (Arg F))
      (h : AreDigits w) (stop : is_digit c ≡ false) (other : (c == b'0') ≡ false)
      (reads : (room : ℕ) (fmt : ByteList) (args : List (Arg F))
        → finish doubles room
            (given ++ args)
            (read_flags (new_style (pad_of w) (width_of w)) (c ∷ (r ++ fmt)))
          ≡ conversion room fmt args) where
    pub round-Puts :
        (t : ByteList)
        → Puts conversion t
        → Puts
            (λ room fmt args.
              format_round doubles room b'%' ((w ++ (c ∷ r)) ++ fmt) (given ++ args))
            t
    round-Puts t puts room fmt args =
        directive-width (suc room) w c r fmt (given ++ args) h stop other
        ∙ reads (suc room) fmt args
        ∙ puts room fmt args

  -- %d, %i and %L: `c` is the letter, `i` the number with its sign in 64 bits.
  module _ (w : ByteList) (c n i half : ℕ) (given : List (Arg F)) (h : AreDigits w)
      (stop : is_digit c ≡ false) (other : (c == b'0') ≡ false) (a : n < 2 ^ 64) (b : i < 2 ^ 64)
      (narrow : (t : ByteList)
        → ShowsSigned (2 ^ 63) (pad_of w) (width_of w) i t
        → ShowsSigned half (pad_of w) (width_of w) n t)
      (reads : (room : ℕ) (fmt : ByteList) (args : List (Arg F)) (y : Style)
        → finish doubles room (given ++ args) (read_flags y (c ∷ fmt))
          ≡ (if y.sign then signed room y i fmt args else number room y n fmt args)) where
    unsigned-Puts :
        (flag hexadecimal : ℕ)
        → is_digit flag ≡ false
        → (flag == b'0') ≡ false
        → let y = record (new_style (pad_of w) (width_of w)) { hex = hexadecimal; sign = false } in
          ((room : ℕ) (fmt : ByteList)
            → read_flags (new_style (pad_of w) (width_of w)) (flag ∷ (c ∷ fmt))
              ≡ read_flags y (c ∷ fmt))
          → (t : ByteList) × ShowsNumber (pad_of w) (width_of w) hexadecimal n t
            × Puts
                (λ room fmt args.
                  format_round doubles room b'%' ((w ++ (flag ∷ (c ∷ []))) ++ fmt) (given ++ args))
                t
    unsigned-Puts flag hexadecimal s o flags =
        let y = record (new_style (pad_of w) (width_of w)) { hex = hexadecimal; sign = false } in
        let (t, shows, puts) = number-Puts y n a in
        (
          t,
          shows,
          round-Puts w flag (c ∷ []) (λ room. number room y n) given h s o
              (λ room fmt args.
                ap (finish doubles room (given ++ args)) (flags room fmt) ∙ reads room fmt args y)
              t puts,
        )

    pub integer-Puts :
        (shape : Shape)
        → (t : ByteList) × ShowsInteger half shape w n t
          × Puts
              (λ room fmt args.
                format_round doubles room b'%'
                  ((w ++ (letters shape ++ (c ∷ []))) ++ fmt)
                  (given ++ args))
              t
    unfolding read_flags
    integer-Puts as_signed =
        let (t, shows, puts) = signed-Puts (pad_of w) (width_of w) i b in
        (
          t,
          narrow t shows,
          round-Puts w c [] (λ room. signed room (new_style (pad_of w) (width_of w)) i) given h stop
              other (λ room fmt args. reads room fmt args (new_style (pad_of w) (width_of w))) t
              puts,
        )
    integer-Puts as_unsigned = unsigned-Puts b'u' 0 refl refl (λ room fmt. refl)
    integer-Puts as_low = unsigned-Puts b'x' 1 refl refl (λ room fmt. refl)
    integer-Puts as_up = unsigned-Puts b'X' 2 refl refl (λ room fmt. refl)
