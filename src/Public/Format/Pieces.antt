-- ===== src/Public/Format/Pieces.antt =====
-- What qc_vslprintf promises: a format is a list of pieces, and each piece has a text.
pub mod Integer
pub mod Lengths
pub mod Real
pub mod Render
use quick_comm.Base.{
  ℕ, zero, suc, ◌+◌, ◌-◌, ◌*◌, ◌%◌, ◌^◌, ◌≤◌, ◌<◌, ◌≡◌, ◌≢◌, true, List, [], ◌∷◌, ◌++◌, ◌==◌,
  if◌then◌else◌, ◌⊎◌, get_or, All,
}
use quick_comm.Public.Format.{
  ByteList, Doubles, Arg, word32, word64, string, double, is_digit, parts,
}
use quick_comm.Public.Format.Digits.{Spells, value}
use quick_comm.Public.Format.Room.{padded}

-- The letters in front of an integer directive: none, u, x or X
pub data Shape : Type 0 where
  as_signed as_unsigned as_low as_up : Shape

-- A character, %%, %d, %i, %L, %P, %p, %s and %f, the numbers with the digits of their width.
pub data Piece (F : Type 0) : Type 0 where
  literal : ℕ → Piece F
  percent : Piece F
  int : ByteList → Shape → ℕ → Piece F
  long : ByteList → Shape → ℕ → Piece F
  int64 : ByteList → Shape → ℕ → Piece F
  pid : ByteList → ℕ → Piece F
  pointer : ℕ → Piece F
  text : ByteList → Piece F
  real : ByteList → ByteList → F → Piece F

abbrev pub letters : Shape → ByteList
letters as_signed = []
letters as_unsigned = b'u' ∷ []
letters as_low = b'x' ∷ []
letters as_up = b'X' ∷ []

abbrev pub base_code : Shape → ℕ
base_code as_low = 1
base_code as_up = 2
base_code _ = 0

module _ {F : Type 0} where
  -- The format of a piece: its first character, and the others
  abbrev pub first_of : Piece F → ℕ
  first_of (literal c) = c
  first_of _ = b'%'

  abbrev pub rest_of : Piece F → ByteList
  rest_of (literal c) = []
  rest_of percent = b'%' ∷ []
  rest_of (int w shape n) = w ++ (letters shape ++ (b'd' ∷ []))
  rest_of (long w shape n) = w ++ (letters shape ++ (b'i' ∷ []))
  rest_of (int64 w shape n) = w ++ (letters shape ++ (b'L' ∷ []))
  rest_of (pid w n) = w ++ (b'P' ∷ [])
  rest_of (pointer n) = b'p' ∷ []
  rest_of (text t) = b's' ∷ []
  rest_of (real w d f) = w ++ (b'.' ∷ (d ++ (b'f' ∷ [])))

  abbrev pub format_of : Piece F → ByteList
  format_of p = first_of p ∷ rest_of p

  abbrev pub args_of : Piece F → List (Arg F)
  args_of (literal c) = []
  args_of percent = []
  args_of (int w shape n) = word32 n ∷ []
  args_of (long w shape n) = word64 n ∷ []
  args_of (int64 w shape n) = word64 n ∷ []
  args_of (pid w n) = word32 n ∷ []
  args_of (pointer n) = word64 n ∷ []
  args_of (text t) = string t ∷ []
  args_of (real w d f) = double f ∷ []

  abbrev pub formats : List (Piece F) → ByteList
  formats [] = []
  formats (p ∷ ps) = format_of p ++ formats ps

  abbrev pub all_args : List (Piece F) → List (Arg F)
  all_args [] = []
  all_args (p ∷ ps) = args_of p ++ all_args ps

abbrev pub AreDigits : ByteList → Type 0
AreDigits w = All (λ c. is_digit c ≡ true) w

-- A piece that a program can write: widths are digits, and numbers fit their arguments.
abbrev pub IsPiece : {F : Type 0} → Piece F → Type 0
IsPiece (literal c) = c ≢ b'%'
IsPiece percent = Unit
IsPiece (int w shape n) = AreDigits w × (n < 2 ^ 32)
IsPiece (long w shape n) = AreDigits w × (n < 2 ^ 64)
IsPiece (int64 w shape n) = AreDigits w × (n < 2 ^ 64)
IsPiece (pid w n) = AreDigits w × (n < 2 ^ 32)
IsPiece (pointer n) = n < 2 ^ 64
IsPiece (text t) = Unit
IsPiece (real w d f) = AreDigits w × AreDigits d

-- What a width means: the padding character and the number, in 64 bits.
abbrev pub pad_of : ByteList → ℕ
pad_of w = if get_or w 0 0 == b'0' then b'0' else b' '

abbrev pub width_of : ByteList → ℕ
width_of w = value 10 0 w % 2 ^ 64

-- The text of a number in a base, padded on the left.
abbrev pub ShowsNumber : ℕ → ℕ → ℕ → ℕ → ByteList → Type 0
ShowsNumber z width hexadecimal n t =
    (ds : ByteList) × Spells hexadecimal n ds × (t ≡ padded z width ds)

-- The text of a two's complement number, with numbers below `half` not negative: the minus stands
-- before the padding.
abbrev pub ShowsSigned : ℕ → ℕ → ℕ → ℕ → ByteList → Type 0
ShowsSigned half z width n t =
    ((n < half) × ShowsNumber z width 0 n t)
    ⊎ ((half ≤ n) × ((ds : ByteList) × Spells 0 (2 * half - n) ds × (t ≡ b'-' ∷ padded z width ds)))

abbrev pub ShowsInteger : ℕ → Shape → ByteList → ℕ → ByteList → Type 0
ShowsInteger half as_signed w n t = ShowsSigned half (pad_of w) (width_of w) n t
ShowsInteger half shape w n t = ShowsNumber (pad_of w) (width_of w) (base_code shape) n t

-- The decimals of %f behind the text of the integer part
abbrev pub ShowsDecimals : ℕ → ℕ → ByteList → ByteList → Type 0
ShowsDecimals zero frac whole t = t ≡ whole
ShowsDecimals (suc n) frac whole t =
    (es : ByteList) × Spells 0 frac es × (t ≡ whole ++ (b'.' ∷ padded b'0' (suc n) es))

module _ {F : Type 0} (doubles : Doubles F) where
  abbrev pub minus_of : F → ByteList
  minus_of f = if doubles.is_negative f then b'-' ∷ [] else []

  abbrev pub size_of : F → F
  size_of f = if doubles.is_negative f then doubles.negated f else f

  abbrev pub ShowsReal : ByteList → ByteList → F → ByteList → Type 0
  ShowsReal w d f t =
      let (ui64, frac) = parts doubles (width_of d) (size_of f) in
      (ds : ByteList) × Spells 0 ui64 ds
      × ShowsDecimals (width_of d) frac (minus_of f ++ padded (pad_of w) (width_of w) ds) t

  -- The text of a piece
  abbrev pub Renders : Piece F → ByteList → Type 0
  Renders (literal c) t = t ≡ c ∷ []
  Renders percent t = t ≡ b'%' ∷ []
  Renders (int w shape n) t = ShowsInteger (2 ^ 31) shape w n t
  Renders (long w shape n) t = ShowsInteger (2 ^ 63) shape w n t
  Renders (int64 w shape n) t = ShowsInteger (2 ^ 63) shape w n t
  Renders (pid w n) t = ShowsSigned (2 ^ 31) (pad_of w) (width_of w) n t
  Renders (pointer n) t = ShowsNumber b'0' 16 2 n t
  Renders (text s) t = t ≡ s
  Renders (real w d f) t = ShowsReal w d f t

  -- A text for every piece, one behind the other.
  abbrev pub AllRender : List (Piece F) → ByteList → Type 0
  AllRender [] t = t ≡ []
  AllRender (p ∷ ps) t =
      (u : ByteList) × (v : ByteList) × Renders p u × AllRender ps v × (t ≡ u ++ v)
