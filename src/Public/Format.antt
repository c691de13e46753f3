-- ===== src/Public/Format.antt =====
-- public/qc_printf.cc: the formatted output of the log. Memory between `buf` and `last` is a
-- number, the room that is left; a function returns the bytes that it writes at `buf`, and none
-- where the code would leave its array, the format or the arguments. A format and a string are
-- the characters before their terminating zero. An integer argument is what stands in its 32 or
-- 64 bits. The operations of the processor on a double are a parameter.
pub mod Bounds
pub mod Digits
pub mod Room
pub mod Pieces
mod Tests
use Prim.Native.Nat.{bit_and}
use quick_comm.Base.{
  ℕ, zero, suc, ◌+◌, ◌-◌, ◌*◌, ◌/◌, ◌%◌, ◌^◌, ◌<◌, Bool, true, false, ◌&&◌, ◌||◌, List, [], ◌∷◌,
  ◌++◌, Option, none, some, ltb, leb, ◌==◌, if◌then◌else◌, length, get_or, take, ◌>>=◌,
}

-- A text that is spelled by its characters
abbrev pub ByteList : Type 0
ByteList = List ℕ

-- QC_INT64_LEN
abbrev pub int64_len : ℕ
int64_len = 20

abbrev pub max_uint32_value : ℕ
max_uint32_value = 0xffff_ffff

-- hex and HEX
abbrev pub hex_low : ByteList
hex_low =
    b'0' ∷ b'1' ∷ b'2' ∷ b'3' ∷ b'4' ∷ b'5' ∷ b'6' ∷ b'7' ∷ b'8' ∷ b'9' ∷ b'a' ∷ b'b' ∷ b'c' ∷ b'd'
    ∷ b'e' ∷ b'f' ∷ []

abbrev pub hex_up : ByteList
hex_up =
    b'0' ∷ b'1' ∷ b'2' ∷ b'3' ∷ b'4' ∷ b'5' ∷ b'6' ∷ b'7' ∷ b'8' ∷ b'9' ∷ b'A' ∷ b'B' ∷ b'C' ∷ b'D'
    ∷ b'E' ∷ b'F' ∷ []

-- do *--p = digit(n); while (n /= base); with the bytes of temp below p left, and those from p on
digit_loop : (ℕ → ℕ) → ℕ → ℕ → ℕ → ByteList → Option ByteList
digit_loop digit base zero n p = none
digit_loop digit base (suc below) n p =
    let q = digit n ∷ p in
    let rest = digit_loop digit base below (n / base) q in if n / base == 0 then some q else rest

abbrev pub decimal_digit : ℕ → ℕ
decimal_digit n = n % 10 + b'0'

abbrev pub low_digit : ℕ → ℕ
low_digit n = get_or hex_low (bit_and n 0xf) 0

abbrev pub up_digit : ℕ → ℕ
up_digit n = get_or hex_up (bit_and n 0xf) 0

-- The digits in temp, by the base that `hexadecimal` asks for
unfoldable pub temp_digits : ℕ → ℕ → Option ByteList
unfolding digit_loop
temp_digits ui64 hexadecimal =
    if hexadecimal == 0
    then if leb ui64 max_uint32_value
      then digit_loop decimal_digit 10 int64_len (ui64 % 2 ^ 32) []
      else digit_loop decimal_digit 10 int64_len ui64 []
    else if hexadecimal == 1
    then digit_loop low_digit 16 int64_len ui64 []
    else digit_loop up_digit 16 int64_len ui64 []

-- while (len++ < width && buf < last) *buf++ = zero;
pad_loop : ℕ → ℕ → ℕ → ℕ → ByteList
pad_loop zero len width z = []
pad_loop (suc room) len width z = elim (ltb len width) [
  | true ↦ z ∷ pad_loop room (suc len) width z
  | false ↦ []
]

-- What is written of the digits: all of them, or as many as there is room for.
abbrev pub fitting : ℕ → ByteList → ByteList
fitting room digits = take (if leb room (length digits) then room else length digits) digits

-- qc_sprintf_num
unfoldable pub sprintf_num : ℕ → ℕ → ℕ → ℕ → ℕ → Option ByteList
unfolding pad_loop temp_digits
sprintf_num room ui64 z hexadecimal width = do
  digits ← temp_digits ui64 hexadecimal
  let padding = pad_loop room (length digits) width z
  some (padding ++ fitting (room - length padding) digits)

-- What the code does with a double: f < 0, -f, (uint64_t) (int64_t) f, and
-- (uint64_t) ((f - (double) ui64) * scale + 0.5)
pub record Doubles (F : Type 0) : Type 0 where
  pub is_negative : F → Bool
  pub negated : F → F
  pub whole : F → ℕ
  pub fraction : F → ℕ → ℕ → ℕ
  pub whole-lt : (f : F) → whole f < 2 ^ 64
  pub fraction-lt : (f : F) (ui64 scale : ℕ) → fraction f ui64 scale < 2 ^ 64

pub data Arg (F : Type 0) : Type 0 where
  word32 : ℕ → Arg F
  word64 : ℕ → Arg F
  string : ByteList → Arg F
  double : F → Arg F

-- (uint64_t) (int64_t) of an int
abbrev pub sign_extend : ℕ → ℕ
sign_extend n = if ltb n (2 ^ 31) then n else n + (2 ^ 64 - 2 ^ 32)

-- The variables that %… sets, for one directive
pub record Style : Type 0 where
  pub zero_char : ℕ
  pub width : ℕ
  pub sign : Bool
  pub hex : ℕ
  pub frac_width : ℕ

-- The start of a directive
abbrev pub new_style : ℕ → ℕ → Style
new_style z width = record { zero_char = z; width = width; sign = true; hex = 0; frac_width = 0 }

abbrev pub is_digit : ℕ → Bool
is_digit c = leb b'0' c && leb c b'9'

-- while (*fmt >= '0' && *fmt <= '9') n = n * 10 + (*fmt++ - '0');
unfoldable pub read_number : ℕ → ByteList → ℕ × ByteList
read_number n [] = (n, [])
read_number n (c ∷ fmt) =
    if is_digit c then read_number ((n * 10 + (c - b'0')) % 2 ^ 64) fmt else (n, c ∷ fmt)

-- for ( ;; ) switch (*fmt)
unfoldable pub read_flags : Style → ByteList → Style × ByteList
unfolding read_number
read_flags y [] = (y, [])
read_flags y (c ∷ fmt) =
    if c == b'u'
    then read_flags (record y { sign = false }) fmt
    else if c == b'X'
    then read_flags (record y { hex = 2; sign = false }) fmt
    else if c == b'x'
    then read_flags (record y { hex = 1; sign = false }) fmt
    else if c == b'.'
    then (let (n, rest) = read_number 0 fmt in (record y { frac_width = n }, rest))
    else (y, c ∷ fmt)

-- What a directive writes, and the format and the arguments behind it.
abbrev pub Written : Type 0 → Type 0
Written F = Option (ByteList × ByteList × List (Arg F))

-- The end of a directive with a number: fmt++ stands in what it is given.
abbrev pub number : {F : Type 0} → ℕ → Style → ℕ → ByteList → List (Arg F) → Written F
number room y ui64 fmt args = do
  bytes ← sprintf_num room ui64 y.zero_char y.hex y.width
  some (bytes, fmt, args)

-- The numbers with a sign: i64 is in two's complement.
unfoldable pub signed : {F : Type 0} → ℕ → Style → ℕ → ByteList → List (Arg F) → Written F
signed room y i64 fmt args =
    if leb (2 ^ 63) i64
    then (sprintf_num (room - 1) ((2 ^ 64 - i64) % 2 ^ 64) y.zero_char y.hex y.width >>= λ bytes.
        some (b'-' ∷ bytes, fmt, args))
    else number room y i64 fmt args

-- *p && buf < last
unfoldable pub copy_string : ℕ → ByteList → ByteList
copy_string zero p = []
copy_string (suc room) [] = []
copy_string (suc room) (c ∷ p) = c ∷ copy_string room p

-- for (n = frac_width; n; n--) scale *= 10;
unfoldable pub scale_loop : ℕ → ℕ → ℕ
scale_loop zero scale = scale
scale_loop (suc n) scale = scale_loop n (scale * 10 % 2 ^ 64)

-- The integer part and the decimals that %f shows
abbrev pub carried : ℕ → ℕ → ℕ → ℕ × ℕ
carried ui64 frac scale = if frac == scale then ((ui64 + 1) % 2 ^ 64, 0) else (ui64, frac)

-- if (buf < last) *buf++ = '.';
abbrev pub point_of : ℕ → ByteList
point_of left = if ltb 0 left then b'.' ∷ [] else []

-- The two calls of qc_sprintf_num for %f, with the point between them.
unfoldable pub shown_parts : ℕ → Style → ℕ × ℕ → Option ByteList
shown_parts room y (ui64, frac) = do
  bytes ← sprintf_num room ui64 y.zero_char 0 y.width
  let left = room - length bytes
  let point = point_of left
  let decimals = sprintf_num (left - length point) frac b'0' 0 y.frac_width
  if y.frac_width == 0 then some bytes else decimals >>= λ more. some (bytes ++ (point ++ more))

module _ {F : Type 0} (doubles : Doubles F) where
  abbrev pub parts : ℕ → F → ℕ × ℕ
  parts frac_width f =
      let ui64 = doubles.whole f in
      let scale = scale_loop frac_width 1 in
      if frac_width == 0 then (ui64, 0) else carried ui64 (doubles.fraction f ui64 scale) scale

  -- %f when the sign is written
  unfoldable pub unsigned_double : ℕ → Style → F → Option ByteList
  unfolding scale_loop shown_parts
  unsigned_double room y f = shown_parts room y (parts y.frac_width f)

  -- case 'f'
  unfoldable pub write_double : ℕ → Style → F → Option ByteList
  unfolding unsigned_double
  write_double room y f =
      if doubles.is_negative f
      then (unsigned_double (room - 1) y (doubles.negated f) >>= λ bytes. some (b'-' ∷ bytes))
      else unsigned_double room y f

  -- The cases of switch (*fmt) that take an argument; `c` is *fmt and `fmt` what is behind it.
  unfoldable pub convert : ℕ → Style → ℕ → ByteList → List (Arg F) → Written F
  unfolding signed write_double copy_string
  convert room y c fmt (word32 n ∷ args) =
      if c == b'd'
      then if y.sign then signed room y (sign_extend n) fmt args else number room y n fmt args
      else if c == b'P'
      then signed room y (sign_extend n) fmt args
      else none
  convert room y c fmt (word64 n ∷ args) =
      if c == b'i' || c == b'L'
      then if y.sign then signed room y n fmt args else number room y n fmt args
      else if c == b'p'
      then number room (record y { hex = 2; zero_char = b'0'; width = 16 }) n fmt args
      else none
  convert room y c fmt (string p ∷ args) =
      if c == b's' then some (copy_string room p, fmt, args) else none
  convert room y c fmt (double f ∷ args) =
      if c == b'f' then (write_double room y f >>= λ bytes. some (bytes, fmt, args)) else none
  convert room y c fmt [] = none

  abbrev pub takes_arg : ℕ → Bool
  takes_arg c =
      c == b'd' || c == b'i' || c == b'L' || c == b'p' || c == b's' || c == b'P' || c == b'f'

  -- switch (*fmt). A '%' at the end makes the code step over the zero that ends the format, and
  -- read on.
  unfoldable pub finish : ℕ → List (Arg F) → Style × ByteList → Written F
  unfolding convert
  finish room args (y, []) = none
  finish room args (y, c ∷ rest) =
      if takes_arg c then convert room y c rest args else some (c ∷ [], rest, args)

  -- A round for the format behind a '%'
  unfoldable pub directive : ℕ → ByteList → List (Arg F) → Written F
  unfolding read_flags finish
  directive room fmt args =
      let z = if get_or fmt 0 0 == b'0' then b'0' else b' ' in
      let (width, behind_width) = read_number 0 fmt in
      finish room args (read_flags (new_style z width) behind_width)

  -- The body of the loop, for *fmt and what is behind it
  abbrev pub format_round : ℕ → ℕ → ByteList → List (Arg F) → Written F
  format_round room c fmt args =
      if c == b'%' then directive room fmt args else some (c ∷ [], fmt, args)

  -- while (*fmt && buf < last)
  unfoldable pub format_loop : ℕ → ℕ → ByteList → List (Arg F) → Option ByteList
  unfolding directive
  format_loop fuel room [] args = some []
  format_loop fuel zero (c ∷ fmt) args = some []
  format_loop zero (suc room) (c ∷ fmt) args = none
  format_loop (suc fuel) (suc room) (c ∷ fmt) args = do
    (out, rest, args') ← format_round (suc room) c fmt args
    more ← format_loop fuel (suc room - length out) rest args'
    some (out ++ more)

  -- qc_vslprintf: every round takes a character of the format at least.
  unfoldable pub vslprintf : ℕ → ByteList → List (Arg F) → Option ByteList
  unfolding format_loop sprintf_num
  vslprintf room fmt args = format_loop (length fmt) room fmt args

  -- qc_snprintf: `max` bytes from buf on
  unfoldable pub snprintf : ℕ → ByteList → List (Arg F) → Option ByteList
  snprintf max fmt args = vslprintf max fmt args

  -- qc_slprintf, for addresses
  unfoldable pub slprintf : ℕ → ℕ → ByteList → List (Arg F) → Option ByteList
  slprintf buf last fmt args = vslprintf (last - buf) fmt args
