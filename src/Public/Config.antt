-- ===== src/Public/Config.antt =====
-- public/qc_conf.cc and include/qc_conf.h: reading the configuration file, and looking names up.
-- A file is the list of its characters; strcasecmp, strchr and atoi are the C library's, for ASCII.
-- A function returns none where the code would leave an array or a number its type.
pub mod Lines
pub mod Load
pub mod Lookup
mod Tests
use quick_comm.Base.{
  ℕ, zero, suc, ◌+◌, ◌-◌, ◌*◌, ◌^◌, Bool, true, false, ◌&&◌, ◌||◌, List, [], ◌∷◌, ◌++◌, Option,
  none, some, ltb, leb, ◌==◌, if◌then◌else◌, length, get_or, take, ◌>>=◌, map,
}
use quick_comm.Base.Int.{ℤ, pos, ◌-ℤ◌}
use quick_comm.Public.Trim.{rtrim, ltrim}

-- CConfItem
pub record Item : Type 0 where
  pub name : List ℕ
  pub content : List ℕ

-- sizeof(ItemName)
abbrev pub name_size : ℕ
name_size = 50

-- The characters that fgets(data, 500, fp) takes at most
abbrev pub line_size : ℕ
line_size = 499

-- fgets: the characters up to a newline, and the rest of the file
unfoldable pub fgets : ℕ → List ℕ → List ℕ × List ℕ
fgets zero file = ([], file)
fgets (suc n) [] = ([], [])
fgets (suc n) (c ∷ file) =
    if c == b'\n' then (c ∷ [], file) else (let (front, rest) = fgets n file in (c ∷ front, rest))

-- The string in a line: the characters before the first zero
unfoldable pub c_string : List ℕ → List ℕ
c_string [] = []
c_string (c ∷ line) = if c == 0 then [] else c ∷ c_string line

-- 10, 13 and 32
abbrev pub is_blank : ℕ → Bool
is_blank c = c == 10 || c == 13 || c == 32

-- lblprocstring: drop the last character while it is blank.
unfoldable pub strip_loop : ℕ → List ℕ → List ℕ
strip_loop zero line = line
strip_loop (suc len) line =
    let shorter = strip_loop len (take len line) in
    if is_blank (get_or line len 0) then shorter else line

-- A line that starts with one of these is passed over: ; # space tab newline
abbrev pub is_comment : ℕ → Bool
is_comment c = c == b';' || c == b'#' || c == b' ' || c == b'\t' || c == b'\n'

-- strchr(data, '='): what is before the sign and behind it
unfoldable pub split_at_sign : List ℕ → Option (List ℕ × List ℕ)
split_at_sign [] = none
split_at_sign (c ∷ line) =
    let rest = split_at_sign line in
    if c == b'=' then some ([], line) else (rest >>= λ parts. some (c ∷ parts.0, parts.1))

-- The item of a line: strncpy has to leave a zero in ItemName.
unfoldable pub new_item : List ℕ → List ℕ → Option Item
new_item name content =
    if leb name_size (length name)
    then none
    else some (record { name = ltrim (rtrim name); content = ltrim (rtrim content) })

-- What a line adds to m_ConfigItemList, behind the cut of its end
unfoldable pub stripped_items : List ℕ → Option (List Item)
stripped_items [] = some []
stripped_items (c ∷ line) = if c == b'[' then some [] else elim (split_at_sign (c ∷ line)) [
  | none ↦ some []
  | some parts ↦ new_item parts.0 parts.1 >>= λ item. some (item ∷ [])
]

unfoldable pub line_items : List ℕ → Option (List Item)
line_items [] = some []
line_items (c ∷ line) =
    if is_comment c then some [] else stripped_items (strip_loop (length (c ∷ line)) (c ∷ line))

-- while (!feof(fp)): a call of fgets takes one character at least.
unfoldable pub load_loop : ℕ → List ℕ → Option (List Item)
load_loop fuel [] = some []
load_loop zero (c ∷ file) = none
load_loop (suc fuel) (c ∷ file) = do
  let (line, rest) = fgets line_size (c ∷ file)
  items ← line_items (c_string line)
  more ← load_loop fuel rest
  some (items ++ more)

-- CConfig::Load: what it returns, and m_ConfigItemList behind it; no file for a failed fopen.
unfoldable pub load : Option (List ℕ) → List Item → Option (Bool × List Item)
unfolding load_loop fgets c_string line_items strip_loop stripped_items split_at_sign new_item
load none list = some (false, list)
load (some file) list = load_loop (length file) file >>= λ items. some (true, list ++ items)

abbrev pub to_lower : ℕ → ℕ
to_lower c = if leb b'A' c && leb c b'Z' then c + 32 else c

-- strcasecmp(a, b) == 0
unfoldable pub same_name : List ℕ → List ℕ → Bool
same_name [] [] = true
same_name [] (d ∷ b) = false
same_name (c ∷ a) [] = false
same_name (c ∷ a) (d ∷ b) = (to_lower c == to_lower d) && same_name a b

-- CConfig::GetString
unfoldable pub get_string : List ℕ → List Item → Option (List ℕ)
unfolding same_name
get_string itemname [] = none
get_string itemname (it ∷ list) =
    if same_name itemname it.name then some it.content else get_string itemname list

-- isspace
abbrev pub is_space : ℕ → Bool
is_space c = (leb 9 c && leb c 13) || c == 32

unfoldable pub digits_value : ℕ → List ℕ → ℕ
digits_value n [] = n
digits_value n (c ∷ s) =
    if leb b'0' c && leb c b'9' then digits_value (n * 10 + (c - b'0')) s else n

-- atoi
unfoldable pub atoi : List ℕ → Option ℤ
unfolding digits_value
atoi [] = some (pos 0)
atoi (c ∷ s) =
    let behind = atoi s in
    if is_space c
    then behind
    else if c == b'-'
    then (if leb (digits_value 0 s) (2 ^ 31) then some (pos 0 -ℤ pos (digits_value 0 s)) else none)
    else (let n = if c == b'+' then digits_value 0 s else digits_value 0 (c ∷ s) in
        if ltb n (2 ^ 31) then some (pos n) else none)

-- CConfig::GetIntDefault
unfoldable pub get_int_default : List ℕ → ℤ → List Item → Option ℤ
unfolding same_name atoi
get_int_default itemname def [] = some def
get_int_default itemname def (it ∷ list) =
    if same_name it.name itemname then atoi it.content else get_int_default itemname def list
