-- ===== src/Public/Config/Tests.antt =====
-- A small configuration, loaded and looked up.
use quick_comm.Base.{
  ℕ, ◌<◌, ◌≡◌, ◌⊎◌, refl, ap, true, List, [], ◌∷◌, ◌++◌, some, none, All, get_or, codes, arith,
}
use quick_comm.Base.Int.{pos, negsuc, ◌-ℤ◌}
use quick_comm.Public.Trim.{rtrim, ltrim}
use quick_comm.Public.Config.{Item, load, get_string, get_int_default, atoi}
use quick_comm.Public.Config.Lines.{ends-NoTrail, IsPlain, IsEntry}
use quick_comm.Public.Config.Load.{
  Line, entry, comment, section, empty, print, items_of, IsLine, load-print,
}
use quick_comm.Public.Config.Lookup.{HasName, HasOther, lookups-First}

small_file :
    load
      (some
        (codes "# log\nLog=error.log \n[Net]\n\n ListenPort=1\nListenPort0 = 8 0\r\nFlood = -7"))
      []
    ≡ some (
      true,
      record { name = codes "Log"; content = codes "error.log" }
          ∷ record { name = codes "ListenPort0"; content = codes "8 0" }
          ∷ record { name = codes "Flood"; content = codes "-7" }
          ∷ [],
    )
unfolding load rtrim ltrim
small_file = refl

-- 50 characters before the sign leave no zero in ItemName.
long_name : load (some (codes "aaaaaaaaaabbbbbbbbbbccccccccccddddddddddeeeeeeeeee=1")) [] ≡ none
unfolding load rtrim ltrim
long_name = refl

abbrev items : List Item
items =
    record { name = codes "Log"; content = codes "a" }
    ∷ record { name = codes "Flood"; content = codes " -7x" }
    ∷ []

found :
    (get_string (codes "FLOOD") items ≡ some (codes " -7x"))
    × (get_int_default (codes "flood") (pos 5) items ≡ some (negsuc 6))
unfolding get_string get_int_default ◌-ℤ◌
found = (refl, refl)

-- "Log = a" between a comment and a section
abbrev lines : List Line
lines = comment b'#' [] ∷ entry b'L' (b'o' ∷ b'g' ∷ []) 1 1 [] b'a' [] ∷ section [] ∷ empty ∷ []

plain : (c : ℕ) → 10 < c → IsPlain c
plain c h = (λ e. omega (arith, h, e), λ e. omega (arith, h, e))

log-IsEntry : IsEntry b'L' (b'o' ∷ b'g' ∷ []) 1 [] b'a' []
log-IsEntry = record {
  begins = refl;
  no_section = refl;
  no_sign = ((λ e. omega (arith, e)), ((λ e. omega (arith, e)), ((λ e. omega (arith, e)), tt)));
  name_ends = ends-NoTrail (b'L' ∷ b'o' ∷ []) b'g' refl;
  name_fits = omega arith;
  content_begins = λ u e. omega (arith, ap (λ l. get_or l 0 0) e);
  content_ends = refl;
  blanks = tt;
}

lines-IsLine : All IsLine lines
lines-IsLine = (
  record { good = refl; plain = (plain b'#' (omega arith), tt); fits = omega arith },
  (
    record {
      good = log-IsEntry;
      plain = (
        plain b'L' (omega arith),
        (
          plain b'o' (omega arith),
          (
            plain b'g' (omega arith),
            (
              plain b' ' (omega arith),
              (
                plain b'=' (omega arith),
                (plain b' ' (omega arith), (plain b'a' (omega arith), tt)),
              ),
            ),
          ),
        ),
      );
      fits = omega arith;
    },
    (
      record { good = tt; plain = (plain b'[' (omega arith), tt); fits = omega arith },
      (record { good = tt; plain = tt; fits = omega arith }, tt),
    ),
  ),
)

load-print_example : load (some (print lines)) [] ≡ some (true, [] ++ items_of lines)
load-print_example = load-print lines [] lines-IsLine

lookups-First_example :
    (All (HasOther (codes "flood")) items
      × (get_string (codes "flood") items ≡ none)
      × (get_int_default (codes "flood") (pos 5) items ≡ some (pos 5)))
    ⊎ ((xs : List Item) × (it : Item) × (ys : List Item) × (items ≡ xs ++ (it ∷ ys))
        × All (HasOther (codes "flood")) xs
        × HasName (codes "flood") it
        × (get_string (codes "flood") items ≡ some it.content)
        × (get_int_default (codes "flood") (pos 5) items ≡ atoi it.content))
lookups-First_example = lookups-First (codes "flood") (pos 5) items
