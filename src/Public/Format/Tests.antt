-- ===== src/Public/Format/Tests.antt =====
-- Runs of the formatted output, on doubles that are hundredths with a sign.
use Prim.Native.String.{String}
use quick_comm.Base.{
  ℕ, ◌+◌, ◌-◌, ◌*◌, ◌/◌, ◌%◌, ◌^◌, ◌≡◌, refl, Bool, true, false, List, [], ◌∷◌, Option, some, none,
  arith, codes, ◌≤◌, length, take,
}
use quick_comm.Public.Format.Bounds.{vslprintf-length}
use quick_comm.Public.Format.Pieces.{
  Piece, int, literal, real, text, as_signed, AllRender, formats, all_args,
}
use quick_comm.Public.Format.Pieces.Render.{vslprintf-Renders}
use quick_comm.Public.Format.{Doubles, Arg, word32, word64, string, double, ByteList, vslprintf}

abbrev Hundredths : Type 0
Hundredths = Bool × ℕ

hundredths : Doubles Hundredths
hundredths = record {
  is_negative = λ f. f.0;
  negated = λ f. (false, f.1);
  whole = λ f. f.1 / 100 % 2 ^ 64;
  fraction = λ f ui64 scale. ((f.1 - ui64 * 100) * scale * 2 + 100) / 200 % 2 ^ 64;
  whole-lt = λ f. omega arith;
  fraction-lt = λ f ui64 scale. omega arith;
}

abbrev printed : ℕ → String → List (Arg Hundredths) → Option ByteList
printed room fmt args = vslprintf hundredths room (codes fmt) args

numbers :
    printed 100 "%d|%5d|%05d|%ud|%xd|%XL|%p" (
      word32 (2 ^ 32 - 7)
      ∷ word32 42
      ∷ word32 42
      ∷ word32 7
      ∷ word32 255
      ∷ word64 48879
      ∷ word64 4096
      ∷ [])
    ≡ some (codes "-7|   42|00042|7|ff|BEEF|0000000000001000")
unfolding vslprintf hundredths
numbers = refl

doubles :
    printed 100 "%.2f %.1f %f"
      (double (true, 1275) ∷ double (false, 1299) ∷ double (false, 399) ∷ [])
    ≡ some (codes "-12.75 13.0 3")
unfolding vslprintf hundredths
doubles = refl

cut : printed 8 "[%s] %d%%" (string (codes "alert") ∷ word32 100 ∷ []) ≡ some (codes "[alert] ")
unfolding vslprintf hundredths
cut = refl

percent_at_end : printed 10 "100%" [] ≡ none
unfolding vslprintf hundredths
percent_at_end = refl

-- "%05d: %.2f %s"
abbrev pieces : List (Piece Hundredths)
pieces =
    int (b'0' ∷ b'5' ∷ []) as_signed (2 ^ 32 - 42)
    ∷ literal b':'
    ∷ literal b' '
    ∷ real [] (b'2' ∷ []) (true, 1275)
    ∷ text (codes "ok")
    ∷ []

vslprintf-Renders_example :
    (t : ByteList) × AllRender hundredths pieces t
    × ((room : ℕ)
        → vslprintf hundredths room (formats pieces) (all_args pieces) ≡ some (take room t))
vslprintf-Renders_example =
    vslprintf-Renders hundredths pieces
      (((refl, (refl, tt)), omega arith), ((cc), ((cc), ((tt, (refl, tt)), (tt, tt)))))

vslprintf-length_example : length (codes "[alert] ") ≤ 8
vslprintf-length_example =
    vslprintf-length hundredths 8 (codes "[%s] %d%%") (codes "[alert] ")
      (string (codes "alert") ∷ word32 100 ∷ []) cut
