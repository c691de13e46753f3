-- ===== src/Public/Config/Load.antt =====
-- Loading a file that was written line by line.
use quick_comm.Base.{
  ℕ, zero, suc, ◌≤◌, ◌<◌, ◌≡◌, refl, sym, ap, ◌∙◌, false, true, List, [], ◌∷◌, ◌++◌, some, length,
  length-append, get_or, take, All, Bool-cases, inl, inr, arith,
}
use quick_comm.Public.Config.{
  Item, line_size, fgets, c_string, is_blank, strip_loop, is_comment, stripped_items, line_items,
  load_loop, load,
}
use quick_comm.Public.Config.Lines.{
  IsPlain, IsEntry, entry_text, fgets-line, c_string-plain, line_items-entry, line_items_step,
}

-- What a configuration is written from. Of a section only the text behind its bracket is given.
pub data Line : Type 0 where
  entry : ℕ → List ℕ → ℕ → ℕ → List ℕ → ℕ → List ℕ → Line
  comment : ℕ → List ℕ → Line
  section : List ℕ → Line
  empty : Line

abbrev pub text_of : Line → List ℕ
text_of (entry c n a b v d w) = entry_text c n a b v d w
text_of (comment c u) = c ∷ u
text_of (section u) = b'[' ∷ u
text_of empty = []

-- Each line with its newline
abbrev pub print : List Line → List ℕ
print [] = []
print (l ∷ ls) = text_of l ++ (b'\n' ∷ print ls)

-- The items that are meant: a name begins with `c`, and a content ends with `d`.
abbrev pub items_of : List Line → List Item
items_of [] = []
items_of (entry c n a b v d w ∷ ls) = record { name = c ∷ n; content = v ++ (d ∷ []) } ∷ items_of ls
items_of (comment c u ∷ ls) = items_of ls
items_of (section u ∷ ls) = items_of ls
items_of (empty ∷ ls) = items_of ls

abbrev pub IsGood : Line → Type 0
IsGood (entry c n a b v d w) = IsEntry c n a v d w
IsGood (comment c u) = is_comment c ≡ true
IsGood (section u) = Unit
IsGood empty = Unit

-- A line that data can hold
pub record IsLine (l : Line) : Type 0 where
  pub good : IsGood l
  pub plain : All IsPlain (text_of l)
  pub fits : length (text_of l) < line_size

strip_loop-front :
    (k c : ℕ) (s : List ℕ) → is_blank c ≡ false → (s' : List ℕ) × (strip_loop k (c ∷ s) ≡ c ∷ s')
unfolding strip_loop
strip_loop-front zero c s h = (s, refl)
strip_loop-front (suc zero) c s h = (s, simp h refl)
strip_loop-front (suc (suc k)) c s h = elim (Bool-cases (is_blank (get_or (c ∷ s) (suc k) 0))) [
  | inl cut ↦ let (s', e) = strip_loop-front (suc k) c (take k s) h in (s', simp cut e)
  | inr kept ↦ (s, simp kept refl)
]

bracket : (s : List ℕ) → stripped_items (b'[' ∷ s) ≡ some []
unfolding stripped_items
bracket s = refl

section-none : (u : List ℕ) → line_items ((b'[' ∷ u) ++ (b'\n' ∷ [])) ≡ some []
section-none u =
    let (s, e) =
      strip_loop-front (suc (length (u ++ (b'\n' ∷ [])))) b'[' (u ++ (b'\n' ∷ [])) refl in
    line_items_step b'[' _ refl ∙ ap stripped_items e ∙ bracket s

comment-none : (c : ℕ) (u : List ℕ) → is_comment c ≡ true → line_items (c ∷ u) ≡ some []
unfolding line_items
comment-none c u h = simp h refl

abbrev item_of : Line → List Item
item_of (entry c n a b v d w) = record { name = c ∷ n; content = v ++ (d ∷ []) } ∷ []
item_of _ = []

line_items-line : (l : Line) → IsGood l → line_items (text_of l ++ (b'\n' ∷ [])) ≡ some (item_of l)
line_items-line (entry c n a b v d w) h = line_items-entry c n a b v d w h
line_items-line (comment c u) h = comment-none c _ h
line_items-line (section u) h = section-none u
line_items-line empty h = comment-none b'\n' [] refl

items_of-cons : (l : Line) (ls : List Line) → items_of (l ∷ ls) ≡ item_of l ++ items_of ls
items_of-cons (entry c n a b v d w) ls = refl
items_of-cons (comment c u) ls = refl
items_of-cons (section u) ls = refl
items_of-cons empty ls = refl

loop_round :
    (fuel c : ℕ) (file line rest : List ℕ) (items more : List Item)
    → fgets line_size (c ∷ file) ≡ (line, rest)
    → line_items (c_string line) ≡ some items
    → load_loop fuel rest ≡ some more
    → load_loop (suc fuel) (c ∷ file) ≡ some (items ++ more)
unfolding load_loop
loop_round fuel c file line rest items more e f g = rw e (rw f (rw g refl))

loop_step :
    (fuel : ℕ) (u rest : List ℕ) (items more : List Item)
    → All IsPlain u
    → length u < line_size
    → line_items (u ++ (b'\n' ∷ [])) ≡ some items
    → load_loop fuel rest ≡ some more
    → load_loop (suc fuel) (u ++ (b'\n' ∷ rest)) ≡ some (items ++ more)
loop_step fuel [] rest items more p l e f =
    loop_round fuel b'\n' rest (b'\n' ∷ []) rest items more (fgets-line line_size [] rest p l)
      (ap line_items (c_string-plain [] p) ∙ e) f
loop_step fuel (c ∷ u) rest items more p l e f =
    loop_round fuel c (u ++ (b'\n' ∷ rest)) ((c ∷ u) ++ (b'\n' ∷ [])) rest items more
      (fgets-line line_size (c ∷ u) rest p l) (ap line_items (c_string-plain (c ∷ u) p) ∙ e) f

load_loop-print :
    (ls : List Line) (fuel : ℕ)
    → All IsLine ls
    → length (print ls) ≤ fuel
    → load_loop fuel (print ls) ≡ some (items_of ls)
unfolding load_loop
load_loop-print [] fuel h l = refl
load_loop-print (x ∷ ls) zero h l =
    absurd (omega (arith, l, length-append (text_of x) (b'\n' ∷ print ls)))
load_loop-print (x ∷ ls) (suc fuel) (h, hs) l =
    loop_step fuel (text_of x) (print ls) (item_of x) (items_of ls) h.plain h.fits
      (line_items-line x h.good)
      (load_loop-print ls fuel hs (omega (arith, l, length-append (text_of x) (b'\n' ∷ print ls))))
    ∙ ap some (sym (items_of-cons x ls))

-- A file that is written line by line is read back: CConfig::Load adds the name and the content of
-- every entry, in order and without the blanks around them, and nothing for comments, sections and
-- empty lines.
pub load-print :
    (ls : List Line) (list : List Item)
    → All IsLine ls
    → load (some (print ls)) list ≡ some (true, list ++ items_of ls)
unfolding load
load-print ls list h = rw (load_loop-print ls (length (print ls)) h (omega arith)) refl
