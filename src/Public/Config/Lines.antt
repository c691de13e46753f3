-- ===== src/Public/Config/Lines.antt =====
-- How one line of the configuration is read.
use quick_comm.Base.{
  ℕ, zero, suc, ◌+◌, ◌<◌, ◌≡◌, ◌≢◌, refl, sym, ap, ◌∙◌, false, true, List, [], ◌∷◌, ◌++◌, some,
  ◌==◌, leb, length, length-append, get_or, take-append_left, All, All-append, arith,
  length-replicate,
}
use mathlib.Core.List.{append_assoc, append-nil}
use quick_comm.Public.Trim.{space, rtrim, ltrim}
use quick_comm.Public.Trim.Padded.{rtrim-spaces, rtrim-NoTrail, ltrim-spaces}
use quick_comm.Public.Trim.Spaces.{spaces, NoLead, NoTrail, get_or-last}
use quick_comm.Public.Config.{
  Item, fgets, c_string, is_blank, strip_loop, is_comment, split_at_sign, new_item, stripped_items,
  line_items, name_size,
}

-- A character that can stand in a line
abbrev pub IsPlain : ℕ → Type 0
IsPlain c = (c ≢ b'\n') × (c ≢ 0)

pub fgets-line :
    (n : ℕ) (u rest : List ℕ)
    → All IsPlain u
    → length u < n
    → fgets n (u ++ (b'\n' ∷ rest)) ≡ (u ++ (b'\n' ∷ []), rest)
unfolding fgets
fgets-line zero u rest h l = absurd (omega (arith, l))
fgets-line (suc n) [] rest h l = refl
fgets-line (suc n) (c ∷ u) rest ((p, q), h) l =
    let other : (c == b'\n') ≡ false = ground (arith, p) in
    simp other (rw (fgets-line n u rest h (omega (arith, l))) refl)

pub c_string-plain : (u : List ℕ) → All IsPlain u → c_string (u ++ (b'\n' ∷ [])) ≡ u ++ (b'\n' ∷ [])
unfolding c_string
c_string-plain [] h = refl
c_string-plain (c ∷ u) ((p, q), h) =
    let other : (c == 0) ≡ false = ground (arith, q) in simp other (ap (◌∷◌ c) (c_string-plain u h))

-- lblprocstring on a whole line
abbrev pub stripped : List ℕ → List ℕ
stripped s = strip_loop (length s) s

longer : (s : List ℕ) (d : ℕ) → length (s ++ (d ∷ [])) ≡ suc (length s)
longer s d = omega (arith, length-append s (d ∷ []))

strip-blank : (s : List ℕ) (d : ℕ) → is_blank d ≡ true → stripped (s ++ (d ∷ [])) ≡ stripped s
unfolding strip_loop
strip-blank s d h =
    let last : is_blank (get_or (s ++ (d ∷ [])) (length s) 0) ≡ true =
      ap is_blank (get_or-last s d) ∙ h in
    rw (longer s d) (simp (last, take-append_left s (d ∷ []) (length s) refl) refl)

strip-solid : (s : List ℕ) (d : ℕ) → is_blank d ≡ false → stripped (s ++ (d ∷ [])) ≡ s ++ (d ∷ [])
unfolding strip_loop
strip-solid s d h =
    let last : is_blank (get_or (s ++ (d ∷ [])) (length s) 0) ≡ false =
      ap is_blank (get_or-last s d) ∙ h in
    rw (longer s d) (simp last refl)

-- Blanks behind a text go.
strip-blanks : (s w : List ℕ) → All (λ c. is_blank c ≡ true) w → stripped (s ++ w) ≡ stripped s
strip-blanks s [] h = ap stripped (append-nil s)
strip-blanks s (d ∷ w) (h, hs) =
    ap stripped (sym (append_assoc s (d ∷ []) w))
    ∙ strip-blanks (s ++ (d ∷ [])) w hs
    ∙ strip-blank s d h

pub strip-text :
    (s w : List ℕ) (d : ℕ)
    → is_blank d ≡ false
    → All (λ c. is_blank c ≡ true) w
    → stripped ((s ++ (d ∷ [])) ++ w) ≡ s ++ (d ∷ [])
strip-text s w d h hs = strip-blanks (s ++ (d ∷ [])) w hs ∙ strip-solid s d h

split-sign : (u r : List ℕ) → All (λ c. c ≢ b'=') u → split_at_sign (u ++ (b'=' ∷ r)) ≡ some (u, r)
unfolding split_at_sign
split-sign [] r h = refl
split-sign (c ∷ u) r (h, hs) =
    let other : (c == b'=') ≡ false = ground (arith, h) in simp other (rw (split-sign u r hs) refl)

pub ends-NoTrail : (v : List ℕ) (d : ℕ) → is_blank d ≡ false → NoTrail (v ++ (d ∷ []))
ends-NoTrail v d h u e =
    let at : length v ≡ length u =
      omega (arith, ap length e, length-append v (d ∷ []), length-append u (space ∷ [])) in
    let same : d ≡ space =
      sym (get_or-last v d)
      ∙ ap (λ l. get_or l (length v) 0) e
      ∙ ap (λ i. get_or (u ++ (space ∷ [])) i 0) at
      ∙ get_or-last u space in
    ground (arith, same, h)

-- The line `name = content` with spaces around the sign, `c` the first character of the name and
-- `d` the last of the content, and blanks `w` at the end.
abbrev pub entry_text : ℕ → List ℕ → ℕ → ℕ → List ℕ → ℕ → List ℕ → List ℕ
entry_text c n a b v d w = ((c ∷ (n ++ (spaces a ++ (b'=' ∷ (spaces b ++ v))))) ++ (d ∷ [])) ++ w

pub record IsEntry (c : ℕ) (n : List ℕ) (a : ℕ) (v : List ℕ) (d : ℕ) (w : List ℕ) : Type 0 where
  pub begins : is_comment c ≡ false
  pub no_section : (c == b'[') ≡ false
  pub no_sign : All (λ x. x ≢ b'=') (c ∷ n)
  pub name_ends : NoTrail (c ∷ n)
  pub name_fits : length (c ∷ n) + a < name_size
  pub content_begins : NoLead (v ++ (d ∷ []))
  pub content_ends : is_blank d ≡ false
  pub blanks : All (λ x. is_blank x ≡ true) w

space-no_sign : space ≢ b'='
space-no_sign e = omega (arith, e)

spaces-no_sign : (a : ℕ) → All (λ x. x ≢ b'=') (spaces a)
spaces-no_sign zero = tt
spaces-no_sign (suc a) = (space-no_sign, spaces-no_sign a)

name-NoLead : (c : ℕ) (n : List ℕ) → is_comment c ≡ false → NoLead (c ∷ n)
name-NoLead c n h u e = let same : c ≡ space = ap (λ l. get_or l 0 0) e in ground (arith, same, h)

name-eq :
    (c : ℕ) (n : List ℕ) (a : ℕ)
    → is_comment c ≡ false
    → NoTrail (c ∷ n)
    → ltrim (rtrim ((c ∷ n) ++ spaces a)) ≡ c ∷ n
name-eq c n a h e = ap ltrim (rtrim-spaces (c ∷ n) a e) ∙ ltrim-spaces 0 (c ∷ n) (name-NoLead c n h)

content-eq :
    (b : ℕ) (v : List ℕ) (d : ℕ)
    → is_blank d ≡ false
    → NoLead (v ++ (d ∷ []))
    → ltrim (rtrim (spaces b ++ (v ++ (d ∷ [])))) ≡ v ++ (d ∷ [])
content-eq b v d h e =
    let whole = sym (append_assoc (spaces b) v (d ∷ [])) in
    ap (λ t. ltrim (rtrim t)) whole
    ∙ ap ltrim
        (rtrim-NoTrail ((spaces b ++ v) ++ (d ∷ [])) (ends-NoTrail (spaces b ++ v) d h) ∙ sym whole)
    ∙ ltrim-spaces b (v ++ (d ∷ [])) e

-- A name and a content, with the spaces around them taken away.
item-eq :
    (c : ℕ) (n : List ℕ) (a b : ℕ) (v : List ℕ) (d : ℕ) (w : List ℕ)
    → IsEntry c n a v d w
    → new_item ((c ∷ n) ++ spaces a) (spaces b ++ (v ++ (d ∷ [])))
      ≡ some (record { name = c ∷ n; content = v ++ (d ∷ []) })
unfolding new_item
item-eq c n a b v d w h =
    let fits : leb name_size (length ((c ∷ n) ++ spaces a)) ≡ false =
      ground (arith, h.name_fits, length-append (c ∷ n) (spaces a), length-replicate a space) in
    simp fits (
      ap (λ x. some (record { name = x; content = ltrim (rtrim (spaces b ++ (v ++ (d ∷ [])))) }))
        (name-eq c n a h.begins h.name_ends)
      ∙ ap (λ x. some (record { name = c ∷ n; content = x }))
          (content-eq b v d h.content_ends h.content_begins))

-- The line of an entry without the blanks at its end
shape :
    (c : ℕ) (n : List ℕ) (a b : ℕ) (v : List ℕ) (d : ℕ)
    → (c ∷ (n ++ (spaces a ++ (b'=' ∷ (spaces b ++ v))))) ++ (d ∷ [])
      ≡ ((c ∷ n) ++ spaces a) ++ (b'=' ∷ (spaces b ++ (v ++ (d ∷ []))))
shape c n a b v d = ap (◌∷◌ c) (
    append_assoc n (spaces a ++ (b'=' ∷ (spaces b ++ v))) (d ∷ [])
    ∙ ap (◌++◌ n) (
        append_assoc (spaces a) (b'=' ∷ (spaces b ++ v)) (d ∷ [])
        ∙ ap (λ t. spaces a ++ (b'=' ∷ t)) (append_assoc (spaces b) v (d ∷ [])))
    ∙ sym (append_assoc n (spaces a) _))

stripped_items_step :
    (c : ℕ) (line name content : List ℕ) (item : Item)
    → (c == b'[') ≡ false
    → split_at_sign (c ∷ line) ≡ some (name, content)
    → new_item name content ≡ some item
    → stripped_items (c ∷ line) ≡ some (item ∷ [])
unfolding stripped_items
stripped_items_step c line name content item h e f = simp h (rw e (rw f refl))

stripped_items-entry :
    (c : ℕ) (n : List ℕ) (a b : ℕ) (v : List ℕ) (d : ℕ) (w : List ℕ)
    → IsEntry c n a v d w
    → stripped_items ((c ∷ (n ++ (spaces a ++ (b'=' ∷ (spaces b ++ v))))) ++ (d ∷ []))
      ≡ some (record { name = c ∷ n; content = v ++ (d ∷ []) } ∷ [])
stripped_items-entry c n a b v d w h =
    let split =
      split-sign ((c ∷ n) ++ spaces a) (spaces b ++ (v ++ (d ∷ [])))
        (All-append (λ x. x ≢ b'=') (c ∷ n) (spaces a) h.no_sign (spaces-no_sign a)) in
    ap stripped_items (shape c n a b v d)
    ∙ stripped_items_step c _ _ _ _ h.no_section split (item-eq c n a b v d w h)

pub line_items_step :
    (c : ℕ) (line : List ℕ)
    → is_comment c ≡ false
    → line_items (c ∷ line) ≡ stripped_items (stripped (c ∷ line))
unfolding line_items
line_items_step c line h = simp h refl

newline-blank :
    (w : List ℕ) → All (λ x. is_blank x ≡ true) w → All (λ x. is_blank x ≡ true) (w ++ (b'\n' ∷ []))
newline-blank w h = All-append (λ x. is_blank x ≡ true) w (b'\n' ∷ []) h (refl, tt)

-- The line of an entry gives its item.
pub line_items-entry :
    (c : ℕ) (n : List ℕ) (a b : ℕ) (v : List ℕ) (d : ℕ) (w : List ℕ)
    → IsEntry c n a v d w
    → line_items (entry_text c n a b v d w ++ (b'\n' ∷ []))
      ≡ some (record { name = c ∷ n; content = v ++ (d ∷ []) } ∷ [])
line_items-entry c n a b v d w h =
    let front = c ∷ (n ++ (spaces a ++ (b'=' ∷ (spaces b ++ v)))) in
    line_items_step c _ h.begins
    ∙ ap (λ t. stripped_items (stripped t)) (append_assoc (front ++ (d ∷ [])) w (b'\n' ∷ []))
    ∙ ap stripped_items
        (strip-text front (w ++ (b'\n' ∷ [])) d h.content_ends (newline-blank w h.blanks))
    ∙ stripped_items-entry c n a b v d w h
