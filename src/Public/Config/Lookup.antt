-- ===== src/Public/Config/Lookup.antt =====
-- Looking a name up, without regard to the case of its letters.
use quick_comm.Base.{
  ℕ, ◌≡◌, ◌⊎◌, refl, ap, ◌∙◌, false, true, List, [], ◌∷◌, ◌++◌, some, none, ◌==◌, All, Bool-cases,
  inl, inr, arith,
}
use quick_comm.Base.Int.{ℤ}
use quick_comm.Public.Config.{Item, to_lower, same_name, get_string, get_int_default, atoi}

to_lower-eq : (a b : ℕ) → (a == b) ≡ (b == a)
to_lower-eq a b = ground arith

same_name-sym : (a b : List ℕ) → same_name a b ≡ same_name b a
unfolding same_name
same_name-sym [] [] = refl
same_name-sym [] (d ∷ b) = refl
same_name-sym (c ∷ a) [] = refl
same_name-sym (c ∷ a) (d ∷ b) = rw (to_lower-eq (to_lower c) (to_lower d), same_name-sym a b) refl

abbrev pub HasName : List ℕ → Item → Type 0
HasName itemname it = same_name itemname it.name ≡ true

abbrev pub HasOther : List ℕ → Item → Type 0
HasOther itemname it = same_name itemname it.name ≡ false

-- The two lookups agree: they take the first item whose name is equal but for the case of its
-- letters, GetString its text and GetIntDefault its number; where there is none, GetString returns
-- nothing, and GetIntDefault its default.
pub lookups-First :
    (itemname : List ℕ) (def : ℤ) (list : List Item)
    → (All (HasOther itemname) list
        × (get_string itemname list ≡ none)
        × (get_int_default itemname def list ≡ some def))
      ⊎ ((xs : List Item) × (it : Item) × (ys : List Item) × (list ≡ xs ++ (it ∷ ys))
          × All (HasOther itemname) xs
          × HasName itemname it
          × (get_string itemname list ≡ some it.content)
          × (get_int_default itemname def list ≡ atoi it.content))
unfolding get_string get_int_default
lookups-First itemname def [] = inl (tt, refl, refl)
lookups-First itemname def (x ∷ list) = elim (Bool-cases (same_name itemname x.name)) [
  | inl same ↦
      let turned = same_name-sym x.name itemname ∙ same in
      inr ([], x, list, refl, tt, same, simp same refl, simp turned refl)
  | inr other ↦
      let turned = same_name-sym x.name itemname ∙ other in
      elim (lookups-First itemname def list) [
        | inl found ↦ inl ((other, found.0), simp other found.1, simp turned found.2)
        | inr (xs, it, ys, e, others, same, text, number) ↦ inr (
          x ∷ xs,
          it,
          ys,
          ap (◌∷◌ x) e,
          (other, others),
          same,
          simp other text,
          simp turned number,
        )
      ]
]
