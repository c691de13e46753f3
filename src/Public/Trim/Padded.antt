-- ===== src/Public/Trim/Padded.antt =====
-- The trims on a text with spaces around it.
use quick_comm.Base.{
  ℕ, zero, suc, ◌≡◌, refl, sym, ap, ◌∙◌, true, List, [], ◌∷◌, ◌++◌, ◌==◌, length, length-append,
  get_or, take-append_left, Bool-cases, inl, inr, arith, ==_iff,
}
use mathlib.Core.List.{append_assoc, append-nil}
use quick_comm.Public.Trim.{space, rtrim_loop, rtrim, skip_spaces, ltrim}
use quick_comm.Public.Trim.Spaces.{
  spaces, NoLead, NoTrail, one_more, get_or-last, rtrim_loop-NoTrail, ltrim-skip,
}

rtrim-space : (s : List ℕ) → rtrim (s ++ (space ∷ [])) ≡ rtrim s
unfolding rtrim rtrim_loop
rtrim-space s =
    let longer : length (s ++ (space ∷ [])) ≡ suc (length s) =
      omega (arith, length-append s (space ∷ [])) in
    let last : (get_or (s ++ (space ∷ [])) (length s) 0 == space) ≡ true =
      (==_iff (get_or (s ++ (space ∷ [])) (length s) 0) space).1 (get_or-last s space) in
    rw longer (simp (last, take-append_left s (space ∷ []) (length s) refl) refl)

pub rtrim-NoTrail : (t : List ℕ) → NoTrail t → rtrim t ≡ t
unfolding rtrim
rtrim-NoTrail t n =
    let (j, e, m) = rtrim_loop-NoTrail (length t) t refl in kept (rtrim_loop (length t) t) j e
  where
    kept : (r : List ℕ) (j : ℕ) → t ≡ r ++ spaces j → r ≡ t
    kept r zero e = sym (e ∙ append-nil r)
    kept r (suc j) e = absurd (
        n (r ++ spaces j)
          (e ∙ ap (◌++◌ r) (sym (one_more j)) ∙ sym (append_assoc r (spaces j) (space ∷ []))))

-- Spaces behind a text that does not end in one
pub rtrim-spaces : (t : List ℕ) (n : ℕ) → NoTrail t → rtrim (t ++ spaces n) ≡ t
rtrim-spaces t zero h = ap rtrim (append-nil t) ∙ rtrim-NoTrail t h
rtrim-spaces t (suc n) h =
    ap (λ b. rtrim (t ++ b)) (sym (one_more n))
    ∙ ap rtrim (sym (append_assoc t (spaces n) (space ∷ [])))
    ∙ rtrim-space (t ++ spaces n)
    ∙ rtrim-spaces t n h

skip_spaces-NoLead : (t : List ℕ) → NoLead t → skip_spaces t ≡ t
unfolding skip_spaces
skip_spaces-NoLead [] h = refl
skip_spaces-NoLead (c ∷ t) h = elim (Bool-cases (c == space)) [
  | inl blank ↦ absurd (h t (ap (λ x. x ∷ t) ((==_iff c space).0 blank)))
  | inr solid ↦ simp solid refl
]

-- Spaces before a text that does not begin with one
pub ltrim-spaces : (n : ℕ) (t : List ℕ) → NoLead t → ltrim (spaces n ++ t) ≡ t
unfolding skip_spaces
ltrim-spaces zero t h = ltrim-skip t ∙ skip_spaces-NoLead t h
ltrim-spaces (suc n) t h =
    ltrim-skip (spaces (suc n) ++ t) ∙ sym (ltrim-skip (spaces n ++ t)) ∙ ltrim-spaces n t h
