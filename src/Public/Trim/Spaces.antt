-- ===== src/Public/Trim/Spaces.antt =====
-- What the two trims take away, and what they leave.
use quick_comm.Base.{
  ℕ, zero, suc, ◌≡◌, ◌≢◌, refl, sym, ap, ◌∙◌, false, inl, inr, List, [], ◌∷◌, ◌++◌, ◌==◌, ==_iff,
  length, length-append, length-take, get_or, take, replicate, Bool-cases, arith,
}
use mathlib.Core.List.{append_assoc, append-nil}
use quick_comm.Public.Trim.{space, rtrim_loop, rtrim, skip_spaces, ltrim}

abbrev pub spaces : ℕ → List ℕ
spaces n = replicate n space

abbrev pub NoLead : List ℕ → Type 0
NoLead t = (u : List ℕ) → t ≢ space ∷ u

abbrev pub NoTrail : List ℕ → Type 0
NoTrail t = (u : List ℕ) → t ≢ u ++ (space ∷ [])

pub split_last : (k : ℕ) (s : List ℕ) → length s ≡ suc k → s ≡ take k s ++ (get_or s k 0 ∷ [])
split_last k [] e = absurd (omega arith)
split_last zero (c ∷ []) e = refl
split_last zero (c ∷ d ∷ s) e = absurd (omega arith)
split_last (suc k) (c ∷ s) e = ap (◌∷◌ c) (split_last k s (omega arith))

pub get_or-last : (u : List ℕ) (c : ℕ) → get_or (u ++ (c ∷ [])) (length u) 0 ≡ c
get_or-last [] c = refl
get_or-last (d ∷ u) c = get_or-last u c

pub one_more : (j : ℕ) → spaces j ++ (space ∷ []) ≡ spaces (suc j)
one_more zero = refl
one_more (suc j) = ap (◌∷◌ space) (one_more j)

pub rtrim_loop-NoTrail :
    (k : ℕ) (s : List ℕ)
    → length s ≡ k
    → (j : ℕ) × (s ≡ rtrim_loop k s ++ spaces j) × NoTrail (rtrim_loop k s)
unfolding rtrim_loop
rtrim_loop-NoTrail zero s e =
    (0, sym (append-nil s), λ u h. omega (arith, e, ap length h, length-append u (space ∷ [])))
rtrim_loop-NoTrail (suc k) s e = elim (Bool-cases (get_or s k 0 == space)) [
  | inl blank ↦
      let (j, f, n) = rtrim_loop-NoTrail k (take k s) (omega (arith, e, length-take k s)) in
      let r = rtrim_loop k (take k s) in
      let whole =
        split_last k s e
        ∙ ap (λ c. take k s ++ (c ∷ [])) ((==_iff (get_or s k 0) space).0 blank)
        ∙ ap (λ l. l ++ (space ∷ [])) f
        ∙ append_assoc r (spaces j) (space ∷ [])
        ∙ ap (◌++◌ r) (one_more j) in
      simp blank (suc j, whole, n)
  | inr solid ↦ simp solid (0, sym (append-nil s), λ u h. ends u h solid)
]
  where
    ends : (u : List ℕ) → s ≡ u ++ (space ∷ []) → (get_or s k 0 == space) ≡ false → ⊥
    ends u h solid =
        let at : k ≡ length u = omega (arith, e, ap length h, length-append u (space ∷ [])) in
        let c : get_or s k 0 ≡ space =
          ap (λ l. get_or l k 0) h
          ∙ ap (λ i. get_or (u ++ (space ∷ [])) i 0) at
          ∙ get_or-last u space in
        ground (arith, c, solid)

skip_spaces-NoLead :
    (s : List ℕ) → (i : ℕ) × (s ≡ spaces i ++ skip_spaces s) × NoLead (skip_spaces s)
unfolding skip_spaces
skip_spaces-NoLead [] = (0, refl, λ u h. omega (arith, ap length h))
skip_spaces-NoLead (c ∷ s) = elim (Bool-cases (c == space)) [
  | inl blank ↦
      let (i, e, n) = skip_spaces-NoLead s in
      simp blank (suc i, ap (λ x. x ∷ s) ((==_iff c space).0 blank) ∙ ap (◌∷◌ space) e, n)
  | inr solid ↦ simp solid (0, refl, λ u h. first u (ap (λ l. get_or l 0 0) h) solid)
]
  where
    first : (u : List ℕ) → c ≡ space → (c == space) ≡ false → ⊥
    first u e solid = ground (arith, e, solid)

pub ltrim-skip : (s : List ℕ) → ltrim s ≡ skip_spaces s
unfolding ltrim skip_spaces
ltrim-skip [] = refl
ltrim-skip (c ∷ s) = elim (Bool-cases (c == space)) [
  | inl blank ↦ simp blank refl
  | inr solid ↦ simp solid refl
]

-- Rtrim and then Ltrim, as the configuration's reader calls them, take away spaces at the two ends
-- only, and leave none there.
pub ltrim-rtrim :
    (s : List ℕ)
    → let t = ltrim (rtrim s) in
      (i : ℕ) × (j : ℕ) × (s ≡ spaces i ++ (t ++ spaces j)) × NoLead t × NoTrail t
unfolding rtrim
ltrim-rtrim s =
    let (j, f, n) = rtrim_loop-NoTrail (length s) s refl in
    let r = rtrim_loop (length s) s in
    let (i, g, first) = skip_spaces-NoLead r in
    let t = skip_spaces r in
    rw (ltrim-skip r) (
      i,
      j,
      f ∙ ap (λ l. l ++ spaces j) g ∙ append_assoc (spaces i) t (spaces j),
      first,
      λ u h.
          n (spaces i ++ u)
            (g ∙ ap (◌++◌ (spaces i)) h ∙ sym (append_assoc (spaces i) u (space ∷ []))),
    )
