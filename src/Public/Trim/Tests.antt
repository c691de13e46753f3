-- ===== src/Public/Trim/Tests.antt =====
-- A run of the two trims.
use quick_comm.Base.{ℕ, ◌≡◌, List, [], ◌∷◌, ◌++◌}
use quick_comm.Public.Trim.{rtrim, ltrim}
use quick_comm.Public.Trim.Spaces.{spaces, NoLead, NoTrail, ltrim-rtrim}

-- "  a b "
abbrev padded : List ℕ
padded = 32 ∷ 32 ∷ 97 ∷ 32 ∷ 98 ∷ 32 ∷ []

ltrim-rtrim_example :
    let t = ltrim (rtrim padded) in
    (i : ℕ) × (j : ℕ) × (padded ≡ spaces i ++ (t ++ spaces j)) × NoLead t × NoTrail t
ltrim-rtrim_example = ltrim-rtrim padded
