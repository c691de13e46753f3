-- ===== src/Net/Flood/Tests.antt =====
-- A run of the flood test.
use quick_comm.Base.{◌≡◌, refl, true, [], ◌∷◌}
use quick_comm.Base.Int.{pos, leb_ℤ}
use quick_comm.Net.Flood.{FloodConf, Flood}
use quick_comm.Net.Flood.Burst.{watch, burst-kicked}

abbrev two_in_a_row : FloodConf
two_in_a_row = record { enabled = true; interval = 100; kick_count = pos 2 }

abbrev quiet : Flood
quiet = record { last = 0; count = 0 }

burst-kicked_example : (watch two_in_a_row quiet 1000 (1050 ∷ 1060 ∷ [])).1 ≡ leb_ℤ (pos 2) (pos 2)
burst-kicked_example =
    burst-kicked two_in_a_row quiet 1000 (1050 ∷ 1060 ∷ []) refl (refl, (refl, tt))
