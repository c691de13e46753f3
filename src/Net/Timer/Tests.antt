-- ===== src/Net/Timer/Tests.antt =====
-- Runs of the timer queue of net/qc_socket_time.cc.
use quick_comm.Base.{ℕ, ◌+◌, ◌≡◌, refl, false, [], ◌∷◌, some, arith}
use quick_comm.Net.Timer.{Header, Timers, get_over_time_timer, over_time_loop}
use quick_comm.Net.Timer.Order.{Inv, get_over-Inv}
use quick_comm.Net.Timer.Due.{due, left_over, over_time_collects}

abbrev node : ℕ → ℕ × Header
node conn = (10 + conn, record { conn = conn; seq = 1 })

-- Checks of the connections 1, 2 and 5 at the times 11, 12 and 15.
abbrev three : Timers
three = record { entries = node 1 ∷ node 2 ∷ node 5 ∷ []; size = 3; value = 11 }

three-Inv : Inv three
three-Inv = record {
  sorted = (omega arith, (omega arith, (omega arith, tt)));
  sized = refl;
  first = refl;
}

over_time_collects_example :
    (q' : Timers) × (over_time_loop 3 12 20 false three ≡ some (due 12 three.entries, q'))
    × Inv q'
    × (q'.entries ≡ left_over 12 20 false three.entries)
    × (due 12 q'.entries ≡ [])
over_time_collects_example =
    over_time_collects 3 12 20 false three three-Inv (omega arith) (omega arith)

after_over_time : Inv (get_over_time_timer 12 20 false three).1
after_over_time = get_over-Inv 12 20 false three three-Inv
