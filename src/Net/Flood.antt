-- ===== src/Net/Flood.antt =====
-- net/qc_socket.cc: CSocket::TestFlood, the count of packets that follow one another too quickly.
-- Times are milliseconds in a uint64_t. FloodAttackCount is an `int` that the model does not wrap.
pub mod Burst
mod Tests
use quick_comm.Base.{ℕ, ◌+◌, ◌-◌, ◌%◌, ◌^◌, Bool, ltb, if◌then◌else◌}
use quick_comm.Base.Int.{ℤ, pos, leb_ℤ}

-- m_floodAkEnable == 1, m_floodTimeInterval and m_floodKickCount
pub record FloodConf : Type 0 where
  pub enabled : Bool
  pub interval : ℕ
  pub kick_count : ℤ

-- FloodkickLastTime and FloodAttackCount of a connection
pub record Flood : Type 0 where
  pub last : ℕ
  pub count : ℕ

-- iCurrTime - pConn->FloodkickLastTime, in uint64_t
abbrev pub elapsed : ℕ → ℕ → ℕ
elapsed now last = (now + 2 ^ 64 - last) % 2 ^ 64

count_packet : FloodConf → ℕ → Flood → Flood
count_packet c now f =
    if ltb (elapsed now f.last) c.interval
    then record { last = now; count = f.count + 1 }
    else record { last = now; count = 0 }

-- CSocket::TestFlood
unfoldable pub test_flood : FloodConf → ℕ → Flood → Flood × Bool
unfolding count_packet
test_flood c now f = let f' = count_packet c now f in (f', leb_ℤ c.kick_count (pos f'.count))
