-- ===== src/Service/Monitor.antt =====
-- net/qc_socket_time.cc, service/qc_slogic.cc: the thread that closes idle clients.
pub mod Checks
pub mod Idle
mod Tests
use quick_comm.Base.{ℕ, Bool, List, [], ◌∷◌, Option, none, some, ltb, if◌then◌else◌, ◌>>=◌}
use quick_comm.Net.Timer.{Header, over_time_loop}
use quick_comm.Net.Server.{Server}
use quick_comm.Service.{proc_ping_time_out_checking}

-- while (!m_lsIdleList.empty())
unfoldable pub check_loop : ℕ → List Header → Server → Server
check_loop cur [] s = s
check_loop cur (h ∷ hs) s = check_loop cur hs (proc_ping_time_out_checking cur h.conn h.seq s)

-- The body of CSocket::ServerTimerQueueMonitorThread's loop before usleep(), at the time `cur`;
-- none if the fuel of the loop over GetOverTimeTimer runs out.
unfoldable pub monitor_round : ℕ → ℕ → Server → Option Server
unfolding check_loop
monitor_round fuel cur s =
    if ltb 0 s.timers.size
    then if ltb s.timers.value cur
      then (over_time_loop fuel cur s.conf.wait_time s.conf.timeout_kick s.timers >>= λ r.
          some (check_loop cur r.0 (record s { timers = r.1 })))
      else some s
    else some s
