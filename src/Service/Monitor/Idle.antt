-- ===== src/Service/Monitor/Idle.antt =====
-- A round of the timer thread closes the idle clients, and no other.
use quick_comm.Base.{ℕ, ◌<◌, ◌≡◌, List, ◌∷◌, ◌++◌, none}
use quick_comm.Net.Timer.{Header}
use quick_comm.Net.Timer.Due.{due}
use quick_comm.Net.Server.{Server, conn_at}
use quick_comm.Net.Server.Close.{IsValid}
use quick_comm.Service.Monitor.Checks.{Pinged, IsIdle}

-- A round of the timer thread at the time `cur`.
pub record Checked (cur : ℕ) (s s' : Server) : Type 0 where
  pub valid : IsValid s'
  pub stays : (a : ℕ) → Pinged cur a s → conn_at a s' ≡ conn_at a s
  pub closes :
      (front back : List Header) (h : Header)
      → s.timers.value < cur
      → due cur s.timers.entries ≡ front ++ (h ∷ back)
      → h.seq ≡ (conn_at h.conn s).seq
      → IsIdle cur h.conn s
      → (conn_at h.conn s').fd ≡ none
