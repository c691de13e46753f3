-- ===== src/Service/Monitor/Tests.antt =====
-- The timer of a client that pinged last at time 0, with 20 seconds between checks.
use quick_comm.Base.{ℕ, ◌≡◌, refl, some, none, ◌>>=◌}
use quick_comm.Net.Timer.{insert, over_time_loop, get_over_time_timer}
use quick_comm.Net.Pool.{in_recy_connect_queue}
use quick_comm.Service.{proc_ping_time_out_checking}
use quick_comm.Net.Server.{zd_close_socket_proc, Server, conn_at}
use quick_comm.Net.Server.Sample.{client_conn, server}
use quick_comm.Service.Monitor.{monitor_round}

abbrev pinged_at : ℕ → Server
pinged_at t = record server {
  pool = record (server.pool) { conns = λ a. record client_conn { seq = 1; last_ping_time = t } };
}

-- The client was silent for 190 seconds, and the round closes it.
closes_silent : (monitor_round 2 190 (pinged_at 0) >>= λ s. (conn_at 0 s).fd) ≡ none
unfolding monitor_round over_time_loop get_over_time_timer insert proc_ping_time_out_checking
    zd_close_socket_proc in_recy_connect_queue
closes_silent = refl

-- After 69 seconds it is left alone.
keeps_recent : (monitor_round 2 150 (pinged_at 81) >>= λ s. (conn_at 0 s).fd) ≡ some 9
unfolding monitor_round over_time_loop get_over_time_timer insert proc_ping_time_out_checking
keeps_recent = refl
