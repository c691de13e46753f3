-- ===== src/Net/Server/Start/Tests.antt =====
-- A worker with two ports, and the start that fails at the second one.
use mathlib.Core.Option
use quick_comm.Base.{
  ℕ, ◌+◌, ◌≡◌, refl, Bool, true, false, List, [], ◌∷◌, some, ◌==◌, codes, ◌>>=◌, none,
}
use quick_comm.Base.Int.{pos}
use quick_comm.Public.Config.{Item, get_int_default}
use quick_comm.Public.Format.{temp_digits}
use quick_comm.Net.Server.Start.{
  Settings, read_conf, Sockets, Attempt, port_of, open_listening_sockets, epoll_init, new_server,
}
use quick_comm.Net.Server.Sample.{server}
use quick_comm.Net.Pool.{event_accept, get_connection, init_connection, empty_pool}
use quick_comm.Net.Server.{epoll_oper_event}
use quick_comm.Net.Server.Start.Listeners.{Started, epoll_init-Started}
use quick_comm.Net.Server.Start.Opening.{no_sockets, Opened, open_listening_sockets-Opened}

abbrev conf_items : List Item
conf_items =
    record { name = codes "ListenPort0"; content = codes "8080" }
    ∷ record { name = codes "listenport1"; content = codes "9000" }
    ∷ record { name = codes "Sock_MaxWaitTime"; content = codes "3" }
    ∷ []

-- Descriptors from 5 on; bind() works for the sockets that `bound` gives.
abbrev answers : (ℕ → Bool) → ℕ → Attempt
answers bound i = record {
  socket = some (5 + i);
  reuseaddr = true;
  nonblocking = true;
  bound = bound i;
  listens = true;
}

abbrev both_open : Sockets
both_open = record {
  listening = record { port = pos 8080; fd = 5 } ∷ record { port = pos 9000; fd = 6 } ∷ [];
  opened = 5 ∷ 6 ∷ [];
  closed = [];
}

abbrev half_open : Sockets
half_open = record {
  listening = record { port = pos 8080; fd = 5 } ∷ [];
  opened = 5 ∷ 6 ∷ [];
  closed = 6 ∷ [];
}

opens_both :
    open_listening_sockets (pos 2) (answers (λ i. true)) conf_items no_sockets
    ≡ some (true, both_open)
unfolding open_listening_sockets temp_digits get_int_default
opens_both = refl

-- The first socket stays open.
opens_half :
    open_listening_sockets (pos 2) (answers (λ i. i == 0)) conf_items no_sockets
    ≡ some (false, half_open)
unfolding open_listening_sockets temp_digits get_int_default
opens_half = refl

default_port : port_of conf_items 7 ≡ some (pos 10000)
unfolding port_of temp_digits get_int_default
default_port = refl

open_listening_sockets-Opened_example : Opened 2 (true, both_open)
open_listening_sockets-Opened_example =
    open_listening_sockets-Opened (pos 2) (answers (λ i. true)) conf_items true both_open opens_both

abbrev first_settings : Settings
first_settings = record {
  worker_connections = pos 1;
  listen_port_count = pos 1;
  recy_wait = pos 60;
  kick_time_count = pos 0;
  wait_time = pos 0;
  time_out_kick = pos 0;
  flood_enable = pos 0;
  flood_interval = pos 0;
  flood_kick_count = pos 0;
}

-- m_iWaitTime is five seconds at least.
short_wait : (read_conf conf_items first_settings >>= λ y. some (y.wait_time)) ≡ some (pos 5)
unfolding read_conf get_int_default
short_wait = refl

-- The first connections go to the listening sockets.
listeners_of_worker :
    Option.map
      (λ r. (r.1.pool.conns 1).listening)
      (epoll_init true 100 (λ i. true) both_open.listening (new_server server.conf))
    ≡ some (some 1)
unfolding epoll_init get_connection init_connection new_server empty_pool epoll_oper_event
listeners_of_worker = refl

handler_of_worker :
    Option.map
      (λ r. (r.1.pool.conns 0).rhandler)
      (epoll_init true 100 (λ i. true) both_open.listening (new_server server.conf))
    ≡ some (some event_accept)
unfolding epoll_init get_connection init_connection new_server empty_pool epoll_oper_event
handler_of_worker = refl

-- A failure of epoll_ctl() for the second one ends the process.
unwatched : epoll_init true 100 (λ i. i == 0) both_open.listening (new_server server.conf) ≡ none
unfolding epoll_init
unwatched = refl

-- epoll_create() and epoll_ctl() work.
epoll_init-Started_example :
    Started true
      (λ i. true)
      both_open.listening
      (epoll_init true 100 (λ i. true) both_open.listening (new_server server.conf))
epoll_init-Started_example = epoll_init-Started true 100 (λ i. true) both_open.listening server.conf
