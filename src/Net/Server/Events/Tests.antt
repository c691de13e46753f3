-- ===== src/Net/Server/Events/Tests.antt =====
-- Events of a client and of a listening socket.
use quick_comm.Base.{Bool, List, inl, ◌≡◌, ◌∷◌, [], true, refl, some, replicate, arith}
use quick_comm.Net.Server.{Server}
use quick_comm.Net.Server.Read.{got, no_sys, socket_fd}
use quick_comm.Net.Server.Send.{took}
use quick_comm.Net.Server.Sample.{server, server-IsValid}
use quick_comm.Base.Int.{negsuc}
use quick_comm.Net.Pool.{get_connection}
use quick_comm.Net.Server.{epoll_oper_event}
use quick_comm.Net.Server.Close.{IsValid}
use quick_comm.Net.Server.Read.{admit}
use quick_comm.Net.Server.Handlers.{admit-Admitted}
use quick_comm.Net.Server.Events.{System, Event, events, process_events}
use quick_comm.Net.Server.Events.Batch.{IsWatched, returned, process_events-Handled}

abbrev world : System
world = record {
  ms = 150_000;
  now = 150;
  fresh = λ n. replicate n 0;
  reading = got (0 ∷ 8 ∷ []);
  accepting4 = no_sys;
  accepting = socket_fd 11;
  nonblocking = true;
  watched = true;
  sending = took 4;
}

-- A second client at the address 1
abbrev two_clients : Server
two_clients = (admit 150 0 12 true true server).1

two_clients-IsValid : IsValid two_clients
two_clients-IsValid = (admit-Admitted 150 0 12 true true server server-IsValid).valid

abbrev batch : List Event
batch =
    record { conn = 0; revents = 5; answers = world }
    ∷ record { conn = 1; revents = 1; answers = world }
    ∷ []

second_ready : IsWatched two_clients (record { conn = 1; revents = 1; answers = world })
unfolding admit get_connection epoll_oper_event
second_ready = ((omega arith, refl), inl (refl, refl))

first_ready : IsWatched two_clients (record { conn = 0; revents = 5; answers = world })
unfolding admit get_connection epoll_oper_event
first_ready = ((omega arith, refl), inl (refl, refl))

process_events-Handled_example :
    (after : Bool × Server) × (process_events (negsuc 0) (events batch) (true, two_clients)
      ≡ some (returned (negsuc 0) (events batch), after.0, after.1))
    × IsValid after.1
process_events-Handled_example =
    process_events-Handled (negsuc 0) (events batch) true two_clients two_clients-IsValid
      (first_ready, (second_ready, tt)) (((λ e. omega (arith, e)), tt), (tt, tt))
