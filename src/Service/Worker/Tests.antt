-- ===== src/Service/Worker/Tests.antt =====
-- A worker that accepts a client and goes on.
use quick_comm.Base.{
  ℕ, ◌≡◌, refl, Bool, true, false, List, [], ◌∷◌, Option, none, some, inr, codes, replicate, arith,
}
use quick_comm.Base.Int.{pos}
use quick_comm.Misc.Threads.{Threads, new_threads, create}
use quick_comm.Public.Config.{Item, get_int_default}
use quick_comm.Net.Server.{Server, epoll_oper_event}
use quick_comm.Net.Server.Close.{IsValid}
use quick_comm.Net.Server.Read.{got, no_sys, socket_fd}
use quick_comm.Net.Server.Send.{took, send_pass}
use quick_comm.Net.Server.Start.{Listening, epoll_init, new_server}
use quick_comm.Net.Server.Life.{ThreadItems, initialize_subproc}
use quick_comm.Net.Server.Events.{Event, process_event}
use quick_comm.Net.Server.Events.Batch.{IsWatched}
use quick_comm.Net.Pool.{get_connection, init_connection, empty_pool}
use quick_comm.Net.Server.Sample.{server}
use quick_comm.Proc.Cycle.{Self, World, Begun, ready, worker_process_init}
use quick_comm.Service.Worker.{here, next, fires, sends, recycles, recycle_thread}
use quick_comm.Service.Worker.Valid.{worker-StaysValid}

abbrev all_made : World
all_made = record {
  unblocks = true;
  made = λ i. true;
  created = record {
    send_mutex = true;
    connection_mutex = true;
    recycle_mutex = true;
    timer_mutex = true;
    semaphore = true;
    thread = λ work. true;
  };
  epoll = true;
  now = 100;
  watched = λ i. true;
}

abbrev items : List Item
items = record { name = codes "ProcMsgRecvWorkThreadCount"; content = codes "2" } ∷ []

abbrev worker : Self
worker = record { pid = 302; parent = 301; kind = 1; blocked = [] }

abbrev ports : List Listening
ports = record { port = pos 80; fd = 5 } ∷ []

abbrev begun : Option Begun
begun = worker_process_init all_made items server.conf ports worker

abbrev process_of : Option Begun → Self
process_of (some (ready self pool threads conns s)) = self
process_of _ = worker

abbrev pool_of : Option Begun → Threads
pool_of (some (ready self pool threads conns s)) = pool
pool_of _ = new_threads

abbrev threads_of : Option Begun → ThreadItems
threads_of (some (ready self pool threads conns s)) = threads
threads_of _ = []

abbrev conns_of : Option Begun → List ℕ
conns_of (some (ready self pool threads conns s)) = conns
conns_of _ = []

abbrev server_of : Option Begun → Server
server_of (some (ready self pool threads conns s)) = s
server_of _ = server

-- A client comes to the listening socket.
abbrev comes : Event
comes = record {
  conn = 0;
  revents = 1;
  answers = record {
    ms = 150_000;
    now = 150;
    fresh = λ n. replicate n 0;
    reading = got [];
    accepting4 = no_sys;
    accepting = socket_fd 11;
    nonblocking = true;
    watched = true;
    sending = took 4;
  };
}

abbrev server_behind : Option (Bool × Server) → Server
server_behind (some (flag, s)) = s
server_behind none = server

abbrev flag_behind : Option (Bool × Server) → Bool
flag_behind (some (flag, s)) = flag
flag_behind none = true

abbrev accepted : Option (Bool × Server)
accepted = process_event comes.answers comes.conn comes.revents (true, server_of begun)

configured : get_int_default (codes "ProcMsgRecvWorkThreadCount") (pos 5) items ≡ some (pos 2)
unfolding get_int_default
configured = refl

begins :
    begun
    ≡ some (
        ready
          (process_of begun)
          (pool_of begun)
          (threads_of begun)
          (conns_of begun)
          (server_of begun))
unfolding worker_process_init get_int_default create initialize_subproc epoll_init
begins = refl

accepts : accepted ≡ some (flag_behind accepted, server_behind accepted)
unfolding process_event worker_process_init get_int_default create initialize_subproc epoll_init
    get_connection init_connection new_server empty_pool epoll_oper_event
accepts = refl

listening_ready : IsWatched (server_of begun) comes
unfolding worker_process_init get_int_default create initialize_subproc epoll_init get_connection
    init_connection new_server empty_pool epoll_oper_event
listening_ready = ((omega arith, refl), inr (refl, refl))

-- The client is accepted, the send thread finds nothing to send, and the recycling thread nothing
-- to free.
worker-StaysValid_example :
    IsValid (recycle_thread 400 false (send_pass (λ i. took 4) (server_behind accepted)))
worker-StaysValid_example =
    worker-StaysValid all_made items (pos 2) server.conf ports worker (process_of begun)
      (pool_of begun) (threads_of begun) (conns_of begun) (server_of begun)
      (recycle_thread 400 false (send_pass (λ i. took 4) (server_behind accepted))) configured
      begins
      (next
        (next (next here (fires comes true (flag_behind accepted) listening_ready accepts))
          (sends (λ i. took 4) refl))
        (recycles 400 false refl))
