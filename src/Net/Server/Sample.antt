-- ===== src/Net/Server/Sample.antt =====
-- Test data: a server with one client, whose connection is at the address 0.
use quick_comm.Base.{◌≡◌, refl, true, false, [], ◌∷◌, some, arith}
use quick_comm.Base.Int.{pos}
use quick_comm.Net.Recv.{Msg}
use quick_comm.Net.Pool.{read_request, write_request, Conn, Pool, blank, contains}
use quick_comm.Net.Server.{Server}
use quick_comm.Net.Server.Close.{IsValid, IsHeld}

abbrev pub client_conn : Conn
client_conn = record blank {
  fd = some 9;
  seq = 1;
  rhandler = some read_request;
  whandler = some write_request;
  throw_send_count = pos 0;
  send_count = pos 0;
  events = 1;
}

abbrev pub one_client : Pool
one_client = record {
  conns = λ _. client_conn;
  conn_list = 0 ∷ 1 ∷ 2 ∷ [];
  free_list = 1 ∷ 2 ∷ [];
  recy_list = [];
  total_n = pos 3;
  free_n = pos 2;
  recy_n = pos 0;
  online = pos 1;
  next_addr = 3;
}

-- A packet of ten bytes for the client
abbrev pub message : Msg
message = record { conn = 0; seq = 1; packet = 0 ∷ 10 ∷ 0 ∷ 5 ∷ 1 ∷ 2 ∷ 3 ∷ 4 ∷ 9 ∷ 8 ∷ [] }

abbrev pub server : Server
server = record {
  conf = record {
    worker_connections = 3;
    recy_wait = 60;
    kick_clock = true;
    wait_time = 20;
    timeout_kick = false;
    flood = record { enabled = true; interval = 100; kick_count = pos 10 };
  };
  pool = one_client;
  timers = record { entries = (120, record { conn = 0; seq = 1 }) ∷ []; size = 1; value = 120 };
  send_queue = message ∷ message ∷ [];
  send_queue_n = pos 2;
  discarded = 0;
  sem = 2;
  recv_queue = [];
  recv_queue_n = pos 0;
}

pub server-IsValid : IsValid server
server-IsValid = record {
  pool = record {
    frees = refl;
    recys = refl;
    totals = refl;
    exclusive = λ a. ground arith;
    known = λ a h. ground (arith, h);
  };
  timers = record { sorted = (omega arith, tt); sized = refl; first = refl };
  sends = refl;
  receives = refl;
}

pub server-IsHeld : IsHeld 0 server
server-IsHeld = (omega arith, refl)

pub none_waiting : contains 0 server.pool.recy_list ≡ false
unfolding contains
none_waiting = refl
