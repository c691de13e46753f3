-- ===== src/Net/Server/Start.antt =====
-- net/qc_socket.cc: what a CSocket does before its first event: its settings, the listening
-- sockets, the threads of a worker, and their connections. The configuration is the list of its
-- items, and the answers of the system are arguments.
pub mod Opening
pub mod Failures
pub mod Listeners
mod Tests
use quick_comm.Base.{
  ℕ, zero, suc, ◌+◌, Bool, true, false, not, List, [], ◌∷◌, ◌++◌, Option, none, some, ◌==◌,
  if◌then◌else◌, length, map, codes, ◌>>=◌,
}
use Prim.Native.Nat.{bit_or}
use quick_comm.Base.Int.{ℤ, pos, pos_part, ltb_ℤ}
use quick_comm.Public.Format.{temp_digits}
use quick_comm.Public.Config.{Item, get_int_default}
use quick_comm.Net.Timer.{no_timers}
use quick_comm.Net.Pool.{
  Conn, Pool, empty_pool, get_connection, init_connection, event_accept, clear_connection,
}
use quick_comm.Net.Server.{
  Server, SockConf, with_conn, epoll_oper_event, ctl_add, epollin, epollrdhup,
}

-- The settings of a CSocket, all int or unsigned int
pub record Settings : Type 0 where
  pub worker_connections : ℤ
  pub listen_port_count : ℤ
  pub recy_wait : ℤ
  pub kick_time_count : ℤ
  pub wait_time : ℤ
  pub time_out_kick : ℤ
  pub flood_enable : ℤ
  pub flood_interval : ℤ
  pub flood_kick_count : ℤ

-- CSocket::ReadConf over the settings that the constructor left
unfoldable pub read_conf : List Item → Settings → Option Settings
read_conf items old = do
  worker_connections ← get_int_default (codes "worker_connections") old.worker_connections items
  listen_port_count ← get_int_default (codes "ListenPortCount") old.listen_port_count items
  recy_wait ← get_int_default (codes "Sock_RecyConnectionWaitTime") old.recy_wait items
  kick_time_count ← get_int_default (codes "Sock_WaitTimeEnable") (pos 0) items
  wait_time ← get_int_default (codes "Sock_MaxWaitTime") old.wait_time items
  time_out_kick ← get_int_default (codes "Sock_TimeOutKick") (pos 0) items
  flood_enable ← get_int_default (codes "Sock_FloodAttackKickEnable") (pos 0) items
  flood_interval ← get_int_default (codes "Sock_FloodTimeInterval") (pos 100) items
  flood_kick_count ← get_int_default (codes "Sock_FloodKickCounter") (pos 10) items
  some (record {
    worker_connections = worker_connections;
    listen_port_count = listen_port_count;
    recy_wait = recy_wait;
    kick_time_count = kick_time_count;
    wait_time = if ltb_ℤ (pos 5) wait_time then wait_time else pos 5;
    time_out_kick = time_out_kick;
    flood_enable = flood_enable;
    flood_interval = flood_interval;
    flood_kick_count = flood_kick_count;
  })

-- qc_listening_t
pub record Listening : Type 0 where
  pub port : ℤ
  pub fd : ℕ

-- m_ListenSocketList, with the descriptors that socket() gave and those that were closed
pub record Sockets : Type 0 where
  pub listening : List Listening
  pub opened : List ℕ
  pub closed : List ℕ

-- What the system answers for one port; setsockopt(SO_REUSEPORT) may fail without effect.
pub record Attempt : Type 0 where
  pub socket : Option ℕ
  pub reuseaddr : Bool
  pub nonblocking : Bool
  pub bound : Bool
  pub listens : Bool

-- sprintf(strinfo, "ListenPort%d", i) and GetIntDefault(strinfo, 10000)
unfoldable pub port_of : List Item → ℕ → Option ℤ
port_of items i = do
  digits ← temp_digits i 0
  get_int_default (codes "ListenPort" ++ digits) (pos 10000) items

abbrev pub close_socket : ℕ → Sockets → Bool × Sockets
close_socket fd s = (false, record s { closed = s.closed ++ (fd ∷ []) })

-- bind() and listen() on the port that the configuration gives, as far as it can be read
unfoldable pub bind_fd : Option ℤ → ℕ → Attempt → Sockets → Option (Bool × Sockets)
bind_fd none fd w s = none
bind_fd (some iport) fd w s =
    if not w.bound
    then some (close_socket fd s)
    else if not w.listens
    then some (close_socket fd s)
    else some
        (true, record s { listening = s.listening ++ (record { port = iport; fd = fd } ∷ []) })

-- A round of the loop behind socket(), with the port `iport`
unfoldable pub open_fd : Option ℤ → ℕ → Attempt → Sockets → Option (Bool × Sockets)
unfolding bind_fd
open_fd iport fd w s =
    if not w.reuseaddr
    then some (close_socket fd s)
    else if not w.nonblocking
    then some (close_socket fd s)
    else bind_fd iport fd w s

unfoldable pub open_socket : Option ℕ → Option ℤ → Attempt → Sockets → Option (Bool × Sockets)
unfolding open_fd
open_socket none iport w s = some (false, s)
open_socket (some fd) iport w s = open_fd iport fd w (record s { opened = s.opened ++ (fd ∷ []) })

-- The rounds that are left, from port `i` on; a failed round ends the loop.
unfoldable pub open_loop : ℕ → ℕ → (ℕ → Attempt) → List Item → Sockets → Option (Bool × Sockets)
unfolding open_socket port_of
open_loop zero i answers items s = some (true, s)
open_loop (suc left) i answers items s = do
  (ok, s') ← open_socket (answers i).socket (port_of items i) (answers i) s
  let rest = open_loop left (suc i) answers items s'
  if ok then rest else some (false, s')

-- CSocket::qc_open_listening_sockets
unfoldable pub open_listening_sockets :
    ℤ → (ℕ → Attempt) → List Item → Sockets → Option (Bool × Sockets)
unfolding open_loop
open_listening_sockets port_count answers items s = do
  (ok, s') ← open_loop (pos_part port_count) 0 answers items s
  let none_open = length s'.listening == 0
  some (if none_open then false else ok, s')

-- CSocket::qc_close_listening_sockets, for a list of m_ListenPortCount sockets
unfoldable pub close_listening_sockets : Sockets → Sockets
close_listening_sockets s = record s { closed = s.closed ++ map (λ l. l.fd) s.listening }

-- CSocket::CSocket
unfoldable pub new_server : SockConf → Server
new_server conf = record {
  conf = conf;
  pool = empty_pool;
  timers = no_timers;
  send_queue = [];
  send_queue_n = pos 0;
  discarded = 0;
  sem = 0;
  recv_queue = [];
  recv_queue_n = pos 0;
}

-- What qc_epoll_init writes into the connection of a listening socket
abbrev pub listen_on : ℕ → Conn → Conn
listen_on i c =
    epoll_oper_event ctl_add (bit_or epollin epollrdhup) 0
      (record c { listening = some i; rhandler = some event_accept })

-- The connection of a listening socket, and the server with it
unfoldable pub add_listener : ℕ → ℕ → ℕ → Server → ℕ × Server
add_listener now i fd s =
    let (a, p) = get_connection now fd s.pool in
    (a, with_conn a (listen_on i) (record s { pool = p }))

-- The loop of qc_epoll_init from the listening socket `i` on: the connections that the sockets get
-- and the server. Where epoll_ctl() fails, the process exits: none.
unfoldable pub listeners_loop :
    ℕ → (ℕ → Bool) → ℕ → List Listening → Server → Option (List ℕ × Server)
unfolding add_listener
listeners_loop now watched i [] s = some ([], s)
listeners_loop now watched i (l ∷ ls) s = do
  let (a, s') = add_listener now i l.fd s
  (as_, s'') ← if watched i then listeners_loop now watched (suc i) ls s' else none
  some (a ∷ as_, s'')

-- CSocket::qc_epoll_init; `created` is whether epoll_create() works.
unfoldable pub epoll_init :
    Bool → ℕ → (ℕ → Bool) → List Listening → Server → Option (List ℕ × Server)
unfolding listeners_loop
epoll_init created now watched ls s =
    if not created
    then none
    else listeners_loop now watched 0 ls
        (record s { pool = init_connection s.conf.worker_connections now s.pool })
