-- ===== src/Net/Server/Read.antt =====
-- net/qc_socket_request.cc and net/qc_socket_accept.cc: the handlers of read events, on a client's
-- connection and on a listening one. What the system calls answer is an argument.
use quick_comm.Base.{
  ℕ, ◌*◌, Bool, true, false, ◌&&◌, List, [], ◌∷◌, ◌++◌, Option, some, ltb, if◌then◌else◌, length,
}
use Prim.Native.Nat.{bit_or}
use quick_comm.Base.Int.{pos, ◌+ℤ◌, leb_ℤ}
use quick_comm.Net.Recv.{Msg, Outcome, more, queued, flooded, read_bytes}
use quick_comm.Net.Timer.{add_to_timer_queue}
use quick_comm.Net.Pool.{read_request, write_request, get_connection, close_connection}
use quick_comm.Net.Server.{
  Server, conn_at, with_conn, zd_close_socket_proc, epoll_oper_event, ctl_add, epollin, epollrdhup,
}

-- What recv() answers: bytes, 0 when the peer has closed, or -1 with an errno.
pub data Received : Type 0 where
  got : List ℕ → Received
  peer_closed again interrupted failed : Received

-- CThreadPool::inMsgRecvQueueAndSignal, without the signal
unfoldable pub in_msg_recv_queue : Option Msg → Server → Server
in_msg_recv_queue m s = record s {
  recv_queue = s.recv_queue ++ (m ∷ []);
  recv_queue_n = s.recv_queue_n +ℤ pos 1;
}

-- The packet of a read, and the sender that floods.
unfoldable pub finish_read : ℕ → ℕ → Outcome → Server → Server
finish_read now a more s = s
finish_read now a (queued m) s = in_msg_recv_queue m s
finish_read now a flooded s = zd_close_socket_proc now a s

-- CSocket::qc_read_request_handler with recvproc: `ms` and `now` are the time in milliseconds and
-- seconds, and `fresh` is what new memory holds.
unfoldable pub read_request_handler : (ℕ → List ℕ) → ℕ → ℕ → ℕ → Received → Server → Server
unfolding finish_read in_msg_recv_queue
read_request_handler fresh ms now a (got bytes) s =
    let c = conn_at a s in
    let (r, f, out) = read_bytes s.conf.flood fresh ms a c.seq c.recv c.flood bytes in
    finish_read now a out (with_conn a (λ c. record c { recv = r; flood = f }) s)
read_request_handler fresh ms now a peer_closed s = zd_close_socket_proc now a s
read_request_handler fresh ms now a again s = s
read_request_handler fresh ms now a interrupted s = s
read_request_handler fresh ms now a failed s = zd_close_socket_proc now a s

-- What accept4() or accept() answers: a descriptor, or -1 with ENOSYS or another errno.
pub data Accepted : Type 0 where
  socket_fd : ℕ → Accepted
  no_sys other_errno : Accepted

-- How a call of qc_event_accept ends: no connection was there, the new socket was refused and
-- closed, it was left behind open but not watched, epoll refused it, or it is a client now.
pub data AcceptEnd : Type 0 where
  no_client refused left_behind epoll_refused client : AcceptEnd

-- The guards of qc_event_accept against too many clients, and against too many connections of
-- which few are free.
unfoldable pub too_many : Server → Bool
too_many s =
    if leb_ℤ (pos s.conf.worker_connections) s.pool.online
    then true
    else ltb (s.conf.worker_connections * 5) (length s.pool.conn_list)
      && ltb (length s.pool.free_list) s.conf.worker_connections

-- The new connection is set up, for a listening connection at address `old`.
abbrev pub set_up : ℕ → ℕ → Server → Server
set_up old a s =
    with_conn a
      (λ c. epoll_oper_event ctl_add (bit_or epollin epollrdhup) 0 (record c {
        listening = (conn_at old s).listening;
        rhandler = some read_request;
        whandler = some write_request;
      }))
      s

-- if (m_ifkickTimeCount == 1) AddToTimerQueue(newc); ++m_onlineUserCount;
abbrev pub count_client : ℕ → ℕ → Server → Server
count_client now a s = record s {
  timers =
      if s.conf.kick_clock
      then add_to_timer_queue now s.conf.wait_time a (conn_at a s).seq s.timers
      else s.timers;
  pool = record (s.pool) { online = s.pool.online +ℤ pos 1 };
}

-- From `if (m_onlineUserCount >= m_worker_connections)` on; `nonblocking` is whether the socket
-- is non-blocking already or setnonblocking succeeds, and `watched` whether epoll_ctl does.
unfoldable pub admit : ℕ → ℕ → ℕ → Bool → Bool → Server → AcceptEnd × Server
unfolding too_many
admit now old fd nonblocking watched s =
    if too_many s
    then (refused, s)
    else (let (a, pool) = get_connection now fd (s.pool) in
        let s1 = record s { pool = pool } in
        if nonblocking
        then (let s2 = set_up old a s1 in
            if watched
            then (client, count_client now a s2)
            else (epoll_refused, record s2 { pool = close_connection a (s2.pool) }))
        else (left_behind, s1))

-- CSocket::qc_event_accept. `use_accept4` is the static flag; the answer of accept4() is `first`,
-- and `second` is that of accept(), which is called when accept4() is not there. The flag is
-- returned too.
unfoldable pub event_accept_handler :
    Bool → ℕ → ℕ → Accepted → Accepted → Bool → Bool → Server → Bool × AcceptEnd × Server
unfolding admit
event_accept_handler true now old (socket_fd fd) second nonblocking watched s =
    let (end, s') = admit now old fd true watched s in (true, end, s')
event_accept_handler true now old no_sys (socket_fd fd) nonblocking watched s =
    let (end, s') = admit now old fd nonblocking watched s in (false, end, s')
event_accept_handler true now old no_sys no_sys nonblocking watched s = (false, no_client, s)
event_accept_handler true now old no_sys other_errno nonblocking watched s = (false, no_client, s)
event_accept_handler true now old other_errno second nonblocking watched s = (true, no_client, s)
event_accept_handler false now old first (socket_fd fd) nonblocking watched s =
    let (end, s') = admit now old fd nonblocking watched s in (false, end, s')
event_accept_handler false now old first no_sys nonblocking watched s = (false, no_client, s)
event_accept_handler false now old first other_errno nonblocking watched s = (false, no_client, s)
