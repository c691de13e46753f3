-- ===== src/Net/Server.antt =====
-- include/qc_socket.h and net/qc_socket.cc: the state of a CSocket, closing a connection, and the
-- queues between the event loop, the message threads and the send thread. Logging has no effect
-- on this state and is left out, and so are the semaphore's and the mutexes' failures.
pub mod Close
pub mod Events
pub mod Handlers
pub mod Read
pub mod Send
pub mod Sample
pub mod Start
pub mod Life
mod Tests
use quick_comm.Base.{
  ℕ, suc, ◌+◌, ◌-◌, ◌^◌, Bool, true, false, List, [], ◌∷◌, ◌++◌, Option, none, some, ltb, ◌==◌,
  if◌then◌else◌,
}
use Prim.Native.Nat.{bit_and, bit_or}
use quick_comm.Base.Int.{ℤ, pos, ◌+ℤ◌, ◌-ℤ◌, ltb_ℤ}
use quick_comm.Net.Flood.{FloodConf}
use quick_comm.Net.Recv.{Msg}
use quick_comm.Net.Timer.{Timers, delete_from_timer_queue}
use quick_comm.Net.Pool.{Conn, Pool, modify, in_recy_connect_queue}

-- The settings that CSocket::ReadConf reads; `kick_clock` is m_ifkickTimeCount == 1 and
-- `timeout_kick` is m_ifTimeOutKick == 1.
pub record SockConf : Type 0 where
  pub worker_connections : ℕ
  pub recy_wait : ℕ
  pub kick_clock : Bool
  pub wait_time : ℕ
  pub timeout_kick : Bool
  pub flood : FloodConf

-- CSocket, with the message queue of the thread pool that it feeds. `sem` counts the posts of
-- m_semEventSendQueue.
pub record Server : Type 0 where
  pub conf : SockConf
  pub pool : Pool
  pub timers : Timers
  pub send_queue : List Msg
  pub send_queue_n : ℤ
  pub discarded : ℕ
  pub sem : ℕ
  pub recv_queue : List (Option Msg)
  pub recv_queue_n : ℤ

abbrev pub conn_at : ℕ → Server → Conn
conn_at a s = s.pool.conns a

abbrev pub with_conn : ℕ → (Conn → Conn) → Server → Server
with_conn a g s = record s { pool = modify a g (s.pool) }

-- close(fd), and if (iThrowsendCount > 0) --iThrowsendCount
unfoldable pub shut : Conn → Conn
shut c = record c {
  fd = none;
  throw_send_count =
      if ltb_ℤ (pos 0) c.throw_send_count then c.throw_send_count -ℤ pos 1 else c.throw_send_count;
}

-- CSocket::zdClosesocketProc
unfoldable pub zd_close_socket_proc : ℕ → ℕ → Server → Server
unfolding shut
zd_close_socket_proc now a s = record s {
  timers = if s.conf.kick_clock then delete_from_timer_queue a s.timers else s.timers;
  pool = in_recy_connect_queue now a (modify a shut (s.pool));
}

-- ++m_iDiscardSendPkgCount and FreeMemory(psendbuf)
abbrev pub discard : Server → Server
discard s = record s { discarded = s.discarded + 1 }

-- ++iSendCount, push_back, ++m_iSendMsgQueueCount and sem_post
abbrev pub enqueue : Msg → Server → Server
enqueue m s = record (with_conn m.conn (λ c. record c { send_count = c.send_count +ℤ pos 1 }) s) {
  send_queue = s.send_queue ++ (m ∷ []);
  send_queue_n = s.send_queue_n +ℤ pos 1;
  sem = s.sem + 1;
}

-- CSocket::msgSend
unfoldable pub msg_send : ℕ → Msg → Server → Server
msg_send now m s =
    if ltb_ℤ (pos 50000) s.send_queue_n
    then discard s
    else if ltb_ℤ (pos 400) (conn_at m.conn s).send_count
    then zd_close_socket_proc now m.conn (discard s)
    else enqueue m s

-- EPOLL_CTL_ADD, EPOLL_CTL_MOD and EPOLL_CTL_DEL
pub data EpollCtl : Type 0 where
  ctl_add ctl_mod ctl_del : EpollCtl

-- `~flag` in a uint32_t
abbrev pub complement : ℕ → ℕ
complement flag = 2 ^ 32 - 1 - flag

changed_events : ℕ → ℕ → ℕ → ℕ
changed_events flag bcaction events =
    if bcaction == 0
    then bit_or events flag
    else if bcaction == 1
    then bit_and events (complement flag)
    else flag

-- CSocket::qc_epoll_oper_event: what it does to pConn->events, before epoll_ctl() is called.
unfoldable pub epoll_oper_event : EpollCtl → ℕ → ℕ → Conn → Conn
unfolding changed_events
epoll_oper_event ctl_add flag bcaction c = record c { events = flag }
epoll_oper_event ctl_mod flag bcaction c = record c {
  events = changed_events flag bcaction c.events;
}
epoll_oper_event ctl_del flag bcaction c = c

abbrev pub epollin : ℕ
epollin = 1

abbrev pub epollout : ℕ
epollout = 4

abbrev pub epollrdhup : ℕ
epollrdhup = 0x2000
