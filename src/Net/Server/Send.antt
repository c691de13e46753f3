-- ===== src/Net/Server/Send.antt =====
-- net/qc_socket_request.cc and net/qc_socket.cc: how messages leave, in the send thread and in the
-- handler of write events. What send() answers is an argument; `wire` is what it took.
pub mod Packet
pub mod Deliver
pub mod Queue
pub mod Turns
pub mod Walk
pub mod Serial
use quick_comm.Base.{
  ℕ, zero, suc, ◌+◌, ◌-◌, Bool, true, false, not, List, [], ◌∷◌, ◌++◌, Option, none, some, ◌==◌,
  if◌then◌else◌, take, drop,
}
use Prim.Native.Nat.{bit_or}
use quick_comm.Base.Int.{ℤ, pos, ◌+ℤ◌, ◌-ℤ◌, ltb_ℤ}
use quick_comm.Net.Recv.{Msg, declared}
use quick_comm.Net.Pool.{Conn, Handler, event_accept, read_request, write_request}
use quick_comm.Net.Server.{
  Server, conn_at, with_conn, epoll_oper_event, EpollCtl, ctl_mod, epollout,
}

-- The calls of send() up to the first that is not interrupted: how many bytes it took, or the
-- errno.
pub data SendCalls : Type 0 where
  took : ℕ → SendCalls
  full broken : SendCalls
  interrupted : SendCalls → SendCalls

-- What sendproc returns: the number of bytes, -1 or -2.
pub data Sent : Type 0 where
  bytes : ℕ → Sent
  would_block disconnected : Sent

-- CSocket::sendproc
unfoldable pub sendproc : SendCalls → Sent
sendproc (took n) = bytes n
sendproc full = would_block
sendproc broken = disconnected
sendproc (interrupted calls) = sendproc calls

-- The message is taken up: --iSendCount, psendMemPointer, psendbuf and isendlen are set.
abbrev pub start_send : Msg → Conn → Conn
start_send m c = record c {
  send_count = c.send_count -ℤ pos 1;
  send_mem = some m;
  send_buf = 0;
  send_len = declared m.packet;
}

-- psendbuf + sendsize and isendlen - sendsize
abbrev pub advance_send : ℕ → Conn → Conn
advance_send n c = record c { send_buf = c.send_buf + n; send_len = c.send_len - n }

-- FreeMemory(psendMemPointer), psendMemPointer = NULL and iThrowsendCount = 0
abbrev pub drop_send : Conn → Conn
drop_send c = record c { send_mem = none; throw_send_count = pos 0 }

-- ++iThrowsendCount, and the system is asked to tell when the socket is writable.
abbrev pub wait_writable : Conn → Conn
wait_writable c =
    epoll_oper_event ctl_mod epollout 0
      (record c { throw_send_count = c.throw_send_count +ℤ pos 1 })

-- What the send thread does with the answer of sendproc.
unfoldable pub after_send : Sent → Conn → Conn
after_send (bytes zero) c = drop_send c
after_send (bytes (suc n)) c =
    if suc n == c.send_len then drop_send c else wait_writable (advance_send (suc n) c)
after_send would_block c = wait_writable c
after_send disconnected c = drop_send c

-- One message of the queue in CSocket::ServerSendQueueThread: the message if it stays in the
-- queue, and the new state.
unfoldable pub send_one : SendCalls → Msg → Server → List Msg × Server
unfolding after_send sendproc
send_one calls m s =
    if not ((conn_at m.conn s).seq == m.seq)
    then ([], record s { send_queue_n = s.send_queue_n -ℤ pos 1 })
    else if ltb_ℤ (pos 0) (conn_at m.conn s).throw_send_count
    then (m ∷ [], s)
    else (
      [],
      record (with_conn m.conn (λ c. after_send (sendproc calls) (start_send m c)) s) {
        send_queue_n = s.send_queue_n -ℤ pos 1;
      },
    )

-- The walk through the queue; `calls i` is what send() answers for its i-th message.
unfoldable pub send_loop : (ℕ → SendCalls) → ℕ → List Msg → Server → List Msg × Server
unfolding send_one
send_loop calls i [] s = ([], s)
send_loop calls i (m ∷ queue) s =
    let (kept, s1) = send_one (calls i) m s in
    let (left, s2) = send_loop calls (suc i) queue s1 in (kept ++ left, s2)

-- CSocket::ServerSendQueueThread after sem_wait, with the queue's mutex held
unfoldable pub send_pass : (ℕ → SendCalls) → Server → Server
unfolding send_loop
send_pass calls s =
    if ltb_ℤ (pos 0) s.send_queue_n
    then (let (left, s1) = send_loop calls 0 s.send_queue s in record s1 { send_queue = left })
    else s

-- FreeMemory(psendMemPointer), psendMemPointer = NULL and --iThrowsendCount
abbrev pub end_send : Conn → Conn
end_send c = record c { send_mem = none; throw_send_count = c.throw_send_count -ℤ pos 1 }

-- The connection after CSocket::qc_write_request_handler, and whether it posts the semaphore.
unfoldable pub write_done : Sent → Conn → Bool × Conn
write_done (bytes zero) c = (true, end_send c)
write_done (bytes (suc n)) c =
    if suc n == c.send_len
    then (true, end_send (epoll_oper_event ctl_mod epollout 1 c))
    else (false, advance_send (suc n) c)
write_done would_block c = (false, c)
write_done disconnected c = (true, end_send c)

-- CSocket::qc_write_request_handler
unfoldable pub write_request_handler : SendCalls → ℕ → Server → Server
unfolding write_done sendproc
write_request_handler calls a s =
    let (posted, c) = write_done (sendproc calls) (conn_at a s) in
    let s1 = with_conn a (λ _. c) s in if posted then record s1 { sem = s1.sem + 1 } else s1

-- The bytes that send() takes from psendbuf on when sendproc returns `sent`.
abbrev pub wire : Sent → Conn → List ℕ
wire (bytes n) c = elim c.send_mem [ none ↦ [] | some m ↦ take n (drop c.send_buf m.packet) ]
wire would_block c = []
wire disconnected c = []
