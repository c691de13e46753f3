-- ===== src/Net/Server/Events.antt =====
-- net/qc_socket.cc: CSocket::qc_epoll_process_events, for one event and for a call of epoll_wait().
pub mod Others
pub mod Valid
pub mod Batch
mod Tests
use quick_comm.Base.{
  zero, [], ◌∷◌, true, false, ◌>>=◌, ℕ, Bool, not, List, Option, none, some, ◌==◌, if◌then◌else◌,
}
use Prim.Native.Nat.{bit_and, bit_or}
use quick_comm.Base.Int.{ℤ, negsuc, pos, ◌-ℤ◌}
use quick_comm.Net.Pool.{Conn, Handler, event_accept, read_request, write_request}
use quick_comm.Net.Server.{Server, conn_at, with_conn, epollin, epollout, epollrdhup}
use quick_comm.Net.Server.Read.{Received, Accepted, read_request_handler, event_accept_handler}
use quick_comm.Net.Server.Send.{SendCalls, write_request_handler}

-- What the system answers while an event is handled: the times, new memory, recv(), accept4(),
-- accept(), whether the socket can be made non-blocking and be watched, and send().
pub record System : Type 0 where
  pub ms : ℕ
  pub now : ℕ
  pub fresh : ℕ → List ℕ
  pub reading : Received
  pub accepting4 : Accepted
  pub accepting : Accepted
  pub nonblocking : Bool
  pub watched : Bool
  pub sending : SendCalls

abbrev pub epollerr : ℕ
epollerr = 8

abbrev pub epollhup : ℕ
epollhup = 16

abbrev pub has : ℕ → ℕ → Bool
has revents flag = not (bit_and revents flag == 0)

-- (this->*handler)(p_Conn), with the static flag use_accept4
unfoldable pub call : System → Bool → ℕ → Handler → Server → Bool × Server
call w use_accept4 a event_accept s =
    let (flag, end, s') =
      event_accept_handler use_accept4 w.now a w.accepting4 w.accepting w.nonblocking w.watched s in
    (flag, s')
call w use_accept4 a read_request s =
    (use_accept4, read_request_handler w.fresh w.ms w.now a w.reading s)
call w use_accept4 a write_request s = (use_accept4, write_request_handler w.sending a s)

-- A call through a null pointer to a member function is undefined: none.
abbrev pub call_pointer : System → Bool → ℕ → Option Handler → Server → Option (Bool × Server)
call_pointer w use_accept4 a none s = none
call_pointer w use_accept4 a (some handler) s = some (call w use_accept4 a handler s)

-- The part for EPOLLOUT
unfoldable pub writable_event : System → ℕ → ℕ → Bool × Server → Option (Bool × Server)
unfolding call
writable_event w a revents (use_accept4, s) =
    if not (has revents epollout)
    then some (use_accept4, s)
    else if has revents (bit_or epollerr (bit_or epollhup epollrdhup))
    then some (
      use_accept4,
      with_conn a (λ c. record c { throw_send_count = c.throw_send_count -ℤ pos 1 }) s,
    )
    else call_pointer w use_accept4 a (conn_at a s).whandler s

-- The body of the loop over the events, for an event of the connection at `a`.
unfoldable pub process_event : System → ℕ → ℕ → Bool × Server → Option (Bool × Server)
unfolding writable_event call
process_event w a revents (use_accept4, s) =
    if has revents epollin
    then elim (call_pointer w use_accept4 a (conn_at a s).rhandler s) [
      | none ↦ none
      | some after ↦ writable_event w a revents after
    ]
    else writable_event w a revents (use_accept4, s)

-- An entry of m_events, with what the system answers while it is handled
pub record Event : Type 0 where
  pub conn : ℕ
  pub revents : ℕ
  pub answers : System

-- for(int i = 0; i < events; ++i)
unfoldable pub events_loop : List Event → Bool × Server → Option (Bool × Server)
unfolding process_event
events_loop [] after = some after
events_loop (e ∷ es) after =
    process_event e.answers e.conn e.revents after >>= λ next. events_loop es next

-- What epoll_wait() answers: -1, by a signal (EINTR) or not, or the events
pub data Waited : Type 0 where
  wait_failed : Bool → Waited
  events : List Event → Waited

-- timer == -1
abbrev pub waits_forever : ℤ → Bool
waits_forever (pos n) = false
waits_forever (negsuc n) = n == 0

-- CSocket::qc_epoll_process_events: what it returns, and what it leaves
unfoldable pub process_events : ℤ → Waited → Bool × Server → Option (ℕ × Bool × Server)
unfolding events_loop
process_events timer (wait_failed signal) (flag, s) = some (if signal then 1 else 0, flag, s)
process_events timer (events []) (flag, s) = some (if waits_forever timer then 0 else 1, flag, s)
process_events timer (events (e ∷ es)) (flag, s) =
    events_loop (e ∷ es) (flag, s) >>= λ after. some (1, after.0, after.1)
