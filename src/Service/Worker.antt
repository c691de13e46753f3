-- ===== src/Service/Worker.antt =====
-- proc/qc_process_cycle.cc with the threads that Initialize_subproc and Create start: what a
-- worker process does, as a sequence of steps of its threads. What a thread does under a lock is one
-- step: a pass of the send thread, a round of the recycling thread, a call of GetOverTimeTimer, the
-- taking of a message. So is the handling of one event, the check of one due timer, and the handling
-- of one message, which take locks only for parts of them: in the source other threads can come
-- between those parts, so msgSend, say, can close a connection that another thread has given back
-- since the handler compared the numbers. Such interleavings are not modelled.
pub mod Valid
mod Tests
use quick_comm.Base.{ℕ, ◌<◌, ◌≡◌, Bool, List, ◌∷◌, Option, some, All, length}
use quick_comm.Base.Int.{pos, ◌-ℤ◌}
use quick_comm.Net.Recv.{Msg}
use quick_comm.Net.Timer.{Header, get_over_time_timer}
use quick_comm.Net.Pool.{recycle_round}
use quick_comm.Net.Server.{Server}
use quick_comm.Net.Server.Close.{IsHeldOrOld}
use quick_comm.Net.Server.Send.{SendCalls, send_pass}
use quick_comm.Net.Server.Events.{Event, process_event}
use quick_comm.Net.Server.Events.Batch.{IsWatched}
use quick_comm.Service.{proc_ping_time_out_checking, thread_recv_proc_func}

-- pop_front of m_MsgRecvQueue, in the pool's thread function
abbrev pub pop_received : List (Option Msg) → Server → Server
pop_received rest s = record s { recv_queue = rest; recv_queue_n = s.recv_queue_n -ℤ pos 1 }

-- A round of the recycling thread
abbrev pub recycle_thread : ℕ → Bool → Server → Server
recycle_thread cur stop s = record s { pool = recycle_round cur s.conf.recy_wait stop s.pool }

-- A call of GetOverTimeTimer in the timer thread
unfoldable pub time_out : ℕ → Server → Server
time_out cur s = record s {
  timers = (get_over_time_timer cur s.conf.wait_time s.conf.timeout_kick s.timers).1;
}

-- The event loop handles an event; the send and the recycling thread make a round; the timer thread
-- takes a due timer out of the queue, or checks the client of one; a thread of the pool takes a
-- message, or handles one. The event is for a connection in use with the handlers of a client or of a
-- listening socket, which is what epoll watches; a timer that is checked or a message that is handled
-- is for a connection that is not free, or that has another number by then. The program tests the
-- number only: that a free connection does not have the number of an old message again is a premise,
-- as numbers start again after the largest one.
pub data ThreadStep (s : Server) (s' : Server) : Type 0 where
  fires :
      (e : Event) (before after : Bool)
      → IsWatched s e
      → process_event e.answers e.conn e.revents (before, s) ≡ some (after, s')
      → ThreadStep s s'
  sends : (calls : ℕ → SendCalls) → s' ≡ send_pass calls s → ThreadStep s s'
  recycles : (cur : ℕ) (stop : Bool) → s' ≡ recycle_thread cur stop s → ThreadStep s s'
  times_out : (cur : ℕ) → s' ≡ time_out cur s → ThreadStep s s'
  checks :
      (cur : ℕ) (h : Header)
      → IsHeldOrOld h.conn h.seq s
      → s' ≡ proc_ping_time_out_checking cur h.conn h.seq s
      → ThreadStep s s'
  takes :
      (jobbuf : Option Msg) (rest : List (Option Msg))
      → s.recv_queue ≡ jobbuf ∷ rest
      → s' ≡ pop_received rest s
      → ThreadStep s s'
  handles :
      (fresh : ℕ → List ℕ) (now : ℕ) (m : Msg)
      → IsHeldOrOld m.conn m.seq s
      → s' ≡ thread_recv_proc_func fresh now m s
      → ThreadStep s s'

-- The states that steps lead to
pub data Reach (s : Server) : Server → Type 0 where
  here : Reach s s
  next : {t u : Server} → Reach s t → ThreadStep t u → Reach s u
