-- ===== src/Net/Server/Life.antt =====
-- net/qc_socket.cc: the threads of a CSocket and its end, in a worker process. What the system
-- answers is an argument.
use quick_comm.Base.{
  ℕ, ◌+◌, ◌-◌, Bool, true, false, not, List, [], ◌∷◌, Option, some, ◌==◌, if◌then◌else◌, ◌>>=◌,
}
use quick_comm.Base.Int.{ℤ, pos, negsuc}
use quick_comm.Public.Config.{Item}
use quick_comm.Net.Timer.{clear_all_from_timer_queue}
use quick_comm.Net.Pool.{clear_connection}
use quick_comm.Net.Server.{Server}
use quick_comm.Net.Server.Send.{SendCalls, send_pass}
use quick_comm.Net.Server.Start.{Settings, Sockets, Attempt, read_conf, open_listening_sockets}

-- CSocket::Initialize: what it returns, the settings and the sockets
unfoldable pub initialize :
    List Item → (ℕ → Attempt) → Settings → Sockets → Option (Bool × Settings × Sockets)
initialize items answers settings s = do
  read ← read_conf items settings
  (ok, s') ← open_listening_sockets read.listen_port_count answers items s
  some (ok, read, s')

-- The functions of the threads
pub data Work : Type 0 where
  send_queue recycle timer_queue : Work

-- Whether pthread_mutex_init() works for each of the mutexes, sem_init(), and pthread_create() for
-- each of the threads.
pub record Created : Type 0 where
  pub send_mutex : Bool
  pub connection_mutex : Bool
  pub recycle_mutex : Bool
  pub timer_mutex : Bool
  pub semaphore : Bool
  pub thread : Work → Bool

-- An entry of m_threadVector: its function, and whether it has a thread.
abbrev pub ThreadItems : Type 0
ThreadItems = List (Work × Bool)

-- The pthread_create() of one thread: the rest is done only if it works.
abbrev push_thread : Created → Work → Bool × ThreadItems → Bool × ThreadItems
push_thread c w rest = if c.thread w then (rest.0, (w, true) ∷ rest.1) else (false, (w, false) ∷ [])

-- CSocket::Initialize_subproc; `kick` is m_ifkickTimeCount == 1.
unfoldable pub initialize_subproc : Bool → Created → Bool × ThreadItems
initialize_subproc kick c =
    if not c.send_mutex
    then (false, [])
    else if not c.connection_mutex
    then (false, [])
    else if not c.recycle_mutex
    then (false, [])
    else if not c.timer_mutex
    then (false, [])
    else if not c.semaphore
    then (false, [])
    else push_thread c send_queue
        (push_thread c recycle (if kick then push_thread c timer_queue (true, []) else (true, [])))

-- A turn of the send thread: g_stopEvent before and behind sem_wait(), whether that works, and
-- what the calls of send() answer
pub record Turn : Type 0 where
  pub stop_before : Bool
  pub woken : Bool
  pub stop_behind : Bool
  pub calls : ℕ → SendCalls

-- The loop of CSocket::ServerSendQueueThread over some turns: whether it has ended.
unfoldable pub send_thread : List Turn → Server → Bool × Server
send_thread [] s = (false, s)
send_thread (t ∷ ts) s =
    let s1 = if t.woken then record s { sem = s.sem - 1 } else s in
    let rest = send_thread ts (send_pass t.calls s1) in
    if t.stop_before then (true, s) else if t.stop_behind then (true, s1) else rest

-- CSocket::clearMsgSendQueue
unfoldable pub clear_msg_send_queue : Server → Server
clear_msg_send_queue s = record s { send_queue = [] }

-- CSocket::Shutdown_subproc, when the threads have ended: the semaphore is posted for the send
-- thread, the threads are joined and their items deleted, and the queues are cleared.
unfoldable pub shutdown_subproc : ThreadItems → Server → ThreadItems × Server
unfolding clear_msg_send_queue
shutdown_subproc items s =
    let s1 = clear_msg_send_queue (record s { sem = s.sem + 1 }) in
    (
      [],
      record s1 {
        pool = clear_connection (s1.pool);
        timers = clear_all_from_timer_queue (s1.timers);
      },
    )

-- CSocket::~CSocket
unfoldable pub delete_listening : Sockets → Sockets
delete_listening s = record s { listening = [] }

-- x == 1
abbrev pub is_one : ℤ → Bool
is_one (pos n) = n == 1
is_one (negsuc n) = false
