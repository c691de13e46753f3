-- ===== src/Service/Worker/Valid.antt =====
-- In every state that a worker reaches the counts, timers and owners are right.
use quick_comm.Base.{
  ℕ, suc, ◌≡◌, sym, ap, Bool, List, [], ◌∷◌, Option, some, length, if_cases, codes, arith,
}
use mathlib.Core.Path.{subst}
use quick_comm.Base.Int.{lower_pos, ℤ, pos, ltb_ℤ}
use quick_comm.Net.Recv.{Msg}
use quick_comm.Misc.Threads.{Threads}
use quick_comm.Public.Config.{Item, get_int_default}
use quick_comm.Net.Pool.Recycle.{recycle_round-Recycled}
use quick_comm.Net.Server.{Server, SockConf, with_conn}
use quick_comm.Net.Server.Close.{IsValid}
use quick_comm.Net.Server.Handlers.{modify-Inv}
use quick_comm.Net.Server.Start.{Listening}
use quick_comm.Net.Server.Life.{ThreadItems}
use quick_comm.Net.Server.Send.{SendCalls, send_one, send_loop, send_pass}
use quick_comm.Net.Server.Send.Queue.{stale, held, passed, handled, sending}
use quick_comm.Net.Server.Send.Serial.{send_pass-count}
use quick_comm.Net.Server.Events.Batch.{IsWatched, event-EndsValid}
use quick_comm.Net.Server.Events.{Event, process_event}
use quick_comm.Service.Dispatch.{thread_recv-IsValid}
use quick_comm.Service.Monitor.Checks.{check-IsValid}
use quick_comm.Net.Timer.Order.{get_over-Inv}
use quick_comm.Proc.Cycle.{Self, World, ready, worker_process_init}
use quick_comm.Proc.Cycle.Workers.{Begins, worker_init-Begins}
use quick_comm.Service.Worker.{
  ThreadStep, fires, sends, recycles, times_out, time_out, checks, takes, handles, Reach, here,
  next, pop_received, recycle_thread,
}

-- What a walk through the send queue keeps, whatever the count of the queue is
pub record KeepsRest (s : Server) : Type 0 where
  pub pool : quick_comm.Net.Pool.Owners.Inv s.pool
  pub timers : quick_comm.Net.Timer.Order.Inv s.timers
  pub receives : s.recv_queue_n ≡ pos (length s.recv_queue)

rest_of : (s : Server) → IsValid s → KeepsRest s
rest_of s v = record { pool = v.pool; timers = v.timers; receives = v.receives }

sent-KeepsRest :
    (calls : SendCalls) (m : Msg) (n : ℤ) (s : Server)
    → KeepsRest s
    → KeepsRest (record (with_conn m.conn (sending calls m) s) { send_queue_n = n })
sent-KeepsRest calls m n s k = record {
  pool = modify-Inv m.conn (sending calls m) s.pool k.pool;
  timers = k.timers;
  receives = k.receives;
}

one-KeepsRest :
    (calls : SendCalls) (m : Msg) (s : Server) → KeepsRest s → KeepsRest (send_one calls m s).1
one-KeepsRest calls m s k = elim (handled calls m s) [
  | stale h f ↦
      subst (λ (r : List Msg × Server). KeepsRest r.1) (sym f)
        (record { pool = k.pool; timers = k.timers; receives = k.receives })
  | held h w f ↦ subst (λ (r : List Msg × Server). KeepsRest r.1) (sym f) k
  | passed h w f ↦
      subst (λ (r : List Msg × Server). KeepsRest r.1) (sym f) (sent-KeepsRest calls m _ s k)
]

loop-KeepsRest :
    (calls : ℕ → SendCalls) (i : ℕ) (ms : List Msg) (s : Server)
    → KeepsRest s
    → KeepsRest (send_loop calls i ms s).1
unfolding send_loop
loop-KeepsRest calls i [] s k = k
loop-KeepsRest calls i (m ∷ ms) s k =
    loop-KeepsRest calls (suc i) ms (send_one (calls i) m s).1 (one-KeepsRest (calls i) m s k)

pass-KeepsRest : (calls : ℕ → SendCalls) (s : Server) → KeepsRest s → KeepsRest (send_pass calls s)
unfolding send_pass
pass-KeepsRest calls s k =
    let w = loop-KeepsRest calls 0 s.send_queue s k in
    if_cases KeepsRest (ltb_ℤ (pos 0) s.send_queue_n) _ _
      (λ _. record { pool = w.pool; timers = w.timers; receives = w.receives }) (λ _. k)

pass-IsValid : (calls : ℕ → SendCalls) (s : Server) → IsValid s → IsValid (send_pass calls s)
pass-IsValid calls s v =
    let k = pass-KeepsRest calls s (rest_of s v) in
    record {
      pool = k.pool;
      timers = k.timers;
      sends = send_pass-count calls s v.sends;
      receives = k.receives;
    }

pop-IsValid :
    (jobbuf : Option Msg) (rest : List (Option Msg)) (s : Server)
    → s.recv_queue ≡ jobbuf ∷ rest
    → IsValid s
    → IsValid (pop_received rest s)
pop-IsValid jobbuf rest s e v = record {
  pool = v.pool;
  timers = v.timers;
  sends = v.sends;
  receives =
      lower_pos (length s.recv_queue) (length rest) s.recv_queue_n v.receives
        (omega (arith, ap length e));
}

fires-IsValid :
    (e : Event) (before after : Bool) (s s' : Server)
    → IsWatched s e
    → process_event e.answers e.conn e.revents (before, s) ≡ some (after, s')
    → IsValid s
    → IsValid s'
fires-IsValid e before after s s' w eq v =
    let (done, ends, v', keeps) = event-EndsValid e before s v w in
    let same : done.1 ≡ s' = cc (ends, eq) in subst IsValid same v'

time_out-IsValid : (cur : ℕ) (s : Server) → IsValid s → IsValid (time_out cur s)
unfolding time_out
time_out-IsValid cur s v = record {
  pool = v.pool;
  timers = get_over-Inv cur s.conf.wait_time s.conf.timeout_kick s.timers v.timers;
  sends = v.sends;
  receives = v.receives;
}

Step-IsValid : {s s' : Server} → ThreadStep s s' → IsValid s → IsValid s'
Step-IsValid {s = s} {s' = s'} (fires e before after w eq) v =
    fires-IsValid e before after s s' w eq v
Step-IsValid {s = s} (sends calls e) v = subst IsValid (sym e) (pass-IsValid calls s v)
Step-IsValid {s = s} (recycles cur stop e) v =
    let w : IsValid (recycle_thread cur stop s) = record {
      pool = (recycle_round-Recycled cur s.conf.recy_wait stop s.pool v.pool).valid;
      timers = v.timers;
      sends = v.sends;
      receives = v.receives;
    } in
    subst IsValid (sym e) w
Step-IsValid {s = s} (times_out cur e) v = subst IsValid (sym e) (time_out-IsValid cur s v)
Step-IsValid {s = s} (checks cur h k e) v =
    subst IsValid (sym e) (check-IsValid cur h.conn h.seq s v k)
Step-IsValid {s = s} (takes jobbuf rest q e) v =
    subst IsValid (sym e) (pop-IsValid jobbuf rest s q v)
Step-IsValid {s = s} (handles fresh now m h e) v =
    subst IsValid (sym e) (thread_recv-IsValid fresh now m s v h)

pub Reach-IsValid : {s s' : Server} → IsValid s → Reach s s' → IsValid s'
Reach-IsValid v here = v
Reach-IsValid v (next r st) = Step-IsValid st (Reach-IsValid v r)

-- A worker process that qc_worker_process_init leaves ready to serve, with any number of threads
-- that the configuration gives: in every state that a sequence of whole steps leads to, run one at a
-- time in any order, the server is valid. A step is the handling of one event, a pass of the send
-- thread, a round of the recycling thread, a call of GetOverTimeTimer, the check of one due timer,
-- the taking of a message by a thread of the pool, or the handling of one. It is premised that an
-- event is for a connection in use that has a handler, and that a timer that is checked or a message
-- that is handled is for a connection that is not free or has another number by then.
pub worker-StaysValid :
    (w : World) (items : List Item) (threadnums : ℤ) (conf : SockConf) (ls : List Listening)
    (self self' : Self) (pool : Threads) (threads : ThreadItems) (conns : List ℕ) (s s' : Server)
    → get_int_default (codes "ProcMsgRecvWorkThreadCount") (pos 5) items ≡ some threadnums
    → worker_process_init w items conf ls self ≡ some (ready self' pool threads conns s)
    → Reach s s'
    → IsValid s'
worker-StaysValid w items threadnums conf ls self self' pool threads conns s s' n e r =
    let (b, run, begins) = worker_init-Begins w items threadnums conf ls self n in
    let same : b ≡ ready self' pool threads conns s = cc (run, e) in
    let (unblocks, created, made, all, v, served) =
      subst (Begins w threadnums conf ls self) same begins in
    Reach-IsValid v r
