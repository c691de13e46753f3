-- ===== src/Net/Server/Events/Valid.antt =====
-- Every event keeps the server valid.
use quick_comm.Base.{
  ◌+◌, ℕ, ◌≡◌, refl, ap, ◌∙◌, Bool, true, false, inl, inr, List, Option, none, some, ◌==◌,
  if◌then◌else◌, Bool-cases, arith,
}
use Prim.Native.Nat.{bit_or}
use quick_comm.Base.Int.{pos, ◌-ℤ◌}
use quick_comm.Net.Recv.{Outcome, more, queued, flooded, read_bytes}
use quick_comm.Net.Pool.Owners.{InUse}
use quick_comm.Net.Pool.{
  contains, in_recy_connect_queue, Handler, event_accept, read_request, write_request,
}
use quick_comm.Net.Server.{
  Server, zd_close_socket_proc, shut, conn_at, with_conn, epollin, epollout, epollrdhup,
}
use quick_comm.Net.Pool.Taken.{own_entry}
use quick_comm.Net.Server.Close.{IsValid, IsHeld}
use quick_comm.Net.Server.Handlers.{with_conn-IsValid, read_request-IsValid, admit-Admitted}
use quick_comm.Net.Server.Read.{
  Received, got, peer_closed, again, interrupted, failed, finish_read, in_msg_recv_queue,
  read_request_handler, Accepted, socket_fd, no_sys, other_errno, event_accept_handler,
}
use quick_comm.Net.Server.Send.{SendCalls, write_done, sendproc, write_request_handler}
use quick_comm.Net.Server.Events.Others.{
  Keeps, Keeps-trans, with_conn-Keeps, read_request-Keeps, write_request-Keeps, accept-Keeps,
}
use quick_comm.Net.Server.Events.{
  System, has, epollerr, epollhup, call, call_pointer, writable_event, process_event,
}

accept-IsValid :
    (flag : Bool) (now old : ℕ) (first second : Accepted) (n w : Bool) (s : Server)
    → IsValid s
    → IsValid (event_accept_handler flag now old first second n w s).2
unfolding event_accept_handler
accept-IsValid true now old (socket_fd fd) second n w s v =
    (admit-Admitted now old fd true w s v).valid
accept-IsValid true now old no_sys (socket_fd fd) n w s v =
    (admit-Admitted now old fd n w s v).valid
accept-IsValid true now old no_sys no_sys n w s v = v
accept-IsValid true now old no_sys other_errno n w s v = v
accept-IsValid true now old other_errno second n w s v = v
accept-IsValid false now old first (socket_fd fd) n w s v =
    (admit-Admitted now old fd n w s v).valid
accept-IsValid false now old first no_sys n w s v = v
accept-IsValid false now old first other_errno n w s v = v

posted-IsValid :
    (s : Server) (b : Bool) → IsValid s → IsValid (if b then record s { sem = s.sem + 1 } else s)
posted-IsValid s true v = record {
  pool = v.pool;
  timers = v.timers;
  sends = v.sends;
  receives = v.receives;
}
posted-IsValid s false v = v

-- A write event keeps the server valid, whatever send() answers.
write_request-IsValid :
    (calls : SendCalls) (a : ℕ) (s : Server) → IsValid s → IsValid (write_request_handler calls a s)
unfolding write_request_handler
write_request-IsValid calls a s v =
    let (posted, c) = write_done (sendproc calls) (conn_at a s) in
    posted-IsValid (with_conn a (λ _. c) s) posted (with_conn-IsValid a (λ _. c) s v)

IsHeld-InUse : (a : ℕ) (s : Server) → InUse a s.pool → IsHeld a s
IsHeld-InUse a s (k, u) = (k, omega (arith, u))

-- No read event changes which handler the connection has for write events.
zd_close-whandler :
    (now a : ℕ) (s : Server)
    → (conn_at a (zd_close_socket_proc now a s)).whandler ≡ (conn_at a s).whandler
unfolding zd_close_socket_proc in_recy_connect_queue shut
zd_close-whandler now a s =
    let e : (a == a) ≡ true = ground arith in
    elim (Bool-cases (contains a s.pool.recy_list)) [
      | inl there ↦ simp (there, e) refl
      | inr new ↦ simp (new, e) refl
    ]

finish_read-whandler :
    (now a : ℕ) (out : Outcome) (s : Server)
    → (conn_at a (finish_read now a out s)).whandler ≡ (conn_at a s).whandler
unfolding finish_read in_msg_recv_queue
finish_read-whandler now a more s = refl
finish_read-whandler now a (queued m) s = refl
finish_read-whandler now a flooded s = zd_close-whandler now a s

read_request-whandler :
    (fresh : ℕ → List ℕ) (ms now a : ℕ) (answer : Received) (s : Server)
    → (conn_at a (read_request_handler fresh ms now a answer s)).whandler ≡ (conn_at a s).whandler
unfolding read_request_handler
read_request-whandler fresh ms now a (got bs) s =
    let c = conn_at a s in
    let (r, f, out) = read_bytes s.conf.flood fresh ms a c.seq c.recv c.flood bs in
    finish_read-whandler now a out (with_conn a (λ c. record c { recv = r; flood = f }) s)
    ∙ ap (λ d. d.whandler) (own_entry s.pool.conns a (record c { recv = r; flood = f }))
read_request-whandler fresh ms now a peer_closed s = zd_close-whandler now a s
read_request-whandler fresh ms now a again s = refl
read_request-whandler fresh ms now a interrupted s = refl
read_request-whandler fresh ms now a failed s = zd_close-whandler now a s

-- An event of the connection at `a` ends with a valid server, in which the other connections that
-- were in use are as they were.
abbrev pub EndsValid : ℕ → Server → Option (Bool × Server) → Type 0
EndsValid a s result =
    (after : Bool × Server) × (result ≡ some after) × IsValid after.1 × Keeps a s after.1

writable-EndsValid :
    (w : System) (a revents : ℕ) (flag : Bool) (s : Server)
    → IsValid s
    → (conn_at a s).whandler ≡ some write_request
    → EndsValid a s (writable_event w a revents (flag, s))
unfolding writable_event call
writable-EndsValid w a revents flag s v e = elim (Bool-cases (has revents epollout)) [
  | inr no_write ↦ simp no_write ((flag, s), refl, v, λ b n u. (u, refl))
  | inl write ↦ elim (Bool-cases (has revents (bit_or epollerr (bit_or epollhup epollrdhup)))) [
    | inl gone ↦
        simp (write, gone)
          (
            (
              flag,
              with_conn a (λ c. record c { throw_send_count = c.throw_send_count -ℤ pos 1 }) s,
            ),
            refl,
            with_conn-IsValid a (λ c. record c { throw_send_count = c.throw_send_count -ℤ pos 1 }) s
                v,
            with_conn-Keeps a (λ c. record c { throw_send_count = c.throw_send_count -ℤ pos 1 }) s,
          )
    | inr there ↦
        simp (write, there)
          (
            (flag, write_request_handler w.sending a s),
            ap (λ h. call_pointer w flag a h s) e,
            write_request-IsValid w.sending a s v,
            write_request-Keeps w.sending a s,
          )
  ]
]

-- On a valid server, an event of a client's connection that is in use, with the handlers that
-- qc_event_accept sets, any flags and any answers of the system, is handled without a call through a null pointer, and leaves a valid server with the other connections in use as they were.
pub client_event-EndsValid :
    (w : System) (a revents : ℕ) (flag : Bool) (s : Server)
    → IsValid s
    → InUse a s.pool
    → (conn_at a s).rhandler ≡ some read_request
    → (conn_at a s).whandler ≡ some write_request
    → EndsValid a s (process_event w a revents (flag, s))
unfolding process_event call
client_event-EndsValid w a revents flag s v u e f = elim (Bool-cases (has revents epollin)) [
  | inr no_read ↦ simp no_read (writable-EndsValid w a revents flag s v f)
  | inl read ↦
      let s1 = read_request_handler w.fresh w.ms w.now a w.reading s in
      let v1 = read_request-IsValid w.fresh w.ms w.now a w.reading s v (IsHeld-InUse a s u) in
      let (after, r, va, ka) =
        writable-EndsValid w a revents flag s1 v1
          (read_request-whandler w.fresh w.ms w.now a w.reading s ∙ f) in
      simp read (
        after,
        ap
              (λ (h : Option Handler).
                elim (call_pointer w flag a h s) as (λ _. Option (Bool × Server)) [
                  | none ↦ none
                  | some next ↦ writable_event w a revents next
                ])
              e
            ∙ r,
        va,
        Keeps-trans a s s1 after.1 (read_request-Keeps w.fresh w.ms w.now a w.reading s) ka,
      )
]

-- On a valid server, an event of a listening socket, which is not watched for EPOLLOUT, is handled
-- without a call through a null pointer, and leaves a valid server with the other connections in use as they were, whatever accept4() and accept() answer.
pub listener_event-EndsValid :
    (w : System) (a revents : ℕ) (flag : Bool) (s : Server)
    → IsValid s
    → has revents epollout ≡ false
    → (conn_at a s).rhandler ≡ some event_accept
    → EndsValid a s (process_event w a revents (flag, s))
unfolding process_event writable_event call
listener_event-EndsValid w a revents flag s v out e = elim (Bool-cases (has revents epollin)) [
  | inr no_read ↦ simp (no_read, out) ((flag, s), refl, v, λ b n u. (u, refl))
  | inl read ↦
      let r =
        event_accept_handler flag w.now a w.accepting4 w.accepting w.nonblocking w.watched s in
      let keep : writable_event w a revents (r.0, r.2) ≡ some (r.0, r.2) = simp out refl in
      simp read (
        (r.0, r.2),
        ap
              (λ (h : Option Handler).
                elim (call_pointer w flag a h s) as (λ _. Option (Bool × Server)) [
                  | none ↦ none
                  | some next ↦ writable_event w a revents next
                ])
              e
            ∙ keep,
        accept-IsValid flag w.now a w.accepting4 w.accepting w.nonblocking w.watched s v,
        accept-Keeps flag w.now a w.accepting4 w.accepting w.nonblocking w.watched s v,
      )
]
