-- ===== src/Net/Server/Events/Others.antt =====
-- What the handlers leave alone: the connections of the other sockets.
use quick_comm.Base.{
  ℕ, ◌+◌, ◌≡◌, ◌≢◌, refl, ◌∙◌, Bool, true, false, inl, inr, List, if◌then◌else◌, Bool-cases,
}
use quick_comm.Net.Recv.{Outcome, more, queued, flooded, read_bytes}
use quick_comm.Net.Pool.{Conn, Pool, modify, contains, in_recy_connect_queue}
use quick_comm.Net.Pool.Owners.{InUse, recy-InUse}
use quick_comm.Net.Pool.Taken.{other_entry}
use quick_comm.Net.Server.{Server, conn_at, with_conn, shut, zd_close_socket_proc}
use quick_comm.Net.Server.Close.{IsValid}
use quick_comm.Net.Server.Handlers.{admit-Admitted}
use quick_comm.Net.Server.Read.{
  Received, got, peer_closed, again, interrupted, failed, finish_read, in_msg_recv_queue,
  read_request_handler, Accepted, socket_fd, no_sys, other_errno, admit, event_accept_handler,
}
use quick_comm.Net.Server.Send.{SendCalls, write_done, sendproc, write_request_handler}

-- Every other connection in use stays so, with all its fields.
abbrev pub Keeps : ℕ → Server → Server → Type 0
Keeps a s s' = (b : ℕ) → b ≢ a → InUse b s.pool → InUse b s'.pool × (conn_at b s' ≡ conn_at b s)

pub Keeps-trans : (a : ℕ) (s t u : Server) → Keeps a s t → Keeps a t u → Keeps a s u
Keeps-trans a s t u f g b n h = let (i, e) = f b n h in let (j, e') = g b n i in (j, e' ∙ e)

pub with_conn-Keeps : (a : ℕ) (g : Conn → Conn) (s : Server) → Keeps a s (with_conn a g s)
with_conn-Keeps a g s b n u = (u, other_entry s.pool.conns a b (g (conn_at a s)) n)

recy-others : (now a b : ℕ) (p : Pool) → b ≢ a → (in_recy_connect_queue now a p).conns b ≡ p.conns b
unfolding in_recy_connect_queue
recy-others now a b p n = elim (Bool-cases (contains a p.recy_list)) [
  | inl there ↦ simp there refl
  | inr new ↦ simp new (other_entry p.conns a b _ n)
]

pub zd_close-others :
    (now a b : ℕ) (s : Server) → b ≢ a → conn_at b (zd_close_socket_proc now a s) ≡ conn_at b s
unfolding zd_close_socket_proc
zd_close-others now a b s n =
    recy-others now a b (modify a shut (s.pool)) n
    ∙ other_entry s.pool.conns a b (shut (conn_at a s)) n

zd_close-Keeps : (now a : ℕ) (s : Server) → Keeps a s (zd_close_socket_proc now a s)
unfolding zd_close_socket_proc
zd_close-Keeps now a s b n u =
    (recy-InUse now a b (modify a shut (s.pool)) u n, zd_close-others now a b s n)

finish_read-Keeps : (now a : ℕ) (out : Outcome) (s : Server) → Keeps a s (finish_read now a out s)
unfolding finish_read in_msg_recv_queue
finish_read-Keeps now a more s = λ b n u. (u, refl)
finish_read-Keeps now a (queued m) s = λ b n u. (u, refl)
finish_read-Keeps now a flooded s = zd_close-Keeps now a s

pub read_request-Keeps :
    (fresh : ℕ → List ℕ) (ms now a : ℕ) (answer : Received) (s : Server)
    → Keeps a s (read_request_handler fresh ms now a answer s)
unfolding read_request_handler
read_request-Keeps fresh ms now a (got bs) s =
    let c = conn_at a s in
    let (r, f, out) = read_bytes s.conf.flood fresh ms a c.seq c.recv c.flood bs in
    let g : Conn → Conn = λ d. record d { recv = r; flood = f } in
    Keeps-trans a s (with_conn a g s) (finish_read now a out (with_conn a g s))
      (with_conn-Keeps a g s) (finish_read-Keeps now a out (with_conn a g s))
read_request-Keeps fresh ms now a peer_closed s = zd_close-Keeps now a s
read_request-Keeps fresh ms now a again s = λ b n u. (u, refl)
read_request-Keeps fresh ms now a interrupted s = λ b n u. (u, refl)
read_request-Keeps fresh ms now a failed s = zd_close-Keeps now a s

posted-Keeps :
    (a : ℕ) (s t : Server) (p : Bool)
    → Keeps a s t
    → Keeps a s (if p then record t { sem = t.sem + 1 } else t)
posted-Keeps a s t true k = k
posted-Keeps a s t false k = k

pub write_request-Keeps :
    (calls : SendCalls) (a : ℕ) (s : Server) → Keeps a s (write_request_handler calls a s)
unfolding write_request_handler
write_request-Keeps calls a s =
    let (posted, c) = write_done (sendproc calls) (conn_at a s) in
    posted-Keeps a s (with_conn a (λ _. c) s) posted (with_conn-Keeps a (λ _. c) s)

admit-Keeps :
    (now old fd : ℕ) (n w : Bool) (s : Server) → IsValid s → Keeps old s (admit now old fd n w s).1
admit-Keeps now old fd n w s v b m u =
    let added = admit-Admitted now old fd n w s v in (added.kept b u, added.others b u)

pub accept-Keeps :
    (flag : Bool) (now old : ℕ) (first second : Accepted) (n w : Bool) (s : Server)
    → IsValid s
    → Keeps old s (event_accept_handler flag now old first second n w s).2
unfolding event_accept_handler
accept-Keeps true now old (socket_fd fd) second n w s v = admit-Keeps now old fd true w s v
accept-Keeps true now old no_sys (socket_fd fd) n w s v = admit-Keeps now old fd n w s v
accept-Keeps true now old no_sys no_sys n w s v = λ b m u. (u, refl)
accept-Keeps true now old no_sys other_errno n w s v = λ b m u. (u, refl)
accept-Keeps true now old other_errno second n w s v = λ b m u. (u, refl)
accept-Keeps false now old first (socket_fd fd) n w s v = admit-Keeps now old fd n w s v
accept-Keeps false now old first no_sys n w s v = λ b m u. (u, refl)
accept-Keeps false now old first other_errno n w s v = λ b m u. (u, refl)
