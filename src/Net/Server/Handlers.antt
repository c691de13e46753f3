-- ===== src/Net/Server/Handlers.antt =====
-- The handlers of read events keep a server valid, for clients and for listening sockets.
use quick_comm.Base.{
  ℕ, ◌≡◌, refl, ap, ◌∙◌, Bool, true, false, inl, inr, List, [], ◌∷◌, if◌then◌else◌, length-append,
  Bool-cases,
}
use quick_comm.Base.Int.{pos, ◌+ℤ◌}
use quick_comm.Net.Recv.{Outcome, more, queued, flooded, read_bytes}
use quick_comm.Net.Timer.{Timers, add_to_timer_queue}
use quick_comm.Net.Timer.Order.{add-Inv}
use quick_comm.Net.Pool.{Pool, Conn, modify, get_connection, close_connection}
use quick_comm.Net.Pool.Owners.{Inv, InUse, get-Lent, get-online, close-Inv, close-InUse, pos_up}
use quick_comm.Net.Pool.Taken.{other_entry, get-Takes, close-others}
use quick_comm.Net.Server.{Server, conn_at, with_conn}
use quick_comm.Net.Server.Close.{IsValid, IsHeld, zd_close-IsValid}
use quick_comm.Net.Server.Read.{
  Received, got, peer_closed, again, interrupted, failed, in_msg_recv_queue, finish_read,
  read_request_handler, AcceptEnd, client, refused, left_behind, epoll_refused, too_many, set_up,
  count_client, admit,
}

-- A change of a connection's fields changes no list.
pub modify-Inv : (a : ℕ) (g : Conn → Conn) (p : Pool) → Inv p → Inv (modify a g p)
modify-Inv a g p v = record {
  frees = v.frees;
  recys = v.recys;
  totals = v.totals;
  exclusive = v.exclusive;
  known = v.known;
}

pub with_conn-IsValid :
    (a : ℕ) (g : Conn → Conn) (s : Server) → IsValid s → IsValid (with_conn a g s)
with_conn-IsValid a g s v = record {
  pool = modify-Inv a g s.pool v.pool;
  timers = v.timers;
  sends = v.sends;
  receives = v.receives;
}

set_up-IsValid : (old a : ℕ) (s : Server) → IsValid s → IsValid (set_up old a s)
set_up-IsValid old a s v = record {
  pool = record {
    frees = v.pool.frees;
    recys = v.pool.recys;
    totals = v.pool.totals;
    exclusive = v.pool.exclusive;
    known = v.pool.known;
  };
  timers = v.timers;
  sends = v.sends;
  receives = v.receives;
}

finish_read-IsValid :
    (now a : ℕ) (out : Outcome) (s : Server)
    → IsValid s
    → IsHeld a s
    → IsValid (finish_read now a out s)
unfolding finish_read in_msg_recv_queue
finish_read-IsValid now a more s v h = v
finish_read-IsValid now a (queued m) s v h = record {
  pool = v.pool;
  timers = v.timers;
  sends = v.sends;
  receives = ap (λ n. n +ℤ pos 1) v.receives ∙ pos_up _ _ (length-append s.recv_queue (m ∷ []));
}
finish_read-IsValid now a flooded s v h = zd_close-IsValid now a s v h

-- A read event of a connection that is not free keeps a valid server valid, whatever recv() answers:
-- bytes that end a packet, that do not, or that come from a client that floods, a closed peer, or
-- an error.
pub read_request-IsValid :
    (fresh : ℕ → List ℕ) (ms now a : ℕ) (answer : Received) (s : Server)
    → IsValid s
    → IsHeld a s
    → IsValid (read_request_handler fresh ms now a answer s)
unfolding read_request_handler
read_request-IsValid fresh ms now a (got bs) s v h =
    let c = conn_at a s in
    let (r, f, out) = read_bytes s.conf.flood fresh ms a c.seq c.recv c.flood bs in
    finish_read-IsValid now a out (with_conn a (λ c. record c { recv = r; flood = f }) s)
      (with_conn-IsValid a (λ c. record c { recv = r; flood = f }) s v) h
read_request-IsValid fresh ms now a peer_closed s v h = zd_close-IsValid now a s v h
read_request-IsValid fresh ms now a again s v h = v
read_request-IsValid fresh ms now a interrupted s v h = v
read_request-IsValid fresh ms now a failed s v h = zd_close-IsValid now a s v h

-- What an accepted socket leaves: a valid server, and, when it becomes a client, one user more and
-- a connection for it that no one had.
pub record Admitted (s : Server) (end : AcceptEnd) (s' : Server) : Type 0 where
  pub valid : IsValid s'
  pub counted : end ≡ client → s'.pool.online ≡ s.pool.online +ℤ pos 1
  pub limited : end ≡ client → too_many s ≡ false
  pub kept : (b : ℕ) → InUse b s.pool → InUse b s'.pool
  pub others : (b : ℕ) → InUse b s.pool → conn_at b s' ≡ conn_at b s
  pub refusal : end ≡ refused → s' ≡ s

-- The timers with the new client, when the kick clock runs.
count_client-IsValid : (now a : ℕ) (s : Server) → IsValid s → IsValid (count_client now a s)
count_client-IsValid now a s v = record {
  pool = record {
    frees = v.pool.frees;
    recys = v.pool.recys;
    totals = v.pool.totals;
    exclusive = v.pool.exclusive;
    known = v.pool.known;
  };
  timers = go s.conf.kick_clock;
  sends = v.sends;
  receives = v.receives;
}
  where
    go :
        (b : Bool)
        → quick_comm.Net.Timer.Order.Inv (
            if b
            then add_to_timer_queue now s.conf.wait_time a (conn_at a s).seq s.timers
            else s.timers)
    go true = add-Inv now s.conf.wait_time a (conn_at a s).seq s.timers v.timers
    go false = v.timers

-- The server with the connection that a new socket gets.
pub pooled-IsValid :
    (now fd : ℕ) (s : Server)
    → IsValid s
    → IsValid (record s { pool = (get_connection now fd (s.pool)).1 })
pooled-IsValid now fd s v = record {
  pool = (get-Lent now fd s.pool v.pool).valid;
  timers = v.timers;
  sends = v.sends;
  receives = v.receives;
}

refused-Admitted : (s : Server) → IsValid s → Admitted s refused s
refused-Admitted s v = record {
  valid = v;
  counted = λ e. absurd cc;
  limited = λ e. absurd cc;
  kept = λ b u. u;
  others = λ b u. refl;
  refusal = λ e. refl;
}

module _ (now old fd : ℕ) (s : Server) (v : IsValid s) where
  abbrev a : ℕ
  a = (get_connection now fd (s.pool)).0

  abbrev lent_server : Server
  lent_server = record s { pool = (get_connection now fd (s.pool)).1 }

  lent_others : (b : ℕ) → InUse b s.pool → conn_at b lent_server ≡ conn_at b s
  lent_others b u =
      (get-Takes now fd s.pool).others b ((get-Lent now fd s.pool v.pool).not_shared b u).1

  set_up_others : (b : ℕ) → InUse b s.pool → conn_at b (set_up old a lent_server) ≡ conn_at b s
  set_up_others b u =
      other_entry (lent_server.pool.conns) a b _ ((get-Lent now fd s.pool v.pool).not_shared b u).1
      ∙ lent_others b u

  left_behind-Admitted : Admitted s left_behind lent_server
  left_behind-Admitted = record {
    valid = pooled-IsValid now fd s v;
    counted = λ e. absurd cc;
    limited = λ e. absurd cc;
    kept = λ b u. ((get-Lent now fd s.pool v.pool).not_shared b u).0;
    others = lent_others;
    refusal = λ e. absurd cc;
  }

  client-Admitted :
      too_many s ≡ false → Admitted s client (count_client now a (set_up old a lent_server))
  client-Admitted room = record {
    valid =
        count_client-IsValid now a (set_up old a lent_server)
          (set_up-IsValid old a lent_server (pooled-IsValid now fd s v));
    counted = λ e. ap (λ n. n +ℤ pos 1) (get-online now fd s.pool);
    limited = λ e. room;
    kept = λ b u. ((get-Lent now fd s.pool v.pool).not_shared b u).0;
    others = set_up_others;
    refusal = λ e. absurd cc;
  }

  abbrev closed_server : Server
  closed_server = record (set_up old a lent_server) {
    pool = close_connection a ((set_up old a lent_server).pool);
  }

  epoll_refused-Admitted : Admitted s epoll_refused closed_server
  epoll_refused-Admitted =
      let w = set_up-IsValid old a lent_server (pooled-IsValid now fd s v) in
      record {
        valid = record {
          pool =
              close-Inv a (set_up old a lent_server).pool w.pool
                (get-Lent now fd s.pool v.pool).in_use;
          timers = v.timers;
          sends = v.sends;
          receives = v.receives;
        };
        counted = λ e. absurd cc;
        limited = λ e. absurd cc;
        kept = λ b u.
            let (k, n) = (get-Lent now fd s.pool v.pool).not_shared b u in
            close-InUse a b (set_up old a lent_server).pool k n;
        others = λ b u.
            close-others a b (set_up old a lent_server).pool
              ((get-Lent now fd s.pool v.pool).not_shared b u).1
            ∙ set_up_others b u;
        refusal = λ e. absurd cc;
      }

-- The part of qc_event_accept after accept(): a socket that becomes a client is counted, and does
-- so only when there are not too many; a refused one changes nothing; and on every path a valid
-- server stays valid and connections in use stay as they are.
pub admit-Admitted :
    (now old fd : ℕ) (nonblocking watched : Bool) (s : Server)
    → IsValid s
    → let (end, s') = admit now old fd nonblocking watched s in Admitted s end s'
unfolding admit
admit-Admitted now old fd nonblocking watched s v = elim (Bool-cases (too_many s)) [
  | inl crowded ↦ simp crowded (refused-Admitted s v)
  | inr room ↦ elim (Bool-cases nonblocking) [
    | inr not_so ↦ simp (room, not_so) (left_behind-Admitted now old fd s v)
    | inl easy ↦ elim (Bool-cases watched) [
      | inr not_so ↦ simp (room, easy, not_so) (epoll_refused-Admitted now old fd s v)
      | inl seen ↦ simp (room, easy, seen) (client-Admitted now old fd s v room)
    ]
  ]
]
