-- ===== src/Net/Server/Start/Listeners.antt =====
-- The server that qc_epoll_init leaves: the pool is set up, and the listening sockets are watched.
use quick_comm.Base.{
  ℕ, suc, ◌≡◌, ◌≢◌, refl, sym, ap, ◌∙◌, Bool, true, false, List, [], ◌∷◌, Option, none, some, ◌>>=◌,
  if◌then◌else◌, All, All-map, ◌⊎◌, inl, inr,
}
use quick_comm.Net.Timer.{no_timers}
use quick_comm.Net.Pool.{Pool, empty_pool, get_connection, init_connection, event_accept}
use quick_comm.Net.Pool.Owners.{InUse, get-Lent}
use quick_comm.Net.Pool.Start.{init-Inv}
use quick_comm.Net.Pool.Taken.{get-Takes, own_entry, other_entry}
use quick_comm.Net.Server.{Server, SockConf, conn_at, epoll_oper_event}
use quick_comm.Net.Server.Close.{IsValid}
use quick_comm.Net.Server.Handlers.{with_conn-IsValid, pooled-IsValid}
use quick_comm.Net.Server.Start.{
  Listening, new_server, listen_on, add_listener, listeners_loop, epoll_init,
}

-- The connection at `a` serves the listening socket with the index `i`: it is in use, holds its
-- descriptor, and an event on it goes to qc_event_accept.
pub record Serves (i : ℕ) (l : Listening) (a : ℕ) (s : Server) : Type 0 where
  pub in_use : InUse a s.pool
  pub holds : (conn_at a s).fd ≡ some l.fd
  pub linked : (conn_at a s).listening ≡ some i
  pub handler : (conn_at a s).rhandler ≡ some event_accept

-- Each listening socket from the index `i` on has a connection of its own.
abbrev pub AllServed : ℕ → List Listening → List ℕ → Server → Type 0
AllServed i [] [] s = Unit {0}
AllServed i [] (a ∷ conns) s = ⊥
AllServed i (l ∷ ls) [] s = ⊥
AllServed i (l ∷ ls) (a ∷ conns) s =
    Serves i l a s × All (λ b. b ≢ a) conns × AllServed (suc i) ls conns s

-- No connection in use is at `a`.
abbrev NotUsed : Server → ℕ → Type 0
NotUsed s a = (b : ℕ) → InUse b s.pool → a ≢ b

-- What a loop over listening sockets leaves of `s`: connections that were in use stay as they
-- are, and the new ones are no such connections.
record Ready (i : ℕ) (ls : List Listening) (s : Server) (conns : List ℕ) (s' : Server)
    : Type 0 where
  valid : IsValid s'
  kept : (b : ℕ) → InUse b s.pool → InUse b s'.pool × (conn_at b s' ≡ conn_at b s)
  fresh : All (NotUsed s) conns
  served : AllServed i ls conns s'

-- What one round leaves.
record Added (i : ℕ) (l : Listening) (s : Server) (a : ℕ) (s' : Server) : Type 0 where
  valid : IsValid s'
  kept : (b : ℕ) → InUse b s.pool → InUse b s'.pool × (conn_at b s' ≡ conn_at b s)
  fresh : NotUsed s a
  served : Serves i l a s'

add_listener-Added :
    (now i : ℕ) (l : Listening) (s : Server)
    → IsValid s
    → Added i l s (add_listener now i l.fd s).0 (add_listener now i l.fd s).1
unfolding add_listener epoll_oper_event
add_listener-Added now i l s v =
    let a : ℕ = (get_connection now l.fd s.pool).0 in
    let p : Pool = (get_connection now l.fd s.pool).1 in
    let lent = get-Lent now l.fd s.pool v.pool in
    let takes = get-Takes now l.fd s.pool in
    record {
      valid =
          with_conn-IsValid a (listen_on i) (record s { pool = p }) (pooled-IsValid now l.fd s v);
      kept = λ b u. (
        (lent.not_shared b u).0,
        other_entry p.conns a b (listen_on i (p.conns a)) (lent.not_shared b u).1
            ∙ takes.others b (lent.not_shared b u).1,
      );
      fresh = λ b u e. (lent.not_shared b u).1 (sym e);
      served = record {
        in_use = lent.in_use;
        holds = ap (λ c. c.fd) (own_entry p.conns a (listen_on i (p.conns a))) ∙ takes.own;
        linked = ap (λ c. c.listening) (own_entry p.conns a (listen_on i (p.conns a)));
        handler = ap (λ c. c.rhandler) (own_entry p.conns a (listen_on i (p.conns a)));
      };
    }

still-Serves :
    (i : ℕ) (l : Listening) (a : ℕ) (s s' : Server)
    → Serves i l a s
    → InUse a s'.pool × (conn_at a s' ≡ conn_at a s)
    → Serves i l a s'
still-Serves i l a s s' v (u, e) = record {
  in_use = u;
  holds = ap (λ c. c.fd) e ∙ v.holds;
  linked = ap (λ c. c.listening) e ∙ v.linked;
  handler = ap (λ c. c.rhandler) e ∙ v.handler;
}

join-Ready :
    (i : ℕ) (l : Listening) (ls : List Listening) (s : Server) (a : ℕ) (s' : Server)
    (conns : List ℕ) (s'' : Server)
    → Added i l s a s'
    → Ready (suc i) ls s' conns s''
    → Ready i (l ∷ ls) s (a ∷ conns) s''
join-Ready i l ls s a s' conns s'' one more = record {
  valid = more.valid;
  kept = λ b u. let (w, e) = one.kept b u in let (w', e') = more.kept b w in (w', e' ∙ e);
  fresh = (
    one.fresh,
    All-map (NotUsed s') (NotUsed s) (λ c h b u. h b (one.kept b u).0) conns more.fresh,
  );
  served = (
    still-Serves i l a s' s'' one.served (more.kept a one.served.in_use),
    All-map (NotUsed s') (λ b. b ≢ a) (λ c h e. h a one.served.in_use e) conns more.fresh,
    more.served,
  );
}

-- epoll_ctl() fails for one of the listening sockets.
abbrev pub SomeFails : (ℕ → Bool) → ℕ → List Listening → Type 0
SomeFails watched i [] = ⊥
SomeFails watched i (l ∷ ls) = (watched i ≡ false) ⊎ SomeFails watched (suc i) ls

abbrev ReadyOr : (ℕ → Bool) → ℕ → List Listening → Server → Option (List ℕ × Server) → Type 0
ReadyOr watched i ls s none = SomeFails watched i ls
ReadyOr watched i ls s (some (conns, s')) = Ready i ls s conns s'

join-ReadyOr :
    (watched : ℕ → Bool) (i : ℕ) (l : Listening) (ls : List Listening) (s : Server) (a : ℕ)
    (s' : Server) (w : Bool) (o : Option (List ℕ × Server))
    → watched i ≡ w
    → Added i l s a s'
    → ReadyOr watched (suc i) ls s' o
    → ReadyOr watched i (l ∷ ls) s ((if w then o else none) >>= λ r. some (a ∷ r.0, r.1))
join-ReadyOr watched i l ls s a s' false o e one more = inl e
join-ReadyOr watched i l ls s a s' true none e one more = inr more
join-ReadyOr watched i l ls s a s' true (some (conns, s'')) e one more =
    join-Ready i l ls s a s' conns s'' one more

loop-ReadyOr :
    (now : ℕ) (watched : ℕ → Bool) (i : ℕ) (ls : List Listening) (s : Server)
    → IsValid s
    → ReadyOr watched i ls s (listeners_loop now watched i ls s)
unfolding listeners_loop
loop-ReadyOr now watched i [] s v = record {
  valid = v;
  kept = λ b u. (u, refl);
  fresh = tt;
  served = tt;
}
loop-ReadyOr now watched i (l ∷ ls) s v =
    let one = add_listener-Added now i l s v in
    join-ReadyOr watched i l ls s (add_listener now i l.fd s).0 (add_listener now i l.fd s).1
      (watched i) (listeners_loop now watched (suc i) ls (add_listener now i l.fd s).1) refl one
      (loop-ReadyOr now watched (suc i) ls (add_listener now i l.fd s).1 one.valid)

pooled_start :
    (now : ℕ) (conf : SockConf)
    → IsValid
        (record (new_server conf) { pool = init_connection conf.worker_connections now empty_pool })
unfolding new_server no_timers
pooled_start now conf = record {
  pool = (init-Inv conf.worker_connections now).0;
  timers = record { sorted = tt; sized = refl; first = tt };
  sends = refl;
  receives = refl;
}

-- What the process has behind qc_epoll_init, which may have ended it.
abbrev pub Started : Bool → (ℕ → Bool) → List Listening → Option (List ℕ × Server) → Type 0
Started created watched ls none = (created ≡ false) ⊎ SomeFails watched 0 ls
Started created watched ls (some (conns, s)) = IsValid s × AllServed 0 ls conns s

started :
    (watched : ℕ → Bool) (ls : List Listening) (s : Server) (o : Option (List ℕ × Server))
    → ReadyOr watched 0 ls s o
    → Started true watched ls o
started watched ls s none h = inr h
started watched ls s (some (conns, s')) h = (h.valid, h.served)

-- On a new CSocket, qc_epoll_init ends the process only when epoll_create() fails or epoll_ctl()
-- fails for a listening socket. Otherwise it leaves a valid server in which each listening socket
-- has a connection of its own, in use, with the socket's descriptor and qc_event_accept as its
-- read handler.
pub epoll_init-Started :
    (created : Bool) (now : ℕ) (watched : ℕ → Bool) (ls : List Listening) (conf : SockConf)
    → Started created watched ls (epoll_init created now watched ls (new_server conf))
unfolding epoll_init new_server
epoll_init-Started false now watched ls conf = inl refl
epoll_init-Started true now watched ls conf =
    let first : Server = record (new_server conf) {
      pool = init_connection conf.worker_connections now empty_pool;
    } in
    started watched ls first (listeners_loop now watched 0 ls first)
      (loop-ReadyOr now watched 0 ls first (pooled_start now conf))
