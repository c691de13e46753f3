-- ===== src/Net/Server/Close.antt =====
-- What closing a connection and queueing a message keep, and what a close ends.
use quick_comm.Base.{
  ℕ, ◌+◌, ◌<◌, ◌≡◌, ◌≢◌, refl, sym, ap, ◌∙◌, Bool, true, false, ◌⊎◌, inl, inr, List, [], ◌∷◌, ◌++◌,
  none, ◌==◌, ==_iff, if◌then◌else◌, length, length-append, Bool-cases, arith,
}
use quick_comm.Base.Int.{pos, ◌+ℤ◌, ◌-ℤ◌, ltb_ℤ}
use quick_comm.Net.Recv.{Msg}
use quick_comm.Net.Timer.{delete_from_timer_queue}
use quick_comm.Net.Pool.{Conn, Pool, next_seq, update, modify, contains, in_recy_connect_queue}
use quick_comm.Net.Pool.Taken.{own_entry, other_entry}
use quick_comm.Net.Timer
use quick_comm.Net.Pool.Owners.{count, recy-Inv, pos_up, length_more}
use quick_comm.Net.Server.{Server, conn_at, shut, zd_close_socket_proc, msg_send}
use quick_comm.Net.Server.Send.Queue.{is_for}

-- The counts of a server are those of its lists, its timers are in order, and no connection has
-- two owners.
pub record IsValid (s : Server) : Type 0 where
  pub pool : quick_comm.Net.Pool.Owners.Inv s.pool
  pub timers : quick_comm.Net.Timer.Order.Inv s.timers
  pub sends : s.send_queue_n ≡ pos (length s.send_queue)
  pub receives : s.recv_queue_n ≡ pos (length s.recv_queue)

-- The connection at `a` is not free, so closing it cannot make it free and waiting.
abbrev pub IsHeld : ℕ → Server → Type 0
IsHeld a s = (a < s.pool.next_addr) × (count a s.pool.free_list ≡ 0)

-- The same, or `seq` is not its number any more.
abbrev pub IsHeldOrOld : ℕ → ℕ → Server → Type 0
IsHeldOrOld a seq s = IsHeld a s ⊎ ((conn_at a s).seq ≢ seq)

shut-Inv :
    (a : ℕ) (p : Pool)
    → quick_comm.Net.Pool.Owners.Inv p
    → quick_comm.Net.Pool.Owners.Inv (modify a shut p)
shut-Inv a p v = record {
  frees = v.frees;
  recys = v.recys;
  totals = v.totals;
  exclusive = v.exclusive;
  known = v.known;
}

-- zdClosesocketProc on a connection that is not free keeps a valid server valid, also when it was
-- closed before.
pub zd_close-IsValid :
    (now a : ℕ) (s : Server) → IsValid s → IsHeld a s → IsValid (zd_close_socket_proc now a s)
unfolding zd_close_socket_proc
zd_close-IsValid now a s v (k, z) = record {
  pool = recy-Inv now a (modify a shut (s.pool)) (shut-Inv a s.pool v.pool) k z;
  timers = go s.conf.kick_clock;
  sends = v.sends;
  receives = v.receives;
}
  where
    go :
        (b : Bool)
        → quick_comm.Net.Timer.Order.Inv
            (if b then delete_from_timer_queue a s.timers else s.timers)
    go true = (quick_comm.Net.Timer.Order.delete-others a s.timers v.timers).0
    go false = v.timers

-- msgSend keeps a valid server valid on all its paths, where the connection of the message is not free.
pub msg_send-IsValid :
    (now : ℕ) (m : Msg) (s : Server) → IsValid s → IsHeld m.conn s → IsValid (msg_send now m s)
unfolding msg_send
msg_send-IsValid now m s v h = elim (Bool-cases (ltb_ℤ (pos 50000) s.send_queue_n)) [
  | inl crowded ↦
      simp crowded
        (record { pool = v.pool; timers = v.timers; sends = v.sends; receives = v.receives })
  | inr room ↦ elim (Bool-cases (ltb_ℤ (pos 400) (conn_at m.conn s).send_count)) [
    | inl deaf ↦
        let d : Server = record s { discarded = s.discarded + 1 } in
        simp (room, deaf)
          (zd_close-IsValid now m.conn d
            (record { pool = v.pool; timers = v.timers; sends = v.sends; receives = v.receives }) h)
    | inr fine ↦
        simp (room, fine)
          (record {
            pool = record {
              frees = v.pool.frees;
              recys = v.pool.recys;
              totals = v.pool.totals;
              exclusive = v.pool.exclusive;
              known = v.pool.known;
            };
            timers = v.timers;
            sends = ap (λ n. n +ℤ pos 1) v.sends ∙ pos_up _ _ (length-append s.send_queue (m ∷ []));
            receives = v.receives;
          })
  ]
]

pub next_seq_differs : (n : ℕ) → next_seq n ≢ n
next_seq_differs n e = omega arith

-- What a close of a connection in use does.
pub record Closed (a : ℕ) (s s' : Server) : Type 0 where
  pub fd_closed : (conn_at a s').fd ≡ none
  pub stale : (m : Msg) → is_for a s m ≡ true → is_for a s' m ≡ false
  pub recycled : s'.pool.recy_list ≡ s.pool.recy_list ++ (a ∷ [])
  pub one_less : s'.pool.online ≡ s.pool.online -ℤ pos 1
  pub others : (b : ℕ) → b ≢ a → conn_at b s' ≡ conn_at b s

abbrev queued_conn : ℕ → Conn → Conn
queued_conn now c = record c { in_recy_time = now; seq = next_seq c.seq }

conn_after :
    (now a : ℕ) (s : Server)
    → contains a s.pool.recy_list ≡ false
    → conn_at a (zd_close_socket_proc now a s) ≡ queued_conn now (shut (conn_at a s))
unfolding zd_close_socket_proc in_recy_connect_queue shut
conn_after now a s new = simp new (
    own_entry (modify a shut (s.pool)).conns a _
    ∙ ap (queued_conn now) (own_entry s.pool.conns a (shut (conn_at a s))))

no_longer :
    (a : ℕ) (s s' : Server) (m : Msg)
    → (conn_at a s').seq ≡ next_seq (conn_at a s).seq
    → is_for a s m ≡ true
    → is_for a s' m ≡ false
no_longer a s s' m e h = elim (Bool-cases (m.conn == a)) [
  | inr other ↦ simp other refl
  | inl own ↦
      let q = (==_iff (conn_at a s).seq m.seq).0 (simp own at h) in
      let d = next_seq_differs (conn_at a s).seq in
      simp own (different (conn_at a s').seq m.seq (λ x. d (sym e ∙ x ∙ sym q)))
]
  where
    different : (x y : ℕ) → x ≢ y → (x == y) ≡ false
    different x y n = ground (arith, n)

-- zdClosesocketProc on a connection that is not in the recycling queue: its descriptor is closed,
-- messages for it, in the send queue or on their way through a thread, are stale from then on, it
-- goes to the end of the recycling queue, one user less is online, and the other connections stay.
pub zd_close-Closed :
    (now a : ℕ) (s : Server)
    → contains a s.pool.recy_list ≡ false
    → Closed a s (zd_close_socket_proc now a s)
unfolding zd_close_socket_proc in_recy_connect_queue shut
zd_close-Closed now a s new =
    let s' = zd_close_socket_proc now a s in
    let c = conn_after now a s new in
    record {
      fd_closed = ap (λ d. d.fd) c;
      stale = λ m. no_longer a s s' m (ap (λ d. d.seq) c);
      recycled = simp new refl;
      one_less = simp new refl;
      others = λ b n. simp new (
          other_entry (modify a shut (s.pool)).conns a b _ n
          ∙ other_entry s.pool.conns a b (shut (conn_at a s)) n);
    }

-- The recycling queue and the free list with their counts, the count of users, the queues of
-- messages with their counts, the connection's number and time and the other connections are the
-- same, and the connection has no descriptor.
pub record Unmoved (a : ℕ) (s s' : Server) : Type 0 where
  pub queue : s'.pool.recy_list ≡ s.pool.recy_list
  pub queue_n : s'.pool.recy_n ≡ s.pool.recy_n
  pub free : s'.pool.free_list ≡ s.pool.free_list
  pub free_n : s'.pool.free_n ≡ s.pool.free_n
  pub connections : s'.pool.conn_list ≡ s.pool.conn_list
  pub total_n : s'.pool.total_n ≡ s.pool.total_n
  pub online : s'.pool.online ≡ s.pool.online
  pub sends : s'.send_queue ≡ s.send_queue
  pub sends_n : s'.send_queue_n ≡ s.send_queue_n
  pub receives : s'.recv_queue ≡ s.recv_queue
  pub receives_n : s'.recv_queue_n ≡ s.recv_queue_n
  pub closed : (conn_at a s').fd ≡ none
  pub others : (b : ℕ) → b ≢ a → conn_at b s' ≡ conn_at b s
  pub seq : (conn_at a s').seq ≡ (conn_at a s).seq
  pub time : (conn_at a s').in_recy_time ≡ (conn_at a s).in_recy_time

close_again :
    (now a : ℕ) (s : Server)
    → contains a s.pool.recy_list ≡ true
    → Unmoved a s (zd_close_socket_proc now a s)
unfolding zd_close_socket_proc in_recy_connect_queue shut
close_again now a s there =
    let c : conn_at a (zd_close_socket_proc now a s) ≡ shut (conn_at a s) =
      simp there (own_entry s.pool.conns a (shut (conn_at a s))) in
    record {
      queue = simp there refl;
      queue_n = simp there refl;
      free = simp there refl;
      free_n = simp there refl;
      connections = simp there refl;
      total_n = simp there refl;
      online = simp there refl;
      sends = refl;
      sends_n = refl;
      receives = refl;
      receives_n = refl;
      closed = ap (λ d. d.fd) c;
      others = λ b n. simp there (other_entry s.pool.conns a b (shut (conn_at a s)) n);
      seq = ap (λ d. d.seq) c;
      time = ap (λ d. d.in_recy_time) c;
    }

contains-last : (a : ℕ) (xs : List ℕ) → contains a (xs ++ (a ∷ [])) ≡ true
unfolding contains
contains-last a [] = ground arith
contains-last a (x ∷ xs) = ground (arith, contains-last a xs)

queued_after :
    (now a : ℕ) (s : Server) → contains a (zd_close_socket_proc now a s).pool.recy_list ≡ true
unfolding zd_close_socket_proc in_recy_connect_queue
queued_after now a s = elim (Bool-cases (contains a s.pool.recy_list)) [
  | inl there ↦ simp there refl
  | inr new ↦ simp new (contains-last a s.pool.recy_list)
]

-- A second zdClosesocketProc leaves the recycling queue, the free list, the connections there are
-- and their counts as they were, the count of users, the queues of messages to send and received
-- with their counts, the connection's sequence number and recycling time, and the other
-- connections; the connection still has no descriptor. So a connection is recycled once, and its
-- user is counted out once, however often it is closed. The timer queue and iThrowsendCount of the
-- connection, which the call sets again, are not part of the statement.
pub zd_close_twice :
    (now later a : ℕ) (s : Server)
    → let s1 = zd_close_socket_proc now a s in Unmoved a s1 (zd_close_socket_proc later a s1)
zd_close_twice now later a s =
    close_again later a (zd_close_socket_proc now a s) (queued_after now a s)
