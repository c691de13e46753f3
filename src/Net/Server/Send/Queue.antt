-- ===== src/Net/Server/Send/Queue.antt =====
-- The walk of the send thread through the message queue, seen from one connection.
use quick_comm.Base.{
  ℕ, zero, suc, ◌+◌, ◌≡◌, refl, sym, ap, ◌∙◌, Bool, true, false, ◌&&◌, inl, inr, List, [], ◌∷◌,
  ◌++◌, ◌==◌, ==_iff, if◌then◌else◌, length, Bool-cases, arith,
}
use quick_comm.Base.Int.{lower_pos, pos, ◌-ℤ◌, ltb_ℤ}
use quick_comm.Net.Recv.{Msg}
use quick_comm.Net.Pool.{Conn}
use quick_comm.Net.Server.{Server, conn_at, with_conn, epoll_oper_event}
use quick_comm.Net.Server.Send.{
  SendCalls, Sent, bytes, would_block, disconnected, after_send, start_send, sendproc, send_one,
  send_loop,
}

-- The connection waits for a write event, so its messages have to stay in the queue.
abbrev pub blocked : Conn → Bool
blocked c = ltb_ℤ (pos 0) c.throw_send_count

-- Whether a message is for the socket that the connection at `a` serves now.
abbrev pub is_for : ℕ → Server → Msg → Bool
is_for a s m = (m.conn == a) && ((conn_at a s).seq == m.seq)

abbrev pub select : (Msg → Bool) → List Msg → List Msg
select wanted [] = []
select wanted (m ∷ ms) = if wanted m then m ∷ select wanted ms else select wanted ms

-- The messages of the queue for the socket at `a`, in their order.
abbrev pub current : ℕ → Server → List Msg → List Msg
current a s ms = select (is_for a s) ms

-- The connection of a message that is sent.
pub sending : SendCalls → Msg → Conn → Conn
sending calls m c = after_send (sendproc calls) (start_send m c)

pub sending-eq :
    (calls : SendCalls) (m : Msg) (c : Conn)
    → sending calls m c ≡ after_send (sendproc calls) (start_send m c)
unfolding sending
sending-eq calls m c = refl

seq-sending : (calls : SendCalls) (m : Msg) (c : Conn) → (sending calls m c).seq ≡ c.seq
unfolding sending after_send epoll_oper_event
seq-sending calls m c = go (sendproc calls)
  where
    go : (x : Sent) → (after_send x (start_send m c)).seq ≡ c.seq
    go (bytes zero) = refl
    go (bytes (suc n)) = elim (Bool-cases (suc n == (start_send m c).send_len)) [
      | inl h ↦ simp h
      | inr h ↦ simp h
    ]
    go would_block = refl
    go disconnected = refl

-- What the thread does with a message: drop it as stale, leave it, or send it.
pub data Handled (calls : SendCalls) (m : Msg) (s : Server) (after : List Msg × Server)
    : Type 0 where
  stale :
      ((conn_at m.conn s).seq == m.seq) ≡ false
      → after ≡ ([], record s { send_queue_n = s.send_queue_n -ℤ pos 1 })
      → Handled calls m s after
  held :
      ((conn_at m.conn s).seq == m.seq) ≡ true
      → blocked (conn_at m.conn s) ≡ true
      → after ≡ (m ∷ [], s)
      → Handled calls m s after
  passed :
      ((conn_at m.conn s).seq == m.seq) ≡ true
      → blocked (conn_at m.conn s) ≡ false
      → after ≡ (
        [],
        record (with_conn m.conn (sending calls m) s) { send_queue_n = s.send_queue_n -ℤ pos 1 },
      )
      → Handled calls m s after

pub handled : (calls : SendCalls) (m : Msg) (s : Server) → Handled calls m s (send_one calls m s)
unfolding send_one sending
handled calls m s = elim (Bool-cases ((conn_at m.conn s).seq == m.seq)) [
  | inr old ↦ stale old (simp old)
  | inl new ↦ elim (Bool-cases (blocked (conn_at m.conn s))) [
    | inl wait ↦ held new wait (simp (new, wait))
    | inr free ↦ passed new free (simp (new, free))
  ]
]

-- The walk goes on from what a message leaves.
pub send_loop_step :
    (calls : ℕ → SendCalls) (i : ℕ) (m : Msg) (ms : List Msg) (s s1 : Server) (kept : List Msg)
    → send_one (calls i) m s ≡ (kept, s1)
    → send_loop calls i (m ∷ ms) s
      ≡ (kept ++ (send_loop calls (suc i) ms s1).0, (send_loop calls (suc i) ms s1).1)
unfolding send_loop
send_loop_step calls i m ms s s1 kept e =
    ap
      (λ (r : List Msg × Server).
        (r.0 ++ (send_loop calls (suc i) ms r.1).0, (send_loop calls (suc i) ms r.1).1))
      e

pub send_loop_end : (calls : ℕ → SendCalls) (i : ℕ) (s : Server) → send_loop calls i [] s ≡ ([], s)
unfolding send_loop
send_loop_end calls i s = refl

-- The walk leaves send_queue_n the length of what is left.
pub send_loop-count :
    (calls : ℕ → SendCalls) (i : ℕ) (ms : List Msg) (s : Server) (k : ℕ)
    → s.send_queue_n ≡ pos (k + length ms)
    → let (left, s') = send_loop calls i ms s in s'.send_queue_n ≡ pos (k + length left)
send_loop-count calls i [] s k e = rw (send_loop_end calls i s) e
send_loop-count calls i (m ∷ ms) s k e = elim (handled (calls i) m s) [
  | stale h f ↦
      let s1 = record s { send_queue_n = s.send_queue_n -ℤ pos 1 } in
      rw (send_loop_step calls i m ms s s1 [] f) (send_loop-count calls (suc i) ms s1 k less)
  | held h w f ↦
      rw (send_loop_step calls i m ms s s (m ∷ []) f) (
        send_loop-count calls (suc i) ms s (suc k) (e ∙ ap pos (omega arith))
        ∙ ap pos (omega arith))
  | passed h w f ↦
      let s1 = record (with_conn m.conn (sending (calls i) m) s) {
        send_queue_n = s.send_queue_n -ℤ pos 1;
      } in
      rw (send_loop_step calls i m ms s s1 [] f) (send_loop-count calls (suc i) ms s1 k less)
]
  where
    less : s.send_queue_n -ℤ pos 1 ≡ pos (k + length ms)
    less = lower_pos (k + suc (length ms)) (k + length ms) s.send_queue_n e (omega arith)

-- No message changes which socket a connection serves.
pub with_conn-seq :
    (calls : SendCalls) (m : Msg) (s : Server) (a : ℕ)
    → (conn_at a (with_conn m.conn (sending calls m) s)).seq ≡ (conn_at a s).seq
with_conn-seq calls m s a = elim (Bool-cases (a == m.conn)) [
  | inl same ↦ simp same (
      seq-sending calls m (conn_at m.conn s)
      ∙ ap (λ b. (conn_at b s).seq) (sym ((==_iff a m.conn).0 same)))
  | inr other ↦ simp other refl
]

pub select-ext :
    (f g : Msg → Bool) (ms : List Msg) → ((m : Msg) → f m ≡ g m) → select f ms ≡ select g ms
select-ext f g [] h = refl
select-ext f g (m ∷ ms) h =
    ap (λ b. if b then m ∷ select f ms else select f ms) (h m)
    ∙ ap (λ r. if g m then m ∷ r else r) (select-ext f g ms h)
