-- ===== src/Net/Server/Send/Walk.antt =====
-- The walk of the send thread through the queue, seen from one connection: what it sends, in which
-- order, and what it leaves.
use quick_comm.Base.{
  ℕ, suc, ◌≡◌, refl, sym, ap, ◌∙◌, Bool, true, false, ◌&&◌, ◌⊎◌, inl, inr, List, [], ◌∷◌, ◌++◌,
  ◌==◌, ==_iff, Bool-cases, arith,
}
use quick_comm.Base.Int.{ℤ, pos, ◌-ℤ◌, ltb_ℤ}
use quick_comm.Net.Recv.{Msg}
use quick_comm.Net.Server.{Server, conn_at, with_conn}
use quick_comm.Net.Server.Send.{SendCalls, Sent, sendproc, start_send, after_send, send_loop}
use quick_comm.Net.Pool.{Conn}
use quick_comm.Net.Pool.Taken.{own_entry}
use mathlib.Core.Path.{subst}
use quick_comm.Net.Server.Send.Turns.{IsReady, IsWaiting, Turns, weaken, after_send-cases}
use quick_comm.Net.Server.Send.Queue.{
  blocked, is_for, current, sending, stale, held, passed, handled, sending-eq, send_loop_step,
  send_loop_end, with_conn-seq, select-ext,
}

abbrev pub messages : List (Msg × Sent) → List Msg
messages [] = []
messages ((m, x) ∷ sent) = m ∷ messages sent

-- What the walk from the place `i` of the queue on does to the messages for the socket at `a`.
pub record Serial (calls : ℕ → SendCalls) (i a : ℕ) (s : Server) (queue left : List Msg)
    (s' : Server) (sent : List (Msg × Sent)) : Type 0 where
  pub same_seq : (conn_at a s').seq ≡ (conn_at a s).seq
  pub in_order : current a s queue ≡ messages sent ++ current a s' left
  pub waiting : (current a s' left ≡ []) ⊎ (blocked (conn_at a s') ≡ true)
  pub untouched : blocked (conn_at a s) ≡ true → (sent ≡ []) × (conn_at a s' ≡ conn_at a s)
  pub turns :
      (k : ℕ)
      → (conn_at a s).throw_send_count ≡ pos k
      → Turns calls i sent (conn_at a s) (conn_at a s')

stale_current :
    (a : ℕ) (s : Server) (m : Msg)
    → ((conn_at m.conn s).seq == m.seq) ≡ false
    → is_for a s m ≡ false
stale_current a s m h = elim (Bool-cases (m.conn == a)) [
  | inl same ↦ simp same (ap (λ b. (conn_at b s).seq == m.seq) (sym ((==_iff m.conn a).0 same)) ∙ h)
  | inr other ↦ simp other refl
]

for_other : (a : ℕ) (s : Server) (m : Msg) → (m.conn == a) ≡ false → is_for a s m ≡ false
for_other a s m h = simp h refl

for_own :
    (a : ℕ) (s : Server) (m : Msg)
    → (m.conn == a) ≡ true
    → ((conn_at m.conn s).seq == m.seq) ≡ true
    → is_for a s m ≡ true
for_own a s m h k = simp h (ap (λ b. (conn_at b s).seq == m.seq) (sym ((==_iff m.conn a).0 h)) ∙ k)

skip :
    (a : ℕ) (s : Server) (m : Msg) (ms : List Msg)
    → is_for a s m ≡ false
    → current a s (m ∷ ms) ≡ current a s ms
skip a s m ms h = simp h refl

pick :
    (a : ℕ) (s : Server) (m : Msg) (ms : List Msg)
    → is_for a s m ≡ true
    → current a s (m ∷ ms) ≡ m ∷ current a s ms
pick a s m ms h = simp h refl

-- `current` looks at the sequence number only.
current_seq :
    (a : ℕ) (s t : Server) (ms : List Msg)
    → (conn_at a t).seq ≡ (conn_at a s).seq
    → current a t ms ≡ current a s ms
current_seq a s t ms e =
    select-ext (is_for a t) (is_for a s) ms (λ m. ap (λ q. (m.conn == a) && (q == m.seq)) e)

both : (b : Bool) → b ≡ true → b ≡ false → ⊥
both b h k = cc

-- No message is on its way where the count is not above 0.
count_zero : (k : ℕ) → ltb_ℤ (pos 0) (pos k) ≡ false → k ≡ 0
count_zero k h = ground (arith, h)

-- A message that is sent, for its own connection: `c` before it, `d` behind it, `e` at the end.
first_turn :
    (calls : ℕ → SendCalls) (i : ℕ) (m : Msg) (sent : List (Msg × Sent)) (c d e : Conn)
    → c.throw_send_count ≡ pos 0
    → d ≡ after_send (sendproc (calls i)) (start_send m c)
    → (blocked d ≡ true → (sent ≡ []) × (e ≡ d))
    → ((k : ℕ) → d.throw_send_count ≡ pos k → Turns calls (suc i) sent d e)
    → Turns calls i ((m, sendproc (calls i)) ∷ sent) c e
first_turn calls i m sent c d e z made untouched turns =
    let x = sendproc (calls i) in
    elim (after_send-cases m x c z) [
      | inl (over, ready) ↦
          let r : IsReady c d = subst (IsReady c) (sym made) ready in
          (i, omega arith, refl, inl (over, d, r, turns 0 r.1))
      | inr waits ↦
          let w : IsWaiting m x c d = subst (IsWaiting m x c) (sym made) waits in
          let marked : blocked d ≡ true = ap (ltb_ℤ (pos 0)) w.2 in
          let (last, same) = untouched marked in
          (i, omega arith, refl, inr (last, subst (IsWaiting m x c) (sym same) w))
    ]

module _ (calls : ℕ → SendCalls) (i a : ℕ) (s : Server) (m : Msg) (ms left : List Msg)
    (s' : Server) where
  -- A message that is left in the queue.
  held-Serial :
      (sent : List (Msg × Sent))
      → ((conn_at m.conn s).seq == m.seq) ≡ true
      → blocked (conn_at m.conn s) ≡ true
      → Serial calls (suc i) a s ms left s' sent
      → (out : List (Msg × Sent)) × Serial calls i a s (m ∷ ms) (m ∷ left) s' out
  held-Serial sent h w v = elim (Bool-cases (m.conn == a)) [
    | inl own ↦
        let w' : blocked (conn_at a s) ≡ true =
          ap (λ b. blocked (conn_at b s)) (sym ((==_iff m.conn a).0 own)) ∙ w in
        let (none_sent, same) = v.untouched w' in
        let mine = for_own a s m own h in
        let there : current a s' (m ∷ left) ≡ m ∷ current a s' left =
          current_seq a s s' (m ∷ left) v.same_seq
          ∙ pick a s m left mine
          ∙ ap (◌∷◌ m) (sym (current_seq a s s' left v.same_seq)) in
        (
          [],
          record {
            same_seq = v.same_seq;
            in_order =
                pick a s m ms mine
                ∙ ap (◌∷◌ m) (v.in_order ∙ ap (λ l. messages l ++ current a s' left) none_sent)
                ∙ sym there;
            waiting = inr (ap blocked same ∙ w');
            untouched = λ b. (refl, same);
            turns = λ k z. same;
          },
        )
    | inr other ↦
        let skipped = skip a s' m left (for_other a s' m other) in
        (
          sent,
          record {
            same_seq = v.same_seq;
            in_order =
                skip a s m ms (for_other a s m other)
                ∙ v.in_order
                ∙ ap (◌++◌ (messages sent)) (sym skipped);
            waiting = elim v.waiting [ inl e ↦ inl (skipped ∙ e) | inr b ↦ inr b ];
            untouched = v.untouched;
            turns = λ k z. weaken calls i sent (conn_at a s) (conn_at a s') (v.turns k z);
          },
        )
  ]

  -- A message that is sent.
  passed-Serial :
      (n : ℤ) (sent : List (Msg × Sent))
      → ((conn_at m.conn s).seq == m.seq) ≡ true
      → blocked (conn_at m.conn s) ≡ false
      → Serial calls
          (suc i)
          a
          (record (with_conn m.conn (sending (calls i) m) s) { send_queue_n = n })
          ms
          left
          s'
          sent
      → (out : List (Msg × Sent)) × Serial calls i a s (m ∷ ms) left s' out
  passed-Serial n sent h w v =
      let same = with_conn-seq (calls i) m s a in
      let s1 = with_conn m.conn (sending (calls i) m) s in
      let there = sym (current_seq a s s1 ms same) ∙ v.in_order in
      elim (Bool-cases (m.conn == a)) [
        | inl own ↦
            let w' = ap (λ x. blocked (conn_at x s)) (sym ((==_iff m.conn a).0 own)) ∙ w in
            let made : conn_at a s1 ≡ after_send (sendproc (calls i)) (start_send m (conn_at a s)) =
              subst
                (λ b. conn_at b s1 ≡ after_send (sendproc (calls i)) (start_send m (conn_at b s)))
                ((==_iff m.conn a).0 own)
                (own_entry s.pool.conns m.conn _ ∙ sending-eq (calls i) m (conn_at m.conn s)) in
            (
              (m, sendproc (calls i)) ∷ sent,
              record {
                same_seq = v.same_seq ∙ same;
                in_order = pick a s m ms (for_own a s m own h) ∙ ap (◌∷◌ m) there;
                waiting = v.waiting;
                untouched = λ b. absurd (both (blocked (conn_at a s)) b w');
                turns = λ k z.
                    let zero_k = count_zero k (sym (ap (ltb_ℤ (pos 0)) z) ∙ w') in
                    first_turn calls i m sent (conn_at a s) (conn_at a s1) (conn_at a s')
                      (z ∙ ap pos zero_k) made v.untouched v.turns;
              },
            )
        | inr other ↦
            let apart : (a == m.conn) ≡ false = ground (arith, other) in
            let kept : conn_at a s1 ≡ conn_at a s = simp apart refl in
            (
              sent,
              record {
                same_seq = v.same_seq ∙ same;
                in_order = skip a s m ms (for_other a s m other) ∙ there;
                waiting = v.waiting;
                untouched = λ b. let (x, y) = v.untouched (ap blocked kept ∙ b) in (x, y ∙ kept);
                turns = λ k z.
                    subst (λ c. Turns calls i sent c (conn_at a s')) kept
                      (weaken calls i sent (conn_at a s1) (conn_at a s')
                        (v.turns k (ap (λ c. c.throw_send_count) kept ∙ z)));
              },
            )
      ]

pub send_loop-Serial :
    (a : ℕ) (calls : ℕ → SendCalls) (i : ℕ) (ms : List Msg) (s : Server)
    → let (left, s') = send_loop calls i ms s in
      (sent : List (Msg × Sent)) × Serial calls i a s ms left s' sent
send_loop-Serial a calls i [] s = rw (send_loop_end calls i s) (
  [],
  record {
    same_seq = refl;
    in_order = refl;
    waiting = inl refl;
    untouched = λ b. (refl, refl);
    turns = λ k z. refl;
  },
)
send_loop-Serial a calls i (m ∷ ms) s = elim (handled (calls i) m s) [
  | stale h f ↦
      let s1 = record s { send_queue_n = s.send_queue_n -ℤ pos 1 } in
      let (sent, v) = send_loop-Serial a calls (suc i) ms s1 in
      rw (send_loop_step calls i m ms s s1 [] f) (
        sent,
        record {
          same_seq = v.same_seq;
          in_order = skip a s m ms (stale_current a s m h) ∙ v.in_order;
          waiting = v.waiting;
          untouched = v.untouched;
          turns = λ k z. weaken calls i sent _ _ (v.turns k z);
        },
      )
  | held h w f ↦
      let (sent, v) = send_loop-Serial a calls (suc i) ms s in
      rw (send_loop_step calls i m ms s s (m ∷ []) f) (
        held-Serial calls i a s m ms (send_loop calls (suc i) ms s).0
          (send_loop calls (suc i) ms s).1 sent h w v)
  | passed h w f ↦
      let n = s.send_queue_n -ℤ pos 1 in
      let s1 = record (with_conn m.conn (sending (calls i) m) s) { send_queue_n = n } in
      let (sent, v) = send_loop-Serial a calls (suc i) ms s1 in
      rw (send_loop_step calls i m ms s s1 [] f) (
        passed-Serial calls i a s m ms (send_loop calls (suc i) ms s1).0
          (send_loop calls (suc i) ms s1).1 n sent h w v)
]
