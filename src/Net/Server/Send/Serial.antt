-- ===== src/Net/Server/Send/Serial.antt =====
-- The send thread keeps the order of a connection's messages, and one on its way at a time.
use quick_comm.Base.{
  if_cases, ℕ, ◌≡◌, refl, sym, ap, ◌∙◌, true, false, ◌⊎◌, inl, inr, List, [], ◌∷◌, ◌++◌, length,
  Bool-cases, arith,
}
use quick_comm.Base.Int.{pos, ltb_ℤ}
use quick_comm.Net.Recv.{Msg}
use quick_comm.Net.Server.{Server, conn_at}
use quick_comm.Net.Server.Send.{SendCalls, Sent, send_pass}
use quick_comm.Net.Server.Send.Turns.{Turns}
use quick_comm.Net.Server.Send.Queue.{blocked, current, send_loop-count}
use quick_comm.Net.Server.Send.Walk.{messages, send_loop-Serial}

-- What a pass of the send thread does to the messages for the socket at `a`: those of `sent` are
-- handed to send(), which are the first ones, in their order, each with the answer of its own call;
-- each of them is over before the next one, but the last, which may be left on its way with its rest
-- at psendbuf and the connection marked and watched for EPOLLOUT; if others stay in the queue, the
-- connection is marked; and if it was marked before, nothing is sent and it is as before.
pub record Passed (calls : ℕ → SendCalls) (a : ℕ) (s s' : Server) : Type 0 where
  pub sent : List (Msg × Sent)
  pub same_seq : (conn_at a s').seq ≡ (conn_at a s).seq
  pub in_order : current a s s.send_queue ≡ messages sent ++ current a s' s'.send_queue
  pub turns : Turns calls 0 sent (conn_at a s) (conn_at a s')
  pub waiting : (current a s' s'.send_queue ≡ []) ⊎ (blocked (conn_at a s') ≡ true)
  pub untouched : blocked (conn_at a s) ≡ true → (sent ≡ []) × (conn_at a s' ≡ conn_at a s)

-- The turns of a pass, and what they leave
pass_turns :
    (a k : ℕ) (calls : ℕ → SendCalls) (s : Server)
    → s.send_queue_n ≡ pos (length s.send_queue)
    → (conn_at a s).throw_send_count ≡ pos k
    → Passed calls a s (send_pass calls s)
unfolding send_pass
pass_turns a k calls s e z = elim (Bool-cases (ltb_ℤ (pos 0) s.send_queue_n)) [
  | inl busy ↦
      let (out, v) = send_loop-Serial a calls 0 s.send_queue s in
      simp busy (record {
        sent = out;
        same_seq = v.same_seq;
        in_order = v.in_order;
        turns = v.turns k z;
        waiting = v.waiting;
        untouched = v.untouched;
      })
  | inr idle ↦
      let none_left = nothing s.send_queue (sym (ap (ltb_ℤ (pos 0)) e) ∙ idle) in
      simp idle (record {
        sent = [];
        same_seq = refl;
        in_order = refl;
        turns = refl;
        waiting = inl (ap (current a s) none_left);
        untouched = λ b. (refl, refl);
      })
]
  where
    nothing : (ms : List Msg) → ltb_ℤ (pos 0) (pos (length ms)) ≡ false → ms ≡ []
    nothing [] h = refl
    nothing (m ∷ ms) h = absurd (ground (arith, h))

-- The pass keeps the count of the queue.
pub send_pass-count :
    (calls : ℕ → SendCalls) (s : Server)
    → s.send_queue_n ≡ pos (length s.send_queue)
    → (send_pass calls s).send_queue_n ≡ pos (length (send_pass calls s).send_queue)
unfolding send_pass
send_pass-count calls s e =
    if_cases (λ (t : Server). t.send_queue_n ≡ pos (length t.send_queue))
      (ltb_ℤ (pos 0) s.send_queue_n) _ _
      (λ _.
        send_loop-count calls 0 s.send_queue s 0 (e ∙ ap pos (omega arith)) ∙ ap pos (omega arith))
      (λ _. e)

-- The send thread hands the messages of each connection whose count of waits is not below 0 to
-- send() in the order of the queue. A message follows only if the one before is over: all that its
-- header declares is taken, or the peer is gone. One of which a part is taken, or none since the
-- socket is full, is the last: the connection keeps it with its rest, is marked, and is watched for
-- EPOLLOUT. What stays in the queue waits for such a connection. The count stays the length of the
-- queue, which it was before.
pub send_pass-Passed :
    (a k : ℕ) (calls : ℕ → SendCalls) (s : Server)
    → s.send_queue_n ≡ pos (length s.send_queue)
    → (conn_at a s).throw_send_count ≡ pos k
    → Passed calls a s (send_pass calls s)
      × ((send_pass calls s).send_queue_n ≡ pos (length (send_pass calls s).send_queue))
send_pass-Passed a k calls s e z = (pass_turns a k calls s e z, send_pass-count calls s e)
