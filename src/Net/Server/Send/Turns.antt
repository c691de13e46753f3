-- ===== src/Net/Server/Send/Turns.antt =====
-- net/qc_socket.cc: what the send thread makes of a connection, message by message.
use quick_comm.Base.{
  ℕ, zero, suc, ◌-◌, ◌≤◌, ◌≡◌, ◌≢◌, refl, ap, ◌⊎◌, inl, inr, List, [], ◌∷◌, some, none, ◌==◌,
  ==_iff, Bool-cases, arith,
}
use Prim.Native.Nat.{bit_or}
use quick_comm.Base.Int.{pos, ◌+ℤ◌}
use quick_comm.Net.Recv.{Msg, declared}
use quick_comm.Net.Pool.{Conn}
use quick_comm.Net.Server.{epoll_oper_event, epollout}
use quick_comm.Net.Server.Send.{
  SendCalls, Sent, bytes, would_block, disconnected, sendproc, start_send, after_send,
}

-- The answer ends the message: all that its header declares is taken, or the peer is gone.
abbrev pub IsOver : Msg → Sent → Type 0
IsOver m (bytes zero) = Unit
IsOver m (bytes (suc n)) = suc n ≡ declared m.packet
IsOver m would_block = ⊥
IsOver m disconnected = Unit

-- psendbuf and isendlen behind an answer that leaves a part of the message
abbrev pub IsRest : Msg → Sent → Conn → Type 0
IsRest m (bytes zero) d = ⊥
IsRest m (bytes (suc n)) d =
    (suc n ≢ declared m.packet) × (d.send_buf ≡ suc n) × (d.send_len ≡ declared m.packet - suc n)
IsRest m would_block d = (d.send_buf ≡ 0) × (d.send_len ≡ declared m.packet)
IsRest m disconnected d = ⊥

-- Nothing is on its way, and the socket is watched for the same events.
abbrev pub IsReady : Conn → Conn → Type 0
IsReady c d = (d.send_mem ≡ none) × (d.throw_send_count ≡ pos 0) × (d.events ≡ c.events)

-- The message is on its way with the rest at psendbuf: the connection is marked, and the socket is
-- watched for EPOLLOUT too.
abbrev pub IsWaiting : Msg → Sent → Conn → Conn → Type 0
IsWaiting m x c d =
    IsRest m x d
    × (d.send_mem ≡ some m)
    × (d.throw_send_count ≡ pos 1)
    × (d.events ≡ bit_or c.events epollout)

-- From `c` to `e` the messages of the list are sent, each with its answer of sendproc, which comes
-- from a later place of the queue than that of the message before: a message that is over leaves the
-- connection ready for the next one, and a message that is not is the last one.
abbrev pub Turns : (ℕ → SendCalls) → ℕ → List (Msg × Sent) → Conn → Conn → Type 0
Turns calls from [] c e = e ≡ c
Turns calls from ((m, x) ∷ rest) c e =
    (i : ℕ) × (from ≤ i)
    × (sendproc (calls i) ≡ x)
    × ((IsOver m x × (d : Conn) × IsReady c d × Turns calls (suc i) rest d e)
        ⊎ ((rest ≡ []) × IsWaiting m x c e))

pub weaken :
    (calls : ℕ → SendCalls) (from : ℕ) (sent : List (Msg × Sent)) (c e : Conn)
    → Turns calls (suc from) sent c e
    → Turns calls from sent c e
weaken calls from [] c e h = h
weaken calls from ((m, x) ∷ rest) c e (i, l, q, h) = (i, omega (arith, l), q, h)

-- What the send thread makes of a connection with nothing on its way
pub after_send-cases :
    (m : Msg) (x : Sent) (c : Conn)
    → c.throw_send_count ≡ pos 0
    → let d = after_send x (start_send m c) in (IsOver m x × IsReady c d) ⊎ IsWaiting m x c d
unfolding after_send epoll_oper_event ◌+ℤ◌
after_send-cases m (bytes zero) c z = inl (tt, (refl, refl, refl))
after_send-cases m (bytes (suc n)) c z = elim (Bool-cases (suc n == declared m.packet)) [
  | inl whole ↦ simp whole (inl ((==_iff (suc n) (declared m.packet)).0 whole, (refl, refl, refl)))
  | inr part ↦
      let other : suc n ≢ declared m.packet = λ e. absurd (ground (arith, part, e)) in
      simp part (inr ((other, omega arith, refl), refl, ap (λ t. t +ℤ pos 1) z, refl))
]
after_send-cases m would_block c z = inr ((refl, refl), refl, ap (λ t. t +ℤ pos 1) z, refl)
after_send-cases m disconnected c z = inl (tt, (refl, refl, refl))
