-- ===== src/Net/Server/Send/Deliver.antt =====
-- A message goes out whole when the socket keeps taking bytes.
use quick_comm.Base.{
  ℕ, zero, suc, ◌≤◌, ◌≡◌, refl, ap, inl, inr, List, [], ◌∷◌, ◌++◌, none, ◌==◌, ==_iff, take, length,
  All, Bool-cases, arith,
}
use quick_comm.Base.Int.{pos, ◌+ℤ◌}
use quick_comm.Net.Recv.{Msg, declared}
use quick_comm.Net.Pool.{Conn}
use quick_comm.Net.Server.{epoll_oper_event, ctl_mod, epollout}
use quick_comm.Net.Server.Send.{
  Sent, bytes, would_block, disconnected, start_send, advance_send, after_send, drop_send,
  wait_writable, end_send, write_done, wire,
}
use quick_comm.Net.Server.Send.Packet.{
  resume, transmit, Fits, AllFit, InFlight, more_out, part-InFlight, whole_out, all_out,
  resume_nothing, resume_step,
}

-- send() takes a byte at least.
abbrev pub Willing : Sent → Type 0
Willing (bytes zero) = ⊥
Willing (bytes (suc n)) = Unit {0}
Willing would_block = ⊥
Willing disconnected = ⊥

resume_delivers :
    (m : Msg) (xs : List Sent) (out : List ℕ) (c : Conn)
    → InFlight m out c
    → 1 ≤ c.send_len
    → c.send_len ≤ length xs
    → AllFit xs c
    → All Willing xs
    → let (sent, d) = resume xs out c in (sent ≡ m.packet) × (d.send_mem ≡ none)
unfolding write_done epoll_oper_event
resume_delivers m [] out c v l n f w = absurd (omega arith)
resume_delivers m (bytes zero ∷ xs) out c v l n f w = absurd w.0
resume_delivers m (would_block ∷ xs) out c v l n f w = absurd w.0
resume_delivers m (disconnected ∷ xs) out c v l n f w = absurd w.0
resume_delivers m (bytes (suc k) ∷ xs) out c v l n f w =
    rw (resume_step m (bytes (suc k)) xs out c v.memory) (elim (Bool-cases (suc k == c.send_len)) [
      | inl whole ↦
          let sent = out ++ wire (bytes (suc k)) c in
          let d = end_send (epoll_oper_event ctl_mod epollout 1 c) in
          simp whole (rw (resume_nothing xs sent d refl) (whole_out m (suc k) out c v whole, refl))
      | inr part ↦
          let d = advance_send (suc k) c in
          simp part (
            resume_delivers m xs (out ++ wire (bytes (suc k)) c) d
              (part-InFlight m (suc k) out c v f.0) (ground (arith, part, f.0)) (omega arith)
              (simp part at f.1) w.1)
    ])

-- A message of at least a byte that the send thread takes up for a connection with nothing on its
-- way, and whose header declares its length, is out whole when each answer of send() takes a byte
-- at least, and no more than is left, and there are as many answers as the packet has bytes.
pub transmit_delivers :
    (m : Msg) (first : Sent) (rest : List Sent) (c : Conn)
    → c.throw_send_count ≡ pos 0
    → declared m.packet ≡ length m.packet
    → 1 ≤ length m.packet
    → length m.packet ≤ suc (length rest)
    → Fits first (start_send m c)
    → AllFit rest (after_send first (start_send m c))
    → All Willing (first ∷ rest)
    → let (out, d) = transmit m first rest c in (out ≡ m.packet) × (d.send_mem ≡ none)
unfolding after_send epoll_oper_event ◌+ℤ◌
transmit_delivers m (bytes zero) rest c z d l n f g w = absurd w.0
transmit_delivers m would_block rest c z d l n f g w = absurd w.0
transmit_delivers m disconnected rest c z d l n f g w = absurd w.0
transmit_delivers m (bytes (suc k)) rest c z d l n f g w =
    elim (Bool-cases (suc k == declared m.packet)) [
      | inl whole ↦
          let e = (==_iff (suc k) (declared m.packet)).0 whole in
          let c1 = start_send m c in
          simp whole (
            rw (resume_nothing rest (take (suc k) m.packet) (drop_send c1) refl)
              (all_out m.packet [] 0 (suc k) refl (omega (arith, e, d)), refl))
      | inr part ↦ simp part (
          resume_delivers m rest (take (suc k) m.packet)
            (wait_writable (advance_send (suc k) (start_send m c)))
            (record {
              memory = refl;
              split = more_out m.packet [] 0 (suc k) refl;
              within = omega (arith, d, f);
              blocked = ap (λ t. t +ℤ pos 1) z;
            })
            (ground (arith, part, f)) (omega (arith, d)) (simp part at g) w.1)
    ]
