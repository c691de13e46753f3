-- ===== src/Net/Server/Send/Packet.antt =====
-- A message on its way to the socket: the send thread's first attempt, and the write events that
-- go on with it.
use quick_comm.Base.{
  ℕ, zero, suc, ◌+◌, ◌≤◌, ◌≡◌, refl, sym, ap, ◌∙◌, true, inl, ◌⊎◌, inr, List, [], ◌∷◌, ◌++◌, Option,
  none, some, ◌==◌, ==_iff, take, drop, length, take-append-drop, Bool-cases, arith,
}
use mathlib.Core.List.{append_assoc, append-nil}
use quick_comm.Base.Int.{ℤ, pos, ◌+ℤ◌, ◌-ℤ◌}
use quick_comm.Net.Recv.{Msg, declared}
use quick_comm.Net.Pool.{Conn}
use quick_comm.Net.Server.{epoll_oper_event}
use quick_comm.Net.Server.Send.{
  Sent, bytes, would_block, disconnected, start_send, advance_send, after_send, write_done, wire,
}

-- The write events of a connection, as long as a message is on its way, with the bytes that have
-- gone out.
abbrev pub resume : List Sent → List ℕ → Conn → List ℕ × Conn
resume [] out c = (out, c)
resume (x ∷ xs) out c = elim c.send_mem [
  | none ↦ (out, c)
  | some m ↦ resume xs (out ++ wire x c) (write_done x c).1
]

-- The send thread takes a message up and gets the answer `first`, the write events get `rest`.
abbrev pub transmit : Msg → Sent → List Sent → Conn → List ℕ × Conn
transmit m first rest c =
    let c1 = start_send m c in resume rest (wire first c1) (after_send first c1)

-- send() takes no more than it is given.
abbrev pub Fits : Sent → Conn → Type 0
Fits (bytes n) c = n ≤ c.send_len
Fits would_block c = Unit {0}
Fits disconnected c = Unit {0}

abbrev pub AllFit : List Sent → Conn → Type 0
AllFit [] c = Unit {0}
AllFit (x ∷ xs) c = Fits x c × AllFit xs (write_done x c).1

-- The bytes `out` of the packet are out, the rest is at psendbuf.
pub record InFlight (m : Msg) (out : List ℕ) (c : Conn) : Type 0 where
  pub memory : c.send_mem ≡ some m
  pub split : out ++ drop c.send_buf m.packet ≡ m.packet
  pub within : c.send_buf + c.send_len ≡ length m.packet
  pub blocked : c.throw_send_count ≡ pos 1

-- sendproc tells that the peer is gone: it returns 0 or -2.
abbrev pub IsGone : Sent → Type 0
IsGone (bytes zero) = Unit
IsGone (bytes (suc n)) = ⊥
IsGone would_block = ⊥
IsGone disconnected = Unit

abbrev pub AnyGone : List Sent → Type 0
AnyGone [] = ⊥
AnyGone (x ∷ xs) = IsGone x ⊎ AnyGone xs

-- How far a message comes: all of it is out, or it is on its way, or it is given up after a part
-- of it, and then `Gone` holds. In the first and the last case the connection is ready for another.
pub data Fate (Gone : Type 0) (m : Msg) (out : List ℕ) (c : Conn) : Type 0 where
  delivered : out ≡ m.packet → c.send_mem ≡ none → c.throw_send_count ≡ pos 0 → Fate Gone m out c
  on_its_way : InFlight m out c → Fate Gone m out c
  given_up :
      Gone
      → (rest : List ℕ) → out ++ rest ≡ m.packet
      → c.send_mem ≡ none
      → c.throw_send_count ≡ pos 0
      → Fate Gone m out c

widen :
    {P Q : Type 0} {m : Msg} {out : List ℕ} {c : Conn} → (P → Q) → Fate P m out c → Fate Q m out c
widen g (delivered e n z) = delivered e n z
widen g (on_its_way v) = on_its_way v
widen g (given_up p rest e n z) = given_up (g p) rest e n z

module _ {ℓ} {A : Type ℓ} where
  drop_at : (n k : ℕ) (xs : List A) → n ≡ k → drop n xs ≡ drop k xs
  drop_at n k xs e = ap (λ i. drop i xs) e

  drop_nil : (n : ℕ) → drop {A = A} n [] ≡ []
  drop_nil zero = refl
  drop_nil (suc n) = refl

  drop-drop : (n b : ℕ) (xs : List A) → drop n (drop b xs) ≡ drop (b + n) xs
  drop-drop n zero xs = drop_at n (0 + n) xs (omega arith)
  drop-drop n (suc b) [] = drop_nil n ∙ sym (drop_nil (suc b + n))
  drop-drop n (suc b) (x ∷ xs) =
      drop-drop n b xs ∙ drop_at (suc (b + n)) (suc b + n) (x ∷ xs) (omega arith)

  drop_all : (n : ℕ) (xs : List A) → length xs ≤ n → drop n xs ≡ []
  drop_all zero [] h = refl
  drop_all zero (x ∷ xs) h = absurd (omega arith)
  drop_all (suc n) [] h = refl
  drop_all (suc n) (x ∷ xs) h = drop_all n xs (omega arith)

wire-bytes :
    (m : Msg) (n : ℕ) (c : Conn)
    → c.send_mem ≡ some m
    → wire (bytes n) c ≡ take n (drop c.send_buf m.packet)
wire-bytes m n c e = rw e refl

-- n bytes more are out.
pub more_out :
    (p out : List ℕ) (b n : ℕ)
    → out ++ drop b p ≡ p
    → (out ++ take n (drop b p)) ++ drop (b + n) p ≡ p
more_out p out b n h =
    append_assoc out (take n (drop b p)) (drop (b + n) p)
    ∙ ap (λ r. out ++ (take n (drop b p) ++ r)) (sym (drop-drop n b p))
    ∙ ap (◌++◌ out) (take-append-drop n (drop b p))
    ∙ h

pub all_out :
    (p out : List ℕ) (b n : ℕ)
    → out ++ drop b p ≡ p
    → b + n ≡ length p
    → out ++ take n (drop b p) ≡ p
all_out p out b n h e =
    sym (append-nil (out ++ take n (drop b p)))
    ∙ ap (◌++◌ (out ++ take n (drop b p))) (sym (drop_all (b + n) p (omega arith)))
    ∙ more_out p out b n h

one_less : (n : ℤ) → n ≡ pos 1 → n -ℤ pos 1 ≡ pos 0
unfolding ◌-ℤ◌
one_less n e = ap (λ x. x -ℤ pos 1) e

-- A write event that takes a part of the rest, and one that takes all of it.
pub part-InFlight :
    (m : Msg) (n : ℕ) (out : List ℕ) (c : Conn)
    → InFlight m out c
    → n ≤ c.send_len
    → InFlight m (out ++ wire (bytes n) c) (advance_send n c)
part-InFlight m n out c v k = record {
  memory = v.memory;
  split =
      ap (λ o. (out ++ o) ++ drop (c.send_buf + n) m.packet) (wire-bytes m n c v.memory)
      ∙ more_out m.packet out c.send_buf n v.split;
  within = omega (arith, v.within);
  blocked = v.blocked;
}

pub whole_out :
    (m : Msg) (n : ℕ) (out : List ℕ) (c : Conn)
    → InFlight m out c
    → (n == c.send_len) ≡ true
    → out ++ wire (bytes n) c ≡ m.packet
whole_out m n out c v h =
    let e = (==_iff n c.send_len).0 h in
    ap (◌++◌ out) (wire-bytes m n c v.memory)
    ∙ all_out m.packet out c.send_buf n v.split (omega (arith, e, v.within))

-- A message on its way after a write event.
write_done-Fate :
    (m : Msg) (x : Sent) (out : List ℕ) (c : Conn)
    → InFlight m out c
    → Fits x c
    → Fate (IsGone x) m (out ++ wire x c) (write_done x c).1
unfolding write_done epoll_oper_event
write_done-Fate m (bytes zero) out c v k =
    let e : out ++ wire (bytes zero) c ≡ out =
      ap (◌++◌ out) (wire-bytes m zero c v.memory) ∙ append-nil out in
    given_up tt (drop c.send_buf m.packet) (ap (λ o. o ++ drop c.send_buf m.packet) e ∙ v.split)
      refl (one_less c.throw_send_count v.blocked)
write_done-Fate m (bytes (suc n)) out c v k = elim (Bool-cases (suc n == c.send_len)) [
  | inl whole ↦
      simp whole
        (delivered (whole_out m (suc n) out c v whole) refl (one_less c.throw_send_count v.blocked))
  | inr part ↦ simp part (on_its_way (part-InFlight m (suc n) out c v k))
]
write_done-Fate m would_block out c v k = on_its_way (record {
  memory = v.memory;
  split = ap (λ o. o ++ drop c.send_buf m.packet) (append-nil out) ∙ v.split;
  within = v.within;
  blocked = v.blocked;
})
write_done-Fate m disconnected out c v k =
    given_up tt (drop c.send_buf m.packet)
      (ap (λ o. o ++ drop c.send_buf m.packet) (append-nil out) ∙ v.split) refl
      (one_less c.throw_send_count v.blocked)

-- A message after the send thread's attempt.
after_send-Fate :
    (m : Msg) (x : Sent) (c : Conn)
    → c.throw_send_count ≡ pos 0
    → declared m.packet ≡ length m.packet
    → Fits x (start_send m c)
    → Fate (IsGone x) m (wire x (start_send m c)) (after_send x (start_send m c))
unfolding after_send epoll_oper_event ◌+ℤ◌
after_send-Fate m (bytes zero) c z d k = given_up tt m.packet refl refl refl
after_send-Fate m (bytes (suc n)) c z d k = elim (Bool-cases (suc n == declared m.packet)) [
  | inl whole ↦
      let e = (==_iff (suc n) (declared m.packet)).0 whole in
      simp whole (delivered (all_out m.packet [] 0 (suc n) refl (omega (arith, e, d))) refl refl)
  | inr part ↦ simp part (
      on_its_way (record {
        memory = refl;
        split = more_out m.packet [] 0 (suc n) refl;
        within = omega (arith, d);
        blocked = ap (λ t. t +ℤ pos 1) z;
      }))
]
after_send-Fate m would_block c z d k = on_its_way (record {
  memory = refl;
  split = refl;
  within = omega (arith, d);
  blocked = ap (λ t. t +ℤ pos 1) z;
})
after_send-Fate m disconnected c z d k = given_up tt m.packet refl refl refl

-- Nothing goes out when no message is on its way.
pub resume_nothing :
    (xs : List Sent) (out : List ℕ) (c : Conn) → c.send_mem ≡ none → resume xs out c ≡ (out, c)
resume_nothing [] out c e = refl
resume_nothing (x ∷ xs) out c e = rw e refl

pub resume_step :
    (m : Msg) (x : Sent) (xs : List Sent) (out : List ℕ) (c : Conn)
    → c.send_mem ≡ some m
    → resume (x ∷ xs) out c ≡ resume xs (out ++ wire x c) (write_done x c).1
resume_step m x xs out c e =
    ap
      (λ (mem : Option Msg). elim mem as (λ _. List ℕ × Conn) [
        | none ↦ (out, c)
        | some _ ↦ resume xs (out ++ wire x c) (write_done x c).1
      ])
      e

resume-Fate :
    {P : Type 0} (m : Msg) (xs : List Sent) (out : List ℕ) (c : Conn)
    → Fate P m out c
    → AllFit xs c
    → let (sent, d) = resume xs out c in Fate (P ⊎ AnyGone xs) m sent d
resume-Fate m [] out c v k = widen inl v
resume-Fate m (x ∷ xs) out c (delivered e n z) k =
    rw (resume_nothing (x ∷ xs) out c n) (delivered e n z)
resume-Fate m (x ∷ xs) out c (given_up p rest e n z) k =
    rw (resume_nothing (x ∷ xs) out c n) (given_up (inl p) rest e n z)
resume-Fate m (x ∷ xs) out c (on_its_way v) (f, k) = rw (resume_step m x xs out c v.memory) (
    widen inr
      (resume-Fate m xs (out ++ wire x c) (write_done x c).1 (write_done-Fate m x out c v f) k))

-- A message that the send thread takes up for a connection with nothing on its way, and whose
-- header declares its length, goes out as its own bytes in their order: however the socket splits
-- it over write events, all of it is out and the connection is ready for the next message, or it
-- is on its way with the rest at psendbuf, or it is given up after a part of it, which happens only
-- where an answer of sendproc, the first or a later one, is 0 or -2: the peer is gone. A socket
-- that is full never ends it. send() takes no more than it is given.
pub transmit-Fate :
    (m : Msg) (first : Sent) (rest : List Sent) (c : Conn)
    → c.throw_send_count ≡ pos 0
    → declared m.packet ≡ length m.packet
    → Fits first (start_send m c)
    → AllFit rest (after_send first (start_send m c))
    → let (out, d) = transmit m first rest c in Fate (AnyGone (first ∷ rest)) m out d
transmit-Fate m first rest c z d f k =
    resume-Fate m rest _ (after_send first (start_send m c)) (after_send-Fate m first c z d f) k
