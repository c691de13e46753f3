-- ===== src/Net/Server/Start/Failures.antt =====
-- net/qc_socket.cc: why qc_open_listening_sockets fails.
use quick_comm.Base.{
  ℕ, zero, suc, ◌≡◌, refl, Bool, true, false, not, ◌⊎◌, inl, inr, List, Option, none, some, length,
  ◌==◌, if◌then◌else◌, if_cases, not-true, ◌>>=◌, arith,
}
use quick_comm.Base.Int.{ℤ, pos_part}
use quick_comm.Public.Config.{Item}
use quick_comm.Net.Server.Start.{
  Sockets, Attempt, port_of, bind_fd, open_fd, open_socket, open_loop, open_listening_sockets,
}
use quick_comm.Net.Server.Start.Opening.{Opens, Holds, no_sockets, open_loop-Opens}

-- A call for the socket of a port fails.
abbrev pub AttemptFails : Attempt → Type 0
AttemptFails w =
    (w.socket ≡ none)
    ⊎ (w.reuseaddr ≡ false)
    ⊎ (w.nonblocking ≡ false)
    ⊎ (w.bound ≡ false)
    ⊎ (w.listens ≡ false)

-- So for one of `left` ports, from port `i` on
abbrev pub SomeAttempt : ℕ → ℕ → (ℕ → Attempt) → Type 0
SomeAttempt zero i answers = ⊥
SomeAttempt (suc left) i answers = AttemptFails (answers i) ⊎ SomeAttempt left (suc i) answers

-- Where it is false, there is a reason for it.
abbrev Blames : Type 0 → Option (Bool × Sockets) → Type 0
Blames P none = Unit
Blames P (some (true, s)) = Unit
Blames P (some (false, s)) = P

bind_fd-Blames :
    (iport : Option ℤ) (fd : ℕ) (w : Attempt) (s : Sockets)
    → Blames (AttemptFails w) (bind_fd iport fd w s)
unfolding bind_fd
bind_fd-Blames none fd w s = tt
bind_fd-Blames (some iport) fd w s =
    if_cases (Blames (AttemptFails w)) (not w.bound) _ _
      (λ e. inr (inr (inr (inl (not-true w.bound e)))))
      (λ _.
        if_cases (Blames (AttemptFails w)) (not w.listens) _ _
          (λ e. inr (inr (inr (inr (not-true w.listens e))))) (λ _. tt))

open_socket-Blames :
    (fd : Option ℕ) (iport : Option ℤ) (w : Attempt) (s : Sockets)
    → w.socket ≡ fd
    → Blames (AttemptFails w) (open_socket fd iport w s)
unfolding open_socket open_fd
open_socket-Blames none iport w s e = inl e
open_socket-Blames (some fd) iport w s e =
    if_cases (Blames (AttemptFails w)) (not w.reuseaddr) _ _
      (λ h. inr (inl (not-true w.reuseaddr h)))
      (λ _.
        if_cases (Blames (AttemptFails w)) (not w.nonblocking) _ _
          (λ h. inr (inr (inl (not-true w.nonblocking h)))) (λ _. bind_fd-Blames iport fd w _))

wider : (P Q : Type 0) (o : Option (Bool × Sockets)) → Blames Q o → Blames (P ⊎ Q) o
wider P Q none h = tt
wider P Q (some (true, s)) h = tt
wider P Q (some (false, s)) h = inr h

round-Blames :
    (P Q : Type 0) (o : Option (Bool × Sockets)) (rest : Sockets → Option (Bool × Sockets))
    → Blames P o
    → ((s : Sockets) → Blames Q (rest s))
    → Blames (P ⊎ Q) (o >>= λ r. if r.0 then rest r.1 else some (false, r.1))
round-Blames P Q none rest h g = tt
round-Blames P Q (some (true, s)) rest h g = wider P Q (rest s) (g s)
round-Blames P Q (some (false, s)) rest h g = inl h

open_loop-Blames :
    (left i : ℕ) (answers : ℕ → Attempt) (items : List Item) (s : Sockets)
    → Blames (SomeAttempt left i answers) (open_loop left i answers items s)
unfolding open_loop
open_loop-Blames zero i answers items s = tt
open_loop-Blames (suc left) i answers items s =
    round-Blames _ _ _ (open_loop left (suc i) answers items)
      (open_socket-Blames (answers i).socket (port_of items i) (answers i) s refl)
      (open_loop-Blames left (suc i) answers items)

-- The test of the list behind the loop is false only when there is no port.
behind_loop :
    (count : ℕ) (P : Type 0) (o : Option (Bool × Sockets)) (s : Sockets)
    → Holds (Opens 0 count) o
    → Blames P o
    → (let sized : Bool × Sockets → Option (Bool × Sockets) =
          λ r. some (if length r.1.listening == 0 then false else r.0, r.1) in
        (o >>= sized) ≡ some (false, s))
    → (count ≡ 0) ⊎ P
behind_loop count P none s h g e = absurd (cc e)
behind_loop count P (some (false, t)) s h g e = inr g
behind_loop count P (some (true, t)) s (k, inr (f, c, n, l)) g e = absurd (cc f)
behind_loop zero P (some (true, t)) s (k, inl (v, c, l)) g e = inl refl
behind_loop (suc count) P (some (true, t)) s (k, inl (v, c, l)) g e =
    let full : length t.listening ≡ suc count = omega (arith, l) in
    let some_open : (length t.listening == 0) ≡ false = ground (arith, full) in
    let returned : (if length t.listening == 0 then false else true) ≡ true = simp some_open refl in
    let gone : (if length t.listening == 0 then false else true) ≡ false = cc e in
    absurd (cc (returned, gone))

-- Where qc_open_listening_sockets returns false, there are no ports, or a call fails for one of
-- them.
pub open_listening_sockets-Blames :
    (port_count : ℤ) (answers : ℕ → Attempt) (items : List Item) (s : Sockets)
    → open_listening_sockets port_count answers items no_sockets ≡ some (false, s)
    → (pos_part port_count ≡ 0) ⊎ SomeAttempt (pos_part port_count) 0 answers
unfolding open_listening_sockets
open_listening_sockets-Blames port_count answers items s e =
    behind_loop (pos_part port_count) _ _ s
      (open_loop-Opens (pos_part port_count) 0 0 answers items no_sockets (refl, refl) refl)
      (open_loop-Blames (pos_part port_count) 0 answers items no_sockets) e
