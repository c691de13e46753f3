-- ===== src/Net/Server/Start/Opening.antt =====
-- What qc_open_listening_sockets leaves open, also where it fails half-way.
use quick_comm.Base.{
  ℕ, zero, suc, ◌+◌, ◌≤◌, ◌<◌, ◌≡◌, refl, sym, ap, ◌∙◌, Bool, true, false, ◌⊎◌, inl, inr, List, [],
  ◌∷◌, ◌++◌, Option, none, some, length, length-append, map, ◌>>=◌, Bool-cases, arith, not, ◌==◌,
  if◌then◌else◌,
}
use mathlib.Core.Path.{subst}
use mathlib.Core.List.{append-nil}
use quick_comm.Base.Int.{ℤ, pos_part}
use quick_comm.Public.Config.{Item}
use quick_comm.Net.Server.Start.{
  Listening, Sockets, Attempt, port_of, bind_fd, open_fd, open_socket, open_loop,
  open_listening_sockets, close_listening_sockets,
}

abbrev pub fds : Sockets → List ℕ
fds s = map (λ (l : Listening). l.fd) s.listening

map-append : (f : Listening → ℕ) (xs ys : List Listening) → map f (xs ++ ys) ≡ map f xs ++ map f ys
map-append f [] ys = refl
map-append f (x ∷ xs) ys = ap (◌∷◌ (f x)) (map-append f xs ys)

-- Nothing is closed yet, and every descriptor that was opened is in the list.
abbrev AllOpen : Sockets → Type 0
AllOpen s = (s.closed ≡ []) × (s.opened ≡ fds s)

-- What a loop leaves that starts with `n` sockets and has `left` rounds: all of them, or a failure
-- that closes the descriptor of its own round, if it has one, and no other.
abbrev pub Opens : ℕ → ℕ → Bool × Sockets → Type 0
Opens n left (ok, s) =
    (s.opened ≡ fds s ++ s.closed)
    × (((ok ≡ true) × (s.closed ≡ []) × (length s.listening ≡ n + left))
        ⊎ ((ok ≡ false)
            × (length s.closed ≤ 1)
            × (n ≤ length s.listening)
            × (length s.listening < n + left)))

abbrev pub Holds : (Bool × Sockets → Type 0) → Option (Bool × Sockets) → Type 0
Holds P none = Unit
Holds P (some r) = P r

-- A round: a socket more in the list, or a failure
abbrev OneMore : Sockets → Bool × Sockets → Type 0
OneMore s (true, s') = AllOpen s' × (length s'.listening ≡ length s.listening + 1)
OneMore s (false, s') =
    (s'.opened ≡ fds s' ++ s'.closed)
    × (length s'.closed ≤ 1)
    × (length s'.listening ≡ length s.listening)

if-Holds :
    (P : Bool × Sockets → Type 0) (b : Bool) (x y : Option (Bool × Sockets))
    → Holds P x
    → Holds P y
    → Holds P (if b then x else y)
if-Holds P true x y h g = h
if-Holds P false x y h g = g

module _ (s : Sockets) (v : AllOpen s) where
  closes :
      (fd : ℕ)
      → OneMore s
          (false, record s { opened = s.opened ++ (fd ∷ []); closed = s.closed ++ (fd ∷ []) })
  closes fd = (
    ap (λ o. o ++ (fd ∷ [])) v.1 ∙ ap (λ c. fds s ++ (c ++ (fd ∷ []))) (sym v.0),
    omega (arith, ap length v.0, length-append s.closed (fd ∷ [])),
    refl,
  )

  bind_fd-OneMore :
      (iport : Option ℤ) (fd : ℕ) (w : Attempt)
      → Holds (OneMore s) (bind_fd iport fd w (record s { opened = s.opened ++ (fd ∷ []) }))
  unfolding bind_fd
  bind_fd-OneMore none fd w = tt
  bind_fd-OneMore (some iport) fd w = if-Holds (OneMore s) (not w.bound) _ _ (closes fd) (
      if-Holds (OneMore s) (not w.listens) _ _ (closes fd) (
        (
          v.0,
          ap (λ o. o ++ (fd ∷ [])) v.1
              ∙ sym (map-append (λ l. l.fd) s.listening (record { port = iport; fd = fd } ∷ [])),
        ),
        length-append s.listening (record { port = iport; fd = fd } ∷ []),
      ))

  open_fd-OneMore :
      (iport : Option ℤ) (fd : ℕ) (w : Attempt)
      → Holds (OneMore s) (open_fd iport fd w (record s { opened = s.opened ++ (fd ∷ []) }))
  unfolding open_fd
  open_fd-OneMore iport fd w =
      if-Holds (OneMore s) (not w.reuseaddr) _ _ (closes fd)
        (if-Holds (OneMore s) (not w.nonblocking) _ _ (closes fd) (bind_fd-OneMore iport fd w))

  open_socket-OneMore :
      (fd : Option ℕ) (iport : Option ℤ) (w : Attempt)
      → Holds (OneMore s) (open_socket fd iport w s)
  unfolding open_socket
  open_socket-OneMore none iport w = (
    v.1 ∙ sym (append-nil (fds s)) ∙ ap (◌++◌ (fds s)) (sym v.0),
    omega (arith, ap length v.0),
    refl,
  )
  open_socket-OneMore (some fd) iport w = open_fd-OneMore iport fd w

-- A round, and the rounds behind it
round-Opens :
    (n left : ℕ) (s : Sockets) (o : Option (Bool × Sockets))
    (rest : Sockets → Option (Bool × Sockets))
    → length s.listening ≡ n
    → Holds (OneMore s) o
    → ((s' : Sockets)
        → AllOpen s'
        → length s'.listening ≡ suc n
        → Holds (Opens (suc n) left) (rest s'))
    → Holds (Opens n (suc left)) (o >>= λ r. if r.0 then rest r.1 else some (false, r.1))
round-Opens n left s none rest e h g = tt
round-Opens n left s (some (true, s')) rest e (v, l) g =
    shift (rest s') (g s' v (omega (arith, l, e)))
  where
    shift :
        (o : Option (Bool × Sockets)) → Holds (Opens (suc n) left) o → Holds (Opens n (suc left)) o
    shift none h = tt
    shift (some r) (k, inl (t, c, m)) = (k, inl (t, c, omega (arith, m)))
    shift (some r) (k, inr (f, c, m, l)) = (k, inr (f, c, omega (arith, m), omega (arith, l)))
round-Opens n left s (some (false, s')) rest e (k, c, l) g =
    (k, inr (refl, c, omega (arith, l, e), omega (arith, l, e)))

pub open_loop-Opens :
    (left i n : ℕ) (answers : ℕ → Attempt) (items : List Item) (s : Sockets)
    → AllOpen s
    → length s.listening ≡ n
    → Holds (Opens n left) (open_loop left i answers items s)
unfolding open_loop
open_loop-Opens zero i n answers items s v e = (
  v.1 ∙ sym (append-nil (fds s)) ∙ ap (◌++◌ (fds s)) (sym v.0),
  inl (refl, v.0, omega (arith, e)),
)
open_loop-Opens (suc left) i n answers items s v e =
    round-Opens n left s (open_socket (answers i).socket (port_of items i) (answers i) s)
      (open_loop left (suc i) answers items) e
      (open_socket-OneMore s v (answers i).socket (port_of items i) (answers i))
      (λ s' v' e'. open_loop-Opens left (suc i) (suc n) answers items s' v' e')

-- No socket is made yet.
abbrev pub no_sockets : Sockets
no_sockets = record { listening = []; opened = []; closed = [] }

-- What CSocket has when qc_open_listening_sockets returns `ok` for `count` ports.
abbrev pub Opened : ℕ → Bool × Sockets → Type 0
Opened count (ok, s) =
    (s.opened ≡ fds s ++ s.closed)
    × (((ok ≡ true)
          × (0 < count)
          × (length s.listening ≡ count)
          × ((close_listening_sockets s).closed ≡ s.opened))
        ⊎ ((ok ≡ false) × (length s.closed ≤ 1) × ((length s.listening < count) ⊎ (count ≡ 0))))

-- The test of the size of the list behind the loop
sized :
    (count : ℕ) (ok : Bool) (s : Sockets)
    → Opens 0 count (ok, s)
    → Opened count (if length s.listening == 0 then false else ok, s)
unfolding close_listening_sockets
sized zero ok s (k, inl (t, c, l)) =
    subst (λ b. Opened zero (if b then false else ok, s)) (sym (ap (λ n. n == 0) l))
      (k, inr (refl, omega (arith, ap length c), inr refl))
sized (suc count) ok s (k, inl (t, c, l)) =
    let full : length s.listening ≡ suc count = omega (arith, l) in
    let not_empty : (length s.listening == 0) ≡ false = ground (arith, full) in
    subst (λ b. Opened (suc count) (if b then false else ok, s)) (sym not_empty)
      (
        k,
        inl (
          t,
          omega arith,
          full,
          ap (λ z. z ++ fds s) c ∙ sym (append-nil (fds s)) ∙ ap (◌++◌ (fds s)) (sym c) ∙ sym k,
        ),
      )
sized count ok s (k, inr (f, c, n, l)) = elim (Bool-cases (length s.listening == 0)) [
  | inl e ↦
      subst (λ b. Opened count (if b then false else ok, s)) (sym e)
        (k, inr (refl, c, inl (omega (arith, l))))
  | inr e ↦
      subst (λ b. Opened count (if b then false else ok, s)) (sym e)
        (k, inr (f, c, inl (omega (arith, l))))
]

sized-Holds :
    (count : ℕ) (o : Option (Bool × Sockets))
    → Holds (Opens 0 count) o
    → Holds (Opened count) (o >>= λ r. some (if length r.1.listening == 0 then false else r.0, r.1))
sized-Holds count none h = tt
sized-Holds count (some r) h = sized count r.0 r.1 h

-- Where qc_open_listening_sockets returns, each descriptor that it opened is in the list or
-- closed. On true there is a socket for each of the configured ports, and
-- qc_close_listening_sockets then closes exactly the descriptors that were opened. On false it has
-- closed one descriptor at most, and the list has fewer sockets than ports, or there are no ports.
pub open_listening_sockets-Opened :
    (port_count : ℤ) (answers : ℕ → Attempt) (items : List Item) (ok : Bool) (s : Sockets)
    → open_listening_sockets port_count answers items no_sockets ≡ some (ok, s)
    → Opened (pos_part port_count) (ok, s)
unfolding open_listening_sockets
open_listening_sockets-Opened port_count answers items ok s e =
    subst (Holds (Opened (pos_part port_count))) e (
      sized-Holds (pos_part port_count) (open_loop (pos_part port_count) 0 answers items no_sockets)
        (open_loop-Opens (pos_part port_count) 0 0 answers items no_sockets (refl, refl) refl))
