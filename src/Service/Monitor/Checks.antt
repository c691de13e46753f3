-- ===== src/Service/Monitor/Checks.antt =====
-- What the checks of a round do to each client, one after the other.
use quick_comm.Base.{
  ℕ, ◌+◌, ◌*◌, ◌≤◌, ◌<◌, ◌≡◌, ◌≢◌, refl, sym, ap, ◌∙◌, true, false, ◌⊎◌, inl, inr, List, [], ◌∷◌,
  ◌++◌, none, ltb, ◌==◌, ==_iff, Bool-cases, if_cases, All, All-map, lt→ltb, arith,
}
use mathlib.Core.Path.{subst}
use quick_comm.Net.Timer.{Header}
use quick_comm.Net.Pool.{contains, in_recy_connect_queue, modify}
use quick_comm.Net.Pool.Taken.{own_entry}
use quick_comm.Net.Server.{Server, conn_at, shut, zd_close_socket_proc}
use quick_comm.Net.Server.Close.{IsValid, IsHeld, IsHeldOrOld, zd_close-IsValid}
use quick_comm.Net.Server.Events.Others.{zd_close-others}
use quick_comm.Service.{proc_ping_time_out_checking}
use quick_comm.Service.Monitor.{check_loop}

-- The client at `a` pinged within three waits and ten seconds, and no client is kicked for its age.
abbrev pub Pinged : ℕ → ℕ → Server → Type 0
Pinged cur a s =
    (s.conf.timeout_kick ≡ false)
    × (cur ≤ (conn_at a s).last_ping_time + (s.conf.wait_time * 3 + 10))

abbrev pub IsIdle : ℕ → ℕ → Server → Type 0
IsIdle cur a s =
    (s.conf.timeout_kick ≡ true)
    ⊎ ((conn_at a s).last_ping_time + (s.conf.wait_time * 3 + 10) < cur)

-- A check closes its connection, or does nothing.
check_cases :
    (P : Server → Type 0) (cur a seq : ℕ) (s : Server)
    → P s
    → P (zd_close_socket_proc cur a s)
    → P (proc_ping_time_out_checking cur a seq s)
unfolding proc_ping_time_out_checking
check_cases P cur a seq s same closed =
    if_cases P (seq == (conn_at a s).seq) _ _
      (λ _.
        if_cases P s.conf.timeout_kick _ _ (λ _. closed)
          (λ _. if_cases P _ _ _ (λ _. closed) (λ _. same)))
      (λ _. same)

zd_close-IsHeld : (cur a b : ℕ) (s : Server) → IsHeld b s → IsHeld b (zd_close_socket_proc cur a s)
unfolding zd_close_socket_proc in_recy_connect_queue
zd_close-IsHeld cur a b s h = elim (Bool-cases (contains a s.pool.recy_list)) [
  | inl there ↦ simp there h
  | inr new ↦ simp new h
]

zd_close-fd : (cur a : ℕ) (s : Server) → (conn_at a (zd_close_socket_proc cur a s)).fd ≡ none
unfolding zd_close_socket_proc in_recy_connect_queue shut
zd_close-fd cur a s = elim (Bool-cases (contains a s.pool.recy_list)) [
  | inl there ↦ simp there (ap (λ c. c.fd) (own_entry s.pool.conns a (shut (conn_at a s))))
  | inr new ↦ simp new (
      ap (λ c. c.fd) (own_entry (modify a shut (s.pool)).conns a _)
      ∙ ap (λ c. c.fd) (own_entry s.pool.conns a (shut (conn_at a s))))
]

-- What the other connections see of a check
check-others :
    (cur a seq b : ℕ) (s : Server)
    → b ≢ a
    → conn_at b (proc_ping_time_out_checking cur a seq s) ≡ conn_at b s
check-others cur a seq b s n =
    check_cases (λ t. conn_at b t ≡ conn_at b s) cur a seq s refl (zd_close-others cur a b s n)

-- What a check leaves alone of the settings
check-conf : (cur a seq : ℕ) (s : Server) → (proc_ping_time_out_checking cur a seq s).conf ≡ s.conf
unfolding zd_close_socket_proc
check-conf cur a seq s = check_cases (λ t. t.conf ≡ s.conf) cur a seq s refl refl

-- An entry with another number than its connection has no effect.
old-check :
    (cur a seq : ℕ) (s : Server)
    → (conn_at a s).seq ≢ seq
    → proc_ping_time_out_checking cur a seq s ≡ s
unfolding proc_ping_time_out_checking
old-check cur a seq s n =
    if_cases (λ t. t ≡ s) (seq == (conn_at a s).seq) _ _
      (λ e. absurd (n (sym ((==_iff seq (conn_at a s).seq).0 e)))) (λ _. refl)

pub check-IsValid :
    (cur a seq : ℕ) (s : Server)
    → IsValid s
    → IsHeldOrOld a seq s
    → IsValid (proc_ping_time_out_checking cur a seq s)
check-IsValid cur a seq s v (inl h) =
    check_cases IsValid cur a seq s v (zd_close-IsValid cur a s v h)
check-IsValid cur a seq s v (inr n) = subst IsValid (sym (old-check cur a seq s n)) v

check-IsHeld :
    (cur a seq b : ℕ) (s : Server) → IsHeld b s → IsHeld b (proc_ping_time_out_checking cur a seq s)
check-IsHeld cur a seq b s h = check_cases (IsHeld b) cur a seq s h (zd_close-IsHeld cur a b s h)

check-IsHeldOrOld :
    (cur : ℕ) (h g : Header) (s : Server)
    → IsHeldOrOld h.conn h.seq s
    → IsHeldOrOld g.conn g.seq s
    → IsHeldOrOld g.conn g.seq (proc_ping_time_out_checking cur h.conn h.seq s)
check-IsHeldOrOld cur h g s (inr n) k =
    subst (IsHeldOrOld g.conn g.seq) (sym (old-check cur h.conn h.seq s n)) k
check-IsHeldOrOld cur h g s (inl held) (inl k) = inl (check-IsHeld cur h.conn h.seq g.conn s k)
check-IsHeldOrOld cur h g s (inl held) (inr n) = elim (Bool-cases (g.conn == h.conn)) [
  | inl own ↦
      let k : IsHeld g.conn s = subst (λ b. IsHeld b s) (sym ((==_iff g.conn h.conn).0 own)) held in
      inl (check-IsHeld cur h.conn h.seq g.conn s k)
  | inr other ↦
      let same = check-others cur h.conn h.seq g.conn s (ground (arith, other)) in
      inr (λ e. n (sym (ap (λ c. c.seq) same) ∙ e))
]

pub loop-IsValid :
    (cur : ℕ) (hs : List Header) (s : Server)
    → IsValid s
    → All (λ (h : Header). IsHeldOrOld h.conn h.seq s) hs
    → IsValid (check_loop cur hs s)
unfolding check_loop
loop-IsValid cur [] s v held = v
loop-IsValid cur (h ∷ hs) s v (held, later) =
    let t = proc_ping_time_out_checking cur h.conn h.seq s in
    loop-IsValid cur hs t (check-IsValid cur h.conn h.seq s v held) (
      All-map (λ (g : Header). IsHeldOrOld g.conn g.seq s)
        (λ (g : Header). IsHeldOrOld g.conn g.seq t) (λ g k. check-IsHeldOrOld cur h g s held k) hs
        later)

-- A check of a client that pinged changes nothing.
Pinged-check :
    (cur a seq : ℕ) (s : Server) → Pinged cur a s → proc_ping_time_out_checking cur a seq s ≡ s
unfolding proc_ping_time_out_checking
Pinged-check cur a seq s (k, h) =
    let late : ltb ((conn_at a s).last_ping_time + (s.conf.wait_time * 3 + 10)) cur ≡ false =
      ground arith in
    if_cases (λ t. t ≡ s) (seq == (conn_at a s).seq) _ _ (λ _. simp (k, late) refl) (λ _. refl)

-- What a later check needs of a state: the connection is as it was, with the same settings.
abbrev pub Same : ℕ → Server → Server → Type 0
Same a s t = (conn_at a t ≡ conn_at a s) × (t.conf ≡ s.conf)

check-Same :
    (cur a seq b : ℕ) (s t : Server)
    → b ≢ a
    → Same b s t
    → Same b s (proc_ping_time_out_checking cur a seq t)
check-Same cur a seq b s t n (c, f) = (check-others cur a seq b t n ∙ c, check-conf cur a seq t ∙ f)

Pinged-Same : (cur a : ℕ) (s t : Server) → Same a s t → Pinged cur a s → Pinged cur a t
Pinged-Same cur a s t (c, f) (k, h) = (
  ap (λ x. x.timeout_kick) f ∙ k,
  omega (arith, h, ap (λ x. x.last_ping_time) c, ap (λ x. x.wait_time) f),
)

pub Pinged-loop :
    (cur a : ℕ) (hs : List Header) (s t : Server)
    → Same a s t
    → Pinged cur a s
    → conn_at a (check_loop cur hs t) ≡ conn_at a s
unfolding check_loop
Pinged-loop cur a [] s t same p = same.0
Pinged-loop cur a (h ∷ hs) s t same p = elim (Bool-cases (a == h.conn)) [
  | inr other ↦
      Pinged-loop cur a hs s (proc_ping_time_out_checking cur h.conn h.seq t)
        (check-Same cur h.conn h.seq a s t (ground (arith, other)) same) p
  | inl own ↦
      let e = (==_iff a h.conn).0 own in
      let quiet : proc_ping_time_out_checking cur h.conn h.seq t ≡ t =
        Pinged-check cur h.conn h.seq t
          (subst (λ b. Pinged cur b t) e (Pinged-Same cur a s t same p)) in
      Pinged-loop cur a hs s (proc_ping_time_out_checking cur h.conn h.seq t)
        (subst (λ u. Same a s u) (sym quiet) same) p
]

-- A connection without a descriptor stays so.
abbrev pub IsShut : ℕ → Server → Type 0
IsShut a s = (conn_at a s).fd ≡ none

check-IsShut :
    (cur b seq a : ℕ) (s : Server) → IsShut a s → IsShut a (proc_ping_time_out_checking cur b seq s)
check-IsShut cur b seq a s e = elim (Bool-cases (a == b)) [
  | inr other ↦ ap (λ c. c.fd) (check-others cur b seq a s (ground (arith, other))) ∙ e
  | inl own ↦
      subst (λ x. IsShut x (proc_ping_time_out_checking cur b seq s)) (sym ((==_iff a b).0 own))
        (check_cases (IsShut b) cur b seq s (subst (λ x. IsShut x s) ((==_iff a b).0 own) e)
          (zd_close-fd cur b s))
]

loop-IsShut :
    (cur a : ℕ) (hs : List Header) (s : Server) → IsShut a s → IsShut a (check_loop cur hs s)
unfolding check_loop
loop-IsShut cur a [] s e = e
loop-IsShut cur a (h ∷ hs) s e =
    loop-IsShut cur a hs (proc_ping_time_out_checking cur h.conn h.seq s)
      (check-IsShut cur h.conn h.seq a s e)

IsIdle-Same : (cur a : ℕ) (s t : Server) → Same a s t → IsIdle cur a s → IsIdle cur a t
IsIdle-Same cur a s t (c, f) (inl k) = inl (ap (λ x. x.timeout_kick) f ∙ k)
IsIdle-Same cur a s t (c, f) (inr h) =
    inr (omega (arith, h, ap (λ x. x.last_ping_time) c, ap (λ x. x.wait_time) f))

-- The check of an idle client by its own entry closes it.
idle-check :
    (cur a seq : ℕ) (s : Server)
    → seq ≡ (conn_at a s).seq
    → IsIdle cur a s
    → proc_ping_time_out_checking cur a seq s ≡ zd_close_socket_proc cur a s
unfolding proc_ping_time_out_checking
idle-check cur a seq s e (inl k) = simp ((==_iff seq (conn_at a s).seq).1 e, k) refl
idle-check cur a seq s e (inr h) = simp ((==_iff seq (conn_at a s).seq).1 e) (
    if_cases (λ t. t ≡ zd_close_socket_proc cur a s) s.conf.timeout_kick _ _ (λ _. refl)
      (λ _. simp (lt→ltb _ _ h) refl))

pub idle-loop :
    (cur : ℕ) (front back : List Header) (h : Header) (s t : Server)
    → Same h.conn s t
    → h.seq ≡ (conn_at h.conn s).seq
    → IsIdle cur h.conn s
    → IsShut h.conn (check_loop cur (front ++ (h ∷ back)) t)
unfolding check_loop
idle-loop cur [] back h s t same e idle =
    loop-IsShut cur h.conn back (proc_ping_time_out_checking cur h.conn h.seq t) (
      ap (λ u. (conn_at h.conn u).fd)
        (idle-check cur h.conn h.seq t (e ∙ sym (ap (λ c. c.seq) same.0))
          (IsIdle-Same cur h.conn s t same idle))
      ∙ zd_close-fd cur h.conn t)
idle-loop cur (g ∷ front) back h s t same e idle = elim (Bool-cases (h.conn == g.conn)) [
  | inr other ↦
      idle-loop cur front back h s (proc_ping_time_out_checking cur g.conn g.seq t)
        (check-Same cur g.conn g.seq h.conn s t (ground (arith, other)) same) e idle
  | inl own ↦
      let c = (==_iff h.conn g.conn).0 own in
      check_cases (λ u. IsShut h.conn (check_loop cur (front ++ (h ∷ back)) u)) cur g.conn g.seq t
        (idle-loop cur front back h s t same e idle)
        (loop-IsShut cur h.conn (front ++ (h ∷ back)) (zd_close_socket_proc cur g.conn t) (
          subst (λ x. IsShut x (zd_close_socket_proc cur g.conn t)) (sym c)
            (zd_close-fd cur g.conn t)))
]
