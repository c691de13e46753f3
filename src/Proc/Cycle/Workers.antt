-- ===== src/Proc/Cycle/Workers.antt =====
-- The workers that the master starts, and what each of them begins with.
use quick_comm.Base.{
  codes, ◌>>=◌, >>=-eq-some, ℕ, zero, suc, ◌+◌, ◌<◌, ◌≡◌, refl, sym, ap, ◌∙◌, All, Bool, true,
  false, not, ◌⊎◌, inl, inr, List, [], ◌∷◌, ◌++◌, Option, none, some, length, if_cases, not-true,
  if◌then◌else◌, arith,
}
use mathlib.Core.Path.{subst}
use quick_comm.Net.Server.Life.{
  Created, ThreadItems, initialize_subproc, send_queue, recycle, timer_queue,
}
use quick_comm.Base.Int.{ℤ, pos, negsuc, pos_part}
use quick_comm.Net.Server.Start.Listeners
use quick_comm.Public.Config.{Item, get_int_default}
use quick_comm.Misc.Threads.Created.{IsCreated, create-IsCreated, create-AllMade}
use quick_comm.Misc.Threads.{Threads, new_threads, create}
use quick_comm.Net.Server.{Server, SockConf}
use quick_comm.Net.Server.Start.{Listening, new_server, epoll_init}
use quick_comm.Net.Server.Start.Listeners.{AllServed, SomeFails, epoll_init-Started}
use quick_comm.Net.Server.Close.{IsValid}
use quick_comm.Proc.Daemon.{Forked, fork_failed, in_child, in_parent}
use quick_comm.Proc.Cycle.{
  Self, Started, in_master, in_worker, child_of, push_pid, workers_loop, start_worker_processes,
  master_process_cycle, holding_back, World, Begun, exited, ready, made_from, begin_threads,
  unblocked, worker_process_init,
}

-- What fork() gave in the master
abbrev pub pid_of : Forked → Option ℕ
pid_of fork_failed = none
pid_of (in_child pid) = none
pid_of (in_parent pid) = some pid

abbrev pub IsParent : Forked → Type 0
IsParent (in_child pid) = ⊥
IsParent _ = Unit {0}

abbrev pub pids_from : ℕ → ℕ → (ℕ → Forked) → List (Option ℕ)
pids_from zero i forks = []
pids_from (suc n) i forks = pid_of (forks i) ∷ pids_from n (suc i) forks

-- The process is the parent behind `n` calls of fork().
abbrev pub AreParents : ℕ → ℕ → (ℕ → Forked) → Type 0
AreParents zero i forks = Unit {0}
AreParents (suc n) i forks = IsParent (forks i) × AreParents n (suc i) forks

-- The master is as it was and has asked for each of `n` workers from the number `i` on, or the
-- process is the child of one of these calls of fork(), in which it got its number.
abbrev pub Spawns : ℕ → ℕ → (ℕ → Forked) → Self → Started → Type 0
Spawns n i forks s (in_master pids t) =
    (t ≡ s) × (pids ≡ pids_from n i forks) × AreParents n i forks
Spawns n i forks s (in_worker j t) =
    (k : ℕ) × (j ≡ i + k)
    × (k < n)
    × AreParents k i forks
    × (pid : ℕ) × (forks j ≡ in_child pid)
    × (t.pid ≡ pid)
    × (t.parent ≡ s.pid)
    × (t.kind ≡ 1)
    × (t.blocked ≡ s.blocked)

push-Spawns :
    (n i : ℕ) (forks : ℕ → Forked) (s : Self) (rest : Started)
    → IsParent (forks i)
    → Spawns n (suc i) forks s rest
    → Spawns (suc n) i forks s (push_pid (pid_of (forks i)) rest)
push-Spawns n i forks s (in_master pids t) h (e, p, ps) =
    (e, ap (◌∷◌ (pid_of (forks i))) p, (h, ps))
push-Spawns n i forks s (in_worker j t) h (k, e, l, ps, pid, f, p, q, r, b) =
    (suc k, omega (arith, e), omega (arith, l), (h, ps), pid, f, p, q, r, b)

round-Spawns :
    (n i : ℕ) (forks : ℕ → Forked) (s : Self) (rest : Started) (f : Forked)
    → forks i ≡ f
    → Spawns n (suc i) forks s rest
    → Spawns (suc n) i forks s (elim f as (λ _. Started) [
      | fork_failed ↦ push_pid none rest
      | in_child pid ↦ in_worker i (child_of s pid)
      | in_parent pid ↦ push_pid (some pid) rest
    ])
round-Spawns n i forks s rest fork_failed e h =
    subst (λ f. Spawns (suc n) i forks s (push_pid (pid_of f) rest)) e
      (push-Spawns n i forks s rest (subst IsParent (sym e) tt) h)
round-Spawns n i forks s rest (in_parent pid) e h =
    subst (λ f. Spawns (suc n) i forks s (push_pid (pid_of f) rest)) e
      (push-Spawns n i forks s rest (subst IsParent (sym e) tt) h)
round-Spawns n i forks s rest (in_child pid) e h =
    (0, omega arith, omega arith, tt, pid, e, refl, refl, refl, refl)

loop-Spawns :
    (n i : ℕ) (forks : ℕ → Forked) (s : Self) → Spawns n i forks s (workers_loop n i forks s)
unfolding workers_loop
loop-Spawns zero i forks s = (refl, refl, tt)
loop-Spawns (suc n) i forks s =
    round-Spawns n i forks s (workers_loop n (suc i) forks s) (forks i) refl
      (loop-Spawns n (suc i) forks s)

-- Where qc_start_worker_processes for `threadnums` workers is left. In the master: each worker has
-- been asked for once, in order, also behind a fork() that failed, and what the process knows of
-- itself is as it was. In a worker: it has the number of the call of fork() in which it is the
-- child, below `threadnums`, the processes before it were the parent's, it knows the pid that
-- fork() made and the master as its parent, its kind is that of a worker (1), and it blocks the
-- signals that the master blocks.
pub start_workers-Spawns :
    (threadnums : ℤ) (forks : ℕ → Forked) (s : Self)
    → Spawns (pos_part threadnums) 0 forks s (start_worker_processes threadnums forks s)
unfolding start_worker_processes
start_workers-Spawns threadnums forks s = loop-Spawns (pos_part threadnums) 0 forks s

-- So too from qc_master_process_cycle on, for the number of workers in the configuration
pub master_cycle-Spawns :
    (blocks : Bool) (items : List Item) (forks : ℕ → Forked) (s : Self) (started : Started)
    → master_process_cycle blocks items forks s ≡ some started
    → (n : ℤ) × (get_int_default (codes "WorkerProcesses") (pos 1) items ≡ some n)
      × Spawns (pos_part n) 0 forks (holding_back blocks s) started
unfolding master_process_cycle
master_cycle-Spawns blocks items forks s started e =
    let ready = holding_back blocks s in
    let (n, found, made) =
      >>=-eq-some (get_int_default (codes "WorkerProcesses") (pos 1) items)
        (λ n. some (start_worker_processes n forks ready)) e in
    (
      n,
      found,
      subst (Spawns (pos_part n) 0 forks ready) (cc made) (start_workers-Spawns n forks ready),
    )

-- Something that Initialize_subproc asks for cannot be had.
abbrev pub IsMissing : Bool → Created → Type 0
IsMissing kick c =
    (c.send_mutex ≡ false)
    ⊎ (c.connection_mutex ≡ false)
    ⊎ (c.recycle_mutex ≡ false)
    ⊎ (c.timer_mutex ≡ false)
    ⊎ (c.semaphore ≡ false)
    ⊎ (c.thread send_queue ≡ false)
    ⊎ (c.thread recycle ≡ false)
    ⊎ ((kick ≡ true) × (c.thread timer_queue ≡ false))

-- The threads of a worker: the one that kicks idle clients only where that is asked for
abbrev pub all_items : Bool → ThreadItems
all_items true = (send_queue, true) ∷ (recycle, true) ∷ (timer_queue, true) ∷ []
all_items false = (send_queue, true) ∷ (recycle, true) ∷ []

abbrev pub HasThreads : Bool → Created → Bool × ThreadItems → Type 0
HasThreads kick c (ok, items) =
    ((ok ≡ true) × (items ≡ all_items kick)) ⊎ ((ok ≡ false) × IsMissing kick c)

two_threads :
    (kick b d : Bool) (c : Created)
    → c.thread recycle ≡ b
    → c.thread timer_queue ≡ d
    → let last : Bool × ThreadItems =
        if d then (true, (timer_queue, true) ∷ []) else (false, (timer_queue, false) ∷ []) in
      let rest : Bool × ThreadItems = if kick then last else (true, []) in
      let r : Bool × ThreadItems =
        if b then (rest.0, (recycle, true) ∷ rest.1) else (false, (recycle, false) ∷ []) in
      HasThreads kick c (r.0, (send_queue, true) ∷ r.1)
two_threads kick false d c e f = inr (refl, inr (inr (inr (inr (inr (inr (inl e)))))))
two_threads false true d c e f = inl (refl, refl)
two_threads true true true c e f = inl (refl, refl)
two_threads true true false c e f = inr (refl, inr (inr (inr (inr (inr (inr (inr (refl, f))))))))

subproc-HasThreads : (kick : Bool) (c : Created) → HasThreads kick c (initialize_subproc kick c)
unfolding initialize_subproc
subproc-HasThreads kick c =
    let P : Bool × ThreadItems → Type 0 = HasThreads kick c in
    if_cases P _ _ _ (λ e. inr (refl, inl (not-true c.send_mutex e)))
      (λ _.
        if_cases P _ _ _ (λ e. inr (refl, inr (inl (not-true c.connection_mutex e))))
          (λ _.
            if_cases P _ _ _ (λ e. inr (refl, inr (inr (inl (not-true c.recycle_mutex e)))))
              (λ _.
                if_cases P _ _ _ (λ e. inr (refl, inr (inr (inr (inl (not-true c.timer_mutex e))))))
                  (λ _.
                    if_cases P _ _ _
                      (λ e. inr (refl, inr (inr (inr (inr (inl (not-true c.semaphore e)))))))
                      (λ _.
                        if_cases P (c.thread send_queue) _ _
                          (λ _.
                            two_threads kick (c.thread recycle) (c.thread timer_queue) c refl refl)
                          (λ e. inr (refl, inr (inr (inr (inr (inr (inl e))))))))))))

-- What the process knows of itself is as it was, but for the blocked signals: none if sigprocmask()
-- works, and the same if it fails.
abbrev pub IsUnblocked : World → Self → Self → Type 0
IsUnblocked w s t =
    (t.pid ≡ s.pid)
    × (t.parent ≡ s.parent)
    × (t.kind ≡ s.kind)
    × (((w.unblocks ≡ true) × (t.blocked ≡ [])) ⊎ ((w.unblocks ≡ false) × (t.blocked ≡ s.blocked)))

unblocked_lem : (w : World) (s : Self) → IsUnblocked w s (unblocked w s)
unblocked_lem w s =
    if_cases (IsUnblocked w s) w.unblocks _ _ (λ e. (refl, refl, refl, inl (e, refl)))
      (λ e. (refl, refl, refl, inr (e, refl)))

length-made_from : (n i : ℕ) (made : ℕ → Bool) → length (made_from n i made) ≡ n
length-made_from zero i made = refl
length-made_from (suc n) i made = ap suc (length-made_from n (suc i) made)

-- A call that failed has its place.
failed_at :
    (n i : ℕ) (made : ℕ → Bool) (front back : List Bool)
    → made_from n i made ≡ front ++ (false ∷ back)
    → (k : ℕ) × (k < n) × (made (i + k) ≡ false)
failed_at zero i made [] back e = absurd (cc e)
failed_at zero i made (b ∷ front) back e = absurd (cc e)
failed_at (suc n) i made [] back e =
    let first : made i ≡ false = cc e in
    let same : i + 0 ≡ i = omega arith in (0, omega arith, ap made same ∙ first)
failed_at (suc n) i made (b ∷ front) back e =
    let (k, l, f) = failed_at n (suc i) made front back (cc e) in
    let same : i + suc k ≡ suc i + k = omega arith in (suc k, omega (arith, l), ap made same ∙ f)

made_at :
    (n i : ℕ) (made : ℕ → Bool)
    → All (λ (b : Bool). b ≡ true) (made_from n i made)
    → (k : ℕ) → k < n
    → made (i + k) ≡ true
made_at zero i made h k l = absurd (omega (arith, l))
made_at (suc n) i made (h, hs) zero l = let same : i + 0 ≡ i = omega arith in ap made same ∙ h
made_at (suc n) i made (h, hs) (suc k) l =
    let same : i + suc k ≡ suc i + k = omega arith in
    ap made same ∙ made_at n (suc i) made hs k (omega (arith, l))

-- How a worker begins. It ends at once with -2 only when a thread or a lock cannot be made, and
-- with 2 only when epoll cannot be set up. Else each of the `threadnums` calls of pthread_create()
-- for the pool worked, the pool has that many threads and no message, the socket has its threads,
-- and there is a valid server in which each listening socket has a
-- connection of its own.
abbrev pub Begins : World → ℤ → SockConf → List Listening → Self → Begun → Type 0
Begins w threadnums conf ls s (exited code) =
    ((code ≡ negsuc 1)
      × (((i : ℕ) × (i < pos_part threadnums) × (w.made i ≡ false))
          ⊎ IsMissing conf.kick_clock w.created))
    ⊎ ((code ≡ pos 2) × ((w.epoll ≡ false) ⊎ SomeFails w.watched 0 ls))
Begins w threadnums conf ls s (ready t pool items conns server) =
    IsUnblocked w s t
    × IsCreated (pos_part threadnums) pool
    × ((i : ℕ) → i < pos_part threadnums → w.made i ≡ true)
    × (items ≡ all_items conf.kick_clock)
    × IsValid server
    × AllServed 0 ls conns server

module _ (w : World) (threadnums : ℤ) (conf : SockConf) (ls : List Listening) (s t : Self)
    (u : IsUnblocked w s t) where
  serving-Begins :
      (pool : Threads) (items : ThreadItems) (o : Option (List ℕ × Server))
      → IsCreated (pos_part threadnums) pool
      → ((i : ℕ) → i < pos_part threadnums → w.made i ≡ true)
      → items ≡ all_items conf.kick_clock
      → quick_comm.Net.Server.Start.Listeners.Started w.epoll w.watched ls o
      → Begins w threadnums conf ls s (elim o as (λ _. Begun) [
        | none ↦ exited (pos 2)
        | some (conns, server) ↦ ready t pool items conns server
      ])
  serving-Begins pool items none created made all h = inr (refl, h)
  serving-Begins pool items (some (conns, server)) created made all (v, served) =
      (u, created, made, all, v, served)

  threads-Begins : Begins w threadnums conf ls s (begin_threads w threadnums conf ls t)
  unfolding begin_threads
  threads-Begins =
      let P : Begun → Type 0 = Begins w threadnums conf ls s in
      let n = pos_part threadnums in
      let made = made_from n 0 w.made in
      let at_k : (k : ℕ) → 0 + k ≡ k = λ k. omega arith in
      elim (create-IsCreated made) [
        | inr (failed, front, back, e) ↦
            if_cases P (not (create made new_threads).0) _ _
              (λ _.
                let (i, l, f) = failed_at n 0 w.made front back e in
                inl (refl, inl (i, l, ap w.made (sym (at_k i)) ∙ f)))
              (λ works. absurd (cc (works, failed)))
        | inl (made_all, is_created) ↦
            if_cases P (not (create made new_threads).0) _ _
              (λ broken. absurd (cc (broken, made_all)))
              (λ _. elim (subproc-HasThreads conf.kick_clock w.created) [
                | inr (failed, missing) ↦
                    if_cases P (not (initialize_subproc conf.kick_clock w.created).0) _ _
                      (λ _. inl (refl, inr missing)) (λ works. absurd (cc (works, failed)))
                | inl (ok, all) ↦
                    if_cases P (not (initialize_subproc conf.kick_clock w.created).0) _ _
                      (λ broken. absurd (cc (broken, ok)))
                      (λ _.
                        serving-Begins (create made new_threads).1
                          (initialize_subproc conf.kick_clock w.created).1
                          (epoll_init w.epoll w.now w.watched ls (new_server conf))
                          (subst (λ k. IsCreated k (create made new_threads).1)
                            (length-made_from n 0 w.made) is_created)
                          (λ i l.
                            ap w.made (sym (at_k i))
                            ∙ made_at n 0 w.made (create-AllMade made made_all) i l)
                          all (epoll_init-Started w.epoll w.now w.watched ls conf))
              ])
      ]

-- qc_worker_process_init, for the number of threads that the configuration gives: the process ends
-- with -2 only when a thread of the pool cannot be made or something is missing that
-- Initialize_subproc asks for, and with 2 only when epoll_create() or an epoll_ctl() fails. Else no
-- signal is blocked if sigprocmask() works, and the same signals as before if it fails, the pool
-- has as many threads as were asked for, each by a call that worked, and no message, the socket
-- has its threads, and the server is valid, with a connection in use for each listening socket.
pub worker_init-Begins :
    (w : World) (items : List Item) (threadnums : ℤ) (conf : SockConf) (ls : List Listening)
    (s : Self)
    → get_int_default (codes "ProcMsgRecvWorkThreadCount") (pos 5) items ≡ some threadnums
    → (b : Begun) × (worker_process_init w items conf ls s ≡ some b)
      × Begins w threadnums conf ls s b
unfolding worker_process_init
worker_init-Begins w items threadnums conf ls s e = (
  begin_threads w threadnums conf ls (unblocked w s),
  ap (λ o. o >>= λ n. some (begin_threads w n conf ls (unblocked w s))) e,
  threads-Begins w threadnums conf ls s (unblocked w s) (unblocked_lem w s),
)
