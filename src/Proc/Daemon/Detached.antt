-- ===== src/Proc/Daemon/Detached.antt =====
-- The process in which qc_daemon returns 0.
use quick_comm.Base.{
  ℕ, ◌<◌, ◌≤◌, ◌≡◌, refl, sym, ap, ◌∙◌, true, false, not, ◌⊎◌, inl, inr, Option, none, some, ltb,
  ◌==◌, ==_iff, Bool-cases, if_cases, not-true, arith,
}
use quick_comm.Base.Int.{ℤ, pos, negsuc}
use quick_comm.Proc.Daemon.{
  File, closed, dev_null, Process, Forked, fork_failed, in_child, in_parent, Answers, assign, dup,
  redirect, open_null, daemon,
}

-- open() gives a descriptor that stood for nothing.
abbrev pub OpensUnused : Answers → Process → Type 0
OpensUnused w p = (fd : ℕ) → w.opened ≡ some fd → p.files fd ≡ closed

-- A background process that came from `p`.
pub record Detached (pid : ℕ) (p q : Process) : Type 0 where
  pub is_child : q.pid ≡ pid
  pub knows_parent : q.parent ≡ p.pid
  pub leads : q.leads_session ≡ true
  pub mask : q.mask ≡ 0
  pub input : q.files 0 ≡ dev_null
  pub output : q.files 1 ≡ dev_null
  pub errors : (q.files 2 ≡ p.files 2) ⊎ (p.files 2 ≡ closed)
  pub others : (b : ℕ) → 2 < b → q.files b ≡ p.files b

-- A call in the background fails.
abbrev pub SomeFails : Answers → Type 0
SomeFails w =
    (w.session ≡ false)
    ⊎ (w.opened ≡ none)
    ⊎ (w.dup_stdin ≡ false)
    ⊎ (w.dup_stdout ≡ false)
    ⊎ (w.closes ≡ false)

-- What qc_daemon returns in which process
abbrev pub Daemonized : Forked → Answers → Process → ℤ × Process → Type 0
Daemonized fork_failed w p (code, q) = (code ≡ negsuc 0) × (q ≡ p)
Daemonized (in_parent number) w p (code, q) = (code ≡ pos 1) × (q ≡ p)
Daemonized (in_child pid) w p (code, q) =
    ((code ≡ negsuc 0) × SomeFails w) ⊎ ((code ≡ pos 0) × Detached pid p q)

-- The descriptors when all calls work, for the descriptor of /dev/null
module _ (fd : ℕ) (p : Process) (unused : p.files fd ≡ closed) where
  abbrev both_ends : Process
  both_ends = dup fd 1 (dup fd 0 (assign fd dev_null p))

  null_kept : both_ends.files fd ≡ dev_null
  null_kept = ground arith

  input_null : both_ends.files 0 ≡ dev_null
  input_null = ground arith

  output_null : both_ends.files 1 ≡ dev_null
  output_null = ground arith

  errors_kept : (both_ends.files 2 ≡ p.files 2) ⊎ (p.files 2 ≡ closed)
  errors_kept = elim (Bool-cases (2 == fd)) [
    | inl same ↦ inr (ap p.files ((==_iff 2 fd).0 same) ∙ unused)
    | inr other ↦ inl (simp other refl)
  ]

  others_kept : (b : ℕ) → 2 < b → (b == fd) ≡ false → both_ends.files b ≡ p.files b
  others_kept b h other = ground arith

  low_kept :
      (b : ℕ) (file : File)
      → both_ends.files b ≡ file
      → b ≤ 2
      → ltb 2 fd ≡ true
      → (assign fd closed both_ends).files b ≡ file
  low_kept b file e h high =
      let other : (b == fd) ≡ false = ground (arith, high) in simp other (simp other at e)

  closed_again : (b : ℕ) → 2 < b → (assign fd closed both_ends).files b ≡ p.files b
  closed_again b h = elim (Bool-cases (b == fd)) [
    | inl same ↦ simp same (sym (ap p.files ((==_iff b fd).0 same) ∙ unused))
    | inr other ↦ simp other (simp other at (others_kept b h other))
  ]

-- The child with its own session, on its way to `Detached`
abbrev leader : ℕ → Process → Process
leader pid p = record p { parent = p.pid; pid = pid; leads_session = true; mask = 0 }

module _ (pid fd : ℕ) (w : Answers) (p : Process) (unused : p.files fd ≡ closed) where
  abbrev child : Process
  child = leader pid p

  abbrev Ends : ℤ × Process → Type 0
  Ends r = Daemonized (in_child pid) w p r

  kept_open : ltb 2 fd ≡ false → Ends (pos 0, both_ends fd child unused)
  kept_open low = inr (
    refl,
    record {
      is_child = refl;
      knows_parent = refl;
      leads = refl;
      mask = refl;
      input = input_null fd child unused;
      output = output_null fd child unused;
      errors = errors_kept fd child unused;
      others = λ b h. others_kept fd child unused b h (ground (arith, low));
    },
  )

  shut_again : ltb 2 fd ≡ true → Ends (pos 0, assign fd closed (both_ends fd child unused))
  shut_again high = inr (
    refl,
    record {
      is_child = refl;
      knows_parent = refl;
      leads = refl;
      mask = refl;
      input = low_kept fd child unused 0 dev_null (input_null fd child unused) (omega arith) high;
      output = low_kept fd child unused 1 dev_null (output_null fd child unused) (omega arith) high;
      errors =
          inl (low_kept fd child unused 2 (p.files 2) (ground (arith, high)) (omega arith) high);
      others = closed_again fd child unused;
    },
  )

  redirect-Daemonized : Ends (redirect fd w (assign fd dev_null child))
  unfolding redirect
  redirect-Daemonized =
      if_cases Ends (not w.dup_stdin) _ _
        (λ e. inl (refl, inr (inr (inl (not-true w.dup_stdin e)))))
        (λ _.
          if_cases Ends (not w.dup_stdout) _ _
            (λ e. inl (refl, inr (inr (inr (inl (not-true w.dup_stdout e))))))
            (λ _.
              if_cases Ends (ltb 2 fd) _ _
                (λ high.
                  if_cases Ends w.closes _ _ (λ _. shut_again high)
                    (λ e. inl (refl, inr (inr (inr (inr e))))))
                kept_open))

null_opened :
    (pid : ℕ) (w : Answers) (p : Process) (o : Option ℕ)
    → w.opened ≡ o
    → OpensUnused w p
    → Daemonized (in_child pid) w p (open_null o w (leader pid p))
unfolding redirect
null_opened pid w p none e unused = inl (refl, inr (inl e))
null_opened pid w p (some fd) e unused = redirect-Daemonized pid fd w p (unused fd e)

-- qc_daemon returns -1 with the process as it was when fork() fails, and 1 in the parent, which is
-- as it was. In the child it returns -1 only when a call fails, and else 0: then the process knows
-- its number and its parent's, leads a session, has the umask 0, its standard input and output are
-- /dev/null, and no other descriptor has changed, but a standard error that was closed.
pub daemon-Daemonized :
    (f : Forked) (w : Answers) (p : Process) → OpensUnused w p → Daemonized f w p (daemon f w p)
unfolding daemon
daemon-Daemonized fork_failed w p unused = (refl, refl)
daemon-Daemonized (in_parent number) w p unused = (refl, refl)
daemon-Daemonized (in_child pid) w p unused =
    if_cases (Daemonized (in_child pid) w p) (not w.session) _ _
      (λ e. inl (refl, inl (not-true w.session e))) (λ _. null_opened pid w p w.opened refl unused)

-- Why qc_daemon fails
abbrev pub DaemonFails : Forked → Answers → Type 0
DaemonFails fork_failed w = Unit
DaemonFails (in_parent number) w = ⊥
DaemonFails (in_child pid) w = SomeFails w

-- The three ways in which qc_daemon returns
pub daemon_codes :
    (f : Forked) (w : Answers) (p : Process) (code : ℤ) (q : Process)
    → Daemonized f w p (code, q)
    → ((code ≡ negsuc 0) × DaemonFails f w)
      ⊎ ((code ≡ pos 1) × (child : ℕ) × (f ≡ in_parent child))
      ⊎ ((code ≡ pos 0) × Daemonized f w p (pos 0, q))
daemon_codes fork_failed w p code q (e, _) = inl (e, tt)
daemon_codes (in_parent number) w p code q (e, _) = inr (inl (e, number, refl))
daemon_codes (in_child pid) w p code q (inl (e, failed)) = inl (e, failed)
daemon_codes (in_child pid) w p code q (inr (e, detached)) = inr (inr (e, inr (refl, detached)))
