-- ===== src/Proc/Main/Ends.antt =====
-- How main() ends, and what holds where it goes on.
use quick_comm.Base.{
  ℕ, ◌≡◌, refl, ap, ◌∙◌, Bool, true, false, not, ◌⊎◌, inl, inr, List, [], length, Option, none,
  some, ◌==◌, ==_iff, if◌then◌else◌, if_cases, bind_cases, >>=-eq-some, not-true, not-false, codes,
  ◌>>=◌, arith,
}
use mathlib.Core.Path.{subst}
use quick_comm.Base.Int.{ℤ, pos, negsuc, pos_part}
use quick_comm.Public.Log.{QcLog, Write, log_init}
use quick_comm.Public.Config.{Item, load, load_loop, get_int_default}
use quick_comm.Net.Server.Start.{Settings, Sockets, open_listening_sockets, read_conf}
use quick_comm.Net.Server.Start.Opening.{Opened, open_listening_sockets-Opened}
use quick_comm.Net.Server.Start.Failures.{SomeAttempt, open_listening_sockets-Blames}
use quick_comm.Net.Server.Life.{initialize, is_one}
use quick_comm.Proc.Signals.Installed.{SomeRefused, AllGranted, Installs, init_signals-Installs}
use quick_comm.Proc.Signals.{signals, default_action, init_signals}
use quick_comm.Proc.Daemon.{Process, in_parent, daemon}
use quick_comm.Proc.Daemon.Detached.{
  Daemonized, DaemonFails, OpensUnused, daemon_codes, daemon-Daemonized,
}
use quick_comm.Proc.Cycle.{master_process_cycle, holding_back}
use quick_comm.Proc.Cycle.Workers.{Spawns, master_cycle-Spawns}
use quick_comm.Proc.Main.Returns.{AreInts, start_up-IsSome}
use quick_comm.Public.Format.{ByteList}
use quick_comm.Proc.Main.{
  Machine, End, exited, cycling, first_settings, no_listening, free_resource, close_log, leave,
  self_of, no_doubles, enter_cycle, behind_daemon, choose_daemon, start_up, main_program,
}

-- The log is closed, or it was the standard error.
abbrev pub IsLeft : QcLog → Type 0
IsLeft log = (log.fd ≡ none) ⊎ (log.fd ≡ some 2)

free-IsLeft : (fd : Option ℕ) → (close_log fd ≡ none) ⊎ (close_log fd ≡ some 2)
free-IsLeft none = inl refl
free-IsLeft (some fd) =
    if_cases (λ o. (o ≡ none) ⊎ (o ≡ some 2)) (fd == 2) _ _ (λ e. inr (ap some ((==_iff fd 2).0 e)))
      (λ _. inl refl)

-- The configuration asks for a background process.
abbrev pub IsDaemon : List Item → Type 0
IsDaemon items = get_int_default (codes "Daemon") (pos 0) items ≡ some (pos 1)

-- No listening port is configured, or a system call fails for one of the configured ports.
abbrev pub PortsFail : Machine → List Item → Type 0
PortsFail m items =
    (y : Settings) × (read_conf items first_settings ≡ some y)
    × ((pos_part y.listen_port_count ≡ 0) ⊎ SomeAttempt (pos_part y.listen_port_count) 0 m.sockets)

-- What sent the process out of main(): a refused signal, the ports, or a call of qc_daemon
abbrev pub HasFailed : Machine → List Item → Type 0
HasFailed m items =
    SomeRefused m.sigactions signals
    ⊎ PortsFail m items
    ⊎ (IsDaemon items × DaemonFails m.daemon_fork m.daemon_answers)

-- The process of the cycle: the first one, or the one that qc_daemon left
abbrev pub IsRunning : Machine → List Item → Process → Type 0
IsRunning m items p =
    (p ≡ m.process)
    ⊎ (IsDaemon items × Daemonized m.daemon_fork m.daemon_answers m.process (pos 0, p))

abbrev pub Outcome : Machine → List Item → End → Type 0
Outcome m items (exited code log) =
    IsLeft log
    × (((code ≡ 2) × (m.config ≡ none))
        ⊎ ((code ≡ 1) × HasFailed m items)
        ⊎ ((code ≡ 0) × IsDaemon items × (child : ℕ) × (m.daemon_fork ≡ in_parent child)))
Outcome m items (cycling p y socks log started) =
    AllGranted m.sigactions signals
    × (read_conf items first_settings ≡ some y)
    × Opened (pos_part y.listen_port_count) (true, socks)
    × IsRunning m items p
    × (n : ℤ) × (get_int_default (codes "WorkerProcesses") (pos 1) items ≡ some n)
    × Spawns (pos_part n) 0 m.forks (holding_back m.blocks (self_of p)) started

-- The same, where there is an end
abbrev OnEnd : Machine → List Item → Option End → Type 0
OnEnd m items none = Unit
OnEnd m items (some end) = Outcome m items end

leave-OnEnd :
    (m : Machine) (items : List Item) (log : QcLog)
    → HasFailed m items
    → OnEnd m items (leave 1 log)
leave-OnEnd m items log failed = (free-IsLeft log.fd, inr (inl (refl, failed)))

module _ (m : Machine) (items : List Item) (log : QcLog) (y : Settings) (socks : Sockets)
    (installs : AllGranted m.sigactions signals) (reads : read_conf items first_settings ≡ some y)
    (opens : Opened (pos_part y.listen_port_count) (true, socks))
    (unused : OpensUnused m.daemon_answers m.process) where
  cycle-OnEnd :
      (p : Process) → IsRunning m items p → OnEnd m items (enter_cycle m items log y socks p)
  unfolding enter_cycle
  cycle-OnEnd p running =
      bind_cases (OnEnd m items) (master_process_cycle m.blocks items m.forks (self_of p))
        (λ started. some (cycling p y socks log started)) tt
        (λ started e.
          let (n, found, spawns) =
            master_cycle-Spawns m.blocks items m.forks (self_of p) started e in
          (installs, reads, opens, running, n, found, spawns))

  daemon_cases :
      (r : ℤ × Process)
      → daemon m.daemon_fork m.daemon_answers m.process ≡ r
      → ((r.0 ≡ negsuc 0) × DaemonFails m.daemon_fork m.daemon_answers)
        ⊎ ((r.0 ≡ pos 1) × (child : ℕ) × (m.daemon_fork ≡ in_parent child))
        ⊎ ((r.0 ≡ pos 0) × Daemonized m.daemon_fork m.daemon_answers m.process (pos 0, r.1))
  daemon_cases r e = daemon_codes m.daemon_fork m.daemon_answers m.process r.0 r.1 (
      subst (Daemonized m.daemon_fork m.daemon_answers m.process) e
        (daemon-Daemonized m.daemon_fork m.daemon_answers m.process unused))

  daemon-OnEnd :
      (r : ℤ × Process)
      → get_int_default (codes "Daemon") (pos 0) items ≡ some (pos 1)
      → daemon m.daemon_fork m.daemon_answers m.process ≡ r
      → OnEnd m items (behind_daemon m items log y socks r)
  unfolding behind_daemon
  daemon-OnEnd (negsuc n, p) mode e = elim (daemon_cases (negsuc n, p) e) [
    | inl (code, failed) ↦
        if_cases (OnEnd m items) (n == 0) _ _
          (λ _. leave-OnEnd m items log (inr (inr (mode, failed))))
          (λ other. absurd (ground (arith, code, other)))
    | inr (inl (code, child, parent)) ↦ absurd (cc code)
    | inr (inr (code, d)) ↦ absurd (cc code)
  ]
  daemon-OnEnd (pos n, p) mode e = elim (daemon_cases (pos n, p) e) [
    | inl (code, failed) ↦ absurd (cc code)
    | inr (inl (code, child, parent)) ↦
        if_cases (OnEnd m items) (n == 1) _ _
          (λ _. (free-IsLeft log.fd, inr (inr (refl, mode, child, parent))))
          (λ other. absurd (ground (arith, code, other)))
    | inr (inr (code, d)) ↦
        if_cases (OnEnd m items) (n == 1) _ _ (λ one. absurd (ground (arith, code, one)))
          (λ _. cycle-OnEnd p (inr (mode, d)))
  ]

  mode_one : (n : ℤ) → is_one n ≡ true → n ≡ pos 1
  mode_one (pos n) e = ap pos ((==_iff n 1).0 e)
  mode_one (negsuc n) e = absurd (cc e)

  choose-OnEnd : OnEnd m items (choose_daemon m items log y socks)
  unfolding choose_daemon
  choose-OnEnd =
      bind_cases (OnEnd m items) (get_int_default (codes "Daemon") (pos 0) items) _ tt
        (λ mode found.
          if_cases (OnEnd m items) (is_one mode) _ _
            (λ one.
              daemon-OnEnd (daemon m.daemon_fork m.daemon_answers m.process)
                (found ∙ ap some (mode_one mode one)) refl)
            (λ _. cycle-OnEnd m.process (inl refl)))

-- What Initialize has read and opened
initialized :
    (items : List Item) (m : Machine) (ok : Bool) (y : Settings) (socks : Sockets)
    → initialize items m.sockets first_settings no_listening ≡ some (ok, y, socks)
    → (read_conf items first_settings ≡ some y)
      × (open_listening_sockets y.listen_port_count m.sockets items no_listening ≡ some (ok, socks))
unfolding initialize
initialized items m ok y socks e =
    let (read, reads, rest) = >>=-eq-some (read_conf items first_settings) _ e in
    let (r, opens, made) =
      >>=-eq-some (open_listening_sockets read.listen_port_count m.sockets items no_listening) _
        rest in
    let same : read ≡ y = cc made in
    (
      reads ∙ ap some same,
      subst
          (λ z.
            open_listening_sockets z.listen_port_count m.sockets items no_listening
            ≡ some (ok, socks))
          same (opens ∙ ap (λ o. o >>= λ t. some (t.0, t.2)) made),
    )

module _ (m : Machine) (items : List Item) (unused : OpensUnused m.daemon_answers m.process) where
  initialized-OnEnd :
      (log : QcLog) (r : Bool × Settings × Sockets)
      → AllGranted m.sigactions signals
      → initialize items m.sockets first_settings no_listening ≡ some r
      → OnEnd m items (if not r.0 then leave 1 log else choose_daemon m items log r.1 r.2)
  initialized-OnEnd log (true, y, socks) installs e =
      let (reads, opens) = initialized items m true y socks e in
      choose-OnEnd m items log y socks installs reads
        (open_listening_sockets-Opened y.listen_port_count m.sockets items true socks opens) unused
  initialized-OnEnd log (false, y, socks) installs e =
      let (reads, opens) = initialized items m false y socks e in
      leave-OnEnd m items log (
        inr (
          inl (
            y,
            reads,
            open_listening_sockets-Blames y.listen_port_count m.sockets items socks opens,
          )))

  start-OnEnd : (log : QcLog) → OnEnd m items (start_up m items log)
  unfolding start_up
  start-OnEnd log =
      if_cases (OnEnd m items) (not (init_signals m.sigactions (λ _. default_action)).0) _ _
        (λ e. leave-OnEnd m items log (
          inl (
            subst (Installs m.sigactions signals) (not-true _ e)
              (init_signals-Installs m.sigactions (λ _. default_action)))))
        (λ e.
          bind_cases (OnEnd m items) (initialize items m.sockets first_settings no_listening) _ tt
            (λ r found.
              initialized-OnEnd log r
                (subst (Installs m.sigactions signals) (not-false _ e)
                  (init_signals-Installs m.sigactions (λ _. default_action)))
                found))

not_loaded :
    (config : Option (List ℕ)) (items : List Item)
    → load config [] ≡ some (false, items)
    → config ≡ none
unfolding load
not_loaded none items e = refl
not_loaded (some file) items e = absurd (cc (>>=-eq-some (load_loop (length file) file) _ e).2)

-- Without a configuration file main() returns 2.
abbrev pub StopsUnloaded : Bool → End → Type 0
StopsUnloaded loaded end = loaded ≡ false → (log : QcLog) × (end ≡ exited 2 log)

behind_load :
    (m : Machine) (items : List Item) (log : QcLog) (end : End) (loaded : Bool)
    → OpensUnused m.daemon_answers m.process
    → load m.config [] ≡ some (loaded, items)
    → (if not loaded then leave 2 log else start_up m items log) ≡ some end
    → Outcome m items end × StopsUnloaded loaded end
behind_load m items log end true unused loads e =
    (subst (OnEnd m items) e (start-OnEnd m items unused log), λ no. absurd (cc no))
behind_load m items log end false unused loads e = (
  subst (OnEnd m items) e (free-IsLeft log.fd, inl (refl, not_loaded m.config items loads)),
  λ _. (free_resource log, cc e),
)

-- For whatever the system answers, if the open() of qc_daemon gives an unused descriptor, the
-- configuration can be read, each number in it is one of type int, and the log can be opened,
-- main() goes to an end. It returns with the log closed, unless the log was the standard error:
-- with 2 just when there is no configuration file, with 1 only when sigaction() refuses a signal of
-- the table, the configuration has no listening port, a system call fails for the socket of one of
-- its ports, or a background process is asked for and a call of qc_daemon fails, and with 0 only
-- where a background process is asked for and fork() returned in the parent. Else the process is in
-- its cycle: no sigaction() of the table was refused, the settings are those of the file, each configured port has its socket, and the process is the
-- first one or the background process of qc_daemon; from there the workers are started as
-- configured.
pub main-Ends :
    (m : Machine) (loaded : Bool) (items : List Item) (name : ByteList) (writes : List Write)
    (log : QcLog)
    → OpensUnused m.daemon_answers m.process
    → load m.config [] ≡ some (loaded, items)
    → AreInts items
    → log_init no_doubles m.log_place items m.log_file m.log_err m.log_answer
      ≡ some (name, writes, log)
    → (end : End) × (main_program m ≡ some end) × Outcome m items end × StopsUnloaded loaded end
unfolding main_program
main-Ends m loaded items name writes log unused loads ints logs =
    let (end, e) = load_cases loaded in
    let (outcome, stops) = behind_load m items log end loaded unused loads e in
    (end, simp (loads, logs) e, outcome, stops)
  where
    load_cases :
        (loaded : Bool)
        → (end : End) × ((if not loaded then leave 2 log else start_up m items log) ≡ some end)
    load_cases true = start_up-IsSome m items ints log
    load_cases false = (_, refl)
