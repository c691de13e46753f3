-- ===== src/Proc/Main/Returns.antt =====
-- main() goes on to an end where the numbers of the configuration are numbers of type int.
use quick_comm.Base.{
  ℕ, zero, suc, ◌+◌, ◌^◌, ◌≤◌, ◌<◌, ◌≡◌, refl, ap, ◌∙◌, not, List, [], ◌∷◌, ◌++◌, Option, none,
  some, All, ltb, leb, ◌==◌, if◌then◌else◌, if_cases, ltb→lt, codes, ◌>>=◌, arith,
}
use quick_comm.Base.Int.{ℤ, pos, negsuc, pos_part, ltb_ℤ, ◌-ℤ◌}
use quick_comm.Public.Format.Digits.{temp_digits-Spells}
use quick_comm.Public.Config.{Item, atoi, digits_value, is_space, same_name, get_int_default}
use quick_comm.Net.Server.Start.{
  Settings, Sockets, Attempt, read_conf, port_of, bind_fd, open_fd, open_socket, open_loop,
  open_listening_sockets,
}
use quick_comm.Net.Server.Life.{initialize, is_one}
use quick_comm.Proc.Signals.{default_action, init_signals}
use quick_comm.Proc.Daemon.{Process, daemon}
use quick_comm.Proc.Cycle.{master_process_cycle}
use quick_comm.Proc.Main.{
  Machine, first_settings, no_listening, enter_cycle, behind_daemon, choose_daemon, start_up,
  self_of,
}
use quick_comm.Public.Log.{QcLog}

abbrev pub IsSome {ℓ} : {A : Type ℓ} → Option A → Type ℓ
IsSome {A = A} o = (a : A) × (o ≡ some a)

bind-IsSome {ℓ κ} :
    {A : Type ℓ} {B : Type κ} (o : Option A) (f : A → Option B)
    → IsSome o
    → ((a : A) → o ≡ some a → IsSome (f a))
    → IsSome (o >>= f)
bind-IsSome none f (a, e) g = absurd (cc e)
bind-IsSome (some a) f h g = g a refl

-- Each content starts with a number that atoi() can return.
abbrev pub AreInts : List Item → Type 0
AreInts items = All (λ (it : Item). IsSome (atoi it.content)) items

int-IsSome :
    (name : List ℕ) (def : ℤ) (items : List Item)
    → AreInts items
    → IsSome (get_int_default name def items)
unfolding get_int_default
int-IsSome name def [] a = (def, refl)
int-IsSome name def (it ∷ items) (i, a) =
    if_cases IsSome (same_name it.name name) _ _ (λ _. i) (λ _. int-IsSome name def items a)

-- A number of type int
abbrev Small : Option ℤ → Type 0
Small o = (n : ℤ) → o ≡ some n → pos_part n < 2 ^ 31

below-Small : (n : ℕ) → Small (if ltb n (2 ^ 31) then some (pos n) else none)
below-Small n =
    if_cases Small (ltb n (2 ^ 31)) _ _
      (λ h m e. let own : pos n ≡ m = cc e in omega (arith, ltb→lt n _ h, ap pos_part own))
      (λ _ m e. absurd (cc e))

minus-Small : (n : ℕ) → Small (if leb n (2 ^ 31) then some (pos 0 -ℤ pos n) else none)
unfolding ◌-ℤ◌
minus-Small n =
    if_cases Small (leb n (2 ^ 31)) _ _
      (λ h m e. let own : pos 0 -ℤ pos n ≡ m = cc e in ground (arith, ap pos_part own))
      (λ _ m e. absurd (cc e))

atoi-Small : (s : List ℕ) → Small (atoi s)
unfolding atoi
atoi-Small [] = λ n e. let own : pos 0 ≡ n = cc e in omega (arith, ap pos_part own)
atoi-Small (c ∷ s) =
    if_cases Small (is_space c) _ _ (λ _. atoi-Small s)
      (λ _.
        if_cases Small (c == b'-') _ _ (λ _. minus-Small (digits_value 0 s))
          (λ _. below-Small (if c == b'+' then digits_value 0 s else digits_value 0 (c ∷ s))))

int-Small :
    (name : List ℕ) (def : ℤ) (items : List Item)
    → pos_part def < 2 ^ 31
    → Small (get_int_default name def items)
unfolding get_int_default
int-Small name def [] h = λ n e. let own : def ≡ n = cc e in omega (arith, h, ap pos_part own)
int-Small name def (it ∷ items) h =
    if_cases Small (same_name it.name name) _ _ (λ _. atoi-Small it.content)
      (λ _. int-Small name def items h)

-- The settings, and the bound on the number of ports
read_conf-IsSome :
    (items : List Item) (old : Settings)
    → AreInts items
    → pos_part old.listen_port_count < 2 ^ 31
    → (y : Settings) × (read_conf items old ≡ some y) × (pos_part y.listen_port_count < 2 ^ 31)
unfolding read_conf
read_conf-IsSome items old a h =
    let (v0, e0) = int-IsSome (codes "worker_connections") old.worker_connections items a in
    let (v1, e1) = int-IsSome (codes "ListenPortCount") old.listen_port_count items a in
    let (v2, e2) = int-IsSome (codes "Sock_RecyConnectionWaitTime") old.recy_wait items a in
    let (v3, e3) = int-IsSome (codes "Sock_WaitTimeEnable") (pos 0) items a in
    let (v4, e4) = int-IsSome (codes "Sock_MaxWaitTime") old.wait_time items a in
    let (v5, e5) = int-IsSome (codes "Sock_TimeOutKick") (pos 0) items a in
    let (v6, e6) = int-IsSome (codes "Sock_FloodAttackKickEnable") (pos 0) items a in
    let (v7, e7) = int-IsSome (codes "Sock_FloodTimeInterval") (pos 100) items a in
    let (v8, e8) = int-IsSome (codes "Sock_FloodKickCounter") (pos 10) items a in
    let y : Settings = record {
      worker_connections = v0;
      listen_port_count = v1;
      recy_wait = v2;
      kick_time_count = v3;
      wait_time = if ltb_ℤ (pos 5) v4 then v4 else pos 5;
      time_out_kick = v5;
      flood_enable = v6;
      flood_interval = v7;
      flood_kick_count = v8;
    } in
    (
      y,
      simp (e0, e1, e2, e3, e4, e5, e6, e7, e8) refl,
      int-Small (codes "ListenPortCount") old.listen_port_count items h v1 e1,
    )

open_socket-IsSome :
    (socket : Option ℕ) (port : ℤ) (w : Attempt) (s : Sockets)
    → IsSome (open_socket socket (some port) w s)
unfolding open_socket open_fd bind_fd
open_socket-IsSome none port w s = (_, refl)
open_socket-IsSome (some fd) port w s =
    if_cases IsSome (not w.reuseaddr) _ _ (λ _. (_, refl))
      (λ _.
        if_cases IsSome (not w.nonblocking) _ _ (λ _. (_, refl))
          (λ _.
            if_cases IsSome (not w.bound) _ _ (λ _. (_, refl))
              (λ _. if_cases IsSome (not w.listens) _ _ (λ _. (_, refl)) (λ _. (_, refl)))))

port-IsSome : (items : List Item) (i : ℕ) → AreInts items → i < 2 ^ 64 → IsSome (port_of items i)
unfolding port_of
port-IsSome items i a h =
    let (ds, e, spells) = temp_digits-Spells i 0 h in
    let (n, f) = int-IsSome (codes "ListenPort" ++ ds) (pos 10000) items a in (n, simp e f)

open_loop-IsSome :
    (left i : ℕ) (answers : ℕ → Attempt) (items : List Item) (s : Sockets)
    → AreInts items
    → i + left ≤ 2 ^ 64
    → IsSome (open_loop left i answers items s)
unfolding open_loop
open_loop-IsSome zero i answers items s a h = (_, refl)
open_loop-IsSome (suc left) i answers items s a h =
    let (port, e) = port-IsSome items i a (omega (arith, h)) in
    let (r, f) = open_socket-IsSome (answers i).socket port (answers i) s in
    let found : open_socket (answers i).socket (port_of items i) (answers i) s ≡ some r =
      ap (λ o. open_socket (answers i).socket o (answers i) s) e ∙ f in
    bind-IsSome (open_socket (answers i).socket (port_of items i) (answers i) s) _ (r, found)
      (λ q _.
        if_cases IsSome q.0 _ _
          (λ _. open_loop-IsSome left (suc i) answers items q.1 a (omega (arith, h)))
          (λ _. (_, refl)))

initialize-IsSome :
    (items : List Item) (answers : ℕ → Attempt)
    → AreInts items
    → IsSome (initialize items answers first_settings no_listening)
unfolding initialize open_listening_sockets
initialize-IsSome items answers a =
    let (y, e, small) = read_conf-IsSome items first_settings a (omega arith) in
    bind-IsSome (read_conf items first_settings) _ (y, e)
      (λ read e'.
        let same : y ≡ read = cc (e, e') in
        bind-IsSome (open_listening_sockets read.listen_port_count answers items no_listening) _
          (bind-IsSome (open_loop (pos_part read.listen_port_count) 0 answers items no_listening) _
            (open_loop-IsSome (pos_part read.listen_port_count) 0 answers items no_listening a
              (omega (arith, small, ap (λ z. pos_part z.listen_port_count) same)))
            (λ r _. (_, refl)))
          (λ r _. (_, refl)))

module _ (m : Machine) (items : List Item) (a : AreInts items) (log : QcLog) where
  cycle-IsSome :
      (y : Settings) (socks : Sockets) (p : Process) → IsSome (enter_cycle m items log y socks p)
  unfolding enter_cycle master_process_cycle
  cycle-IsSome y socks p =
      bind-IsSome (master_process_cycle m.blocks items m.forks (self_of p)) _
        (bind-IsSome (get_int_default (codes "WorkerProcesses") (pos 1) items) _
          (int-IsSome (codes "WorkerProcesses") (pos 1) items a) (λ n _. (_, refl)))
        (λ started _. (_, refl))

  behind-IsSome :
      (y : Settings) (socks : Sockets) (r : ℤ × Process)
      → IsSome (behind_daemon m items log y socks r)
  unfolding behind_daemon
  behind-IsSome y socks (negsuc n, p) =
      if_cases IsSome (n == 0) _ _ (λ _. (_, refl)) (λ _. cycle-IsSome y socks p)
  behind-IsSome y socks (pos n, p) =
      if_cases IsSome (n == 1) _ _ (λ _. (_, refl)) (λ _. cycle-IsSome y socks p)

  choose-IsSome : (y : Settings) (socks : Sockets) → IsSome (choose_daemon m items log y socks)
  unfolding choose_daemon
  choose-IsSome y socks =
      bind-IsSome (get_int_default (codes "Daemon") (pos 0) items) _
        (int-IsSome (codes "Daemon") (pos 0) items a)
        (λ mode _.
          if_cases IsSome (is_one mode) _ _
            (λ _. behind-IsSome y socks (daemon m.daemon_fork m.daemon_answers m.process))
            (λ _. cycle-IsSome y socks m.process))

  pub start_up-IsSome : IsSome (start_up m items log)
  unfolding start_up
  start_up-IsSome =
      if_cases IsSome (not (init_signals m.sigactions (λ _. default_action)).0) _ _ (λ _. (_, refl))
        (λ _.
          bind-IsSome (initialize items m.sockets first_settings no_listening) _
            (initialize-IsSome items m.sockets a)
            (λ r _. if_cases IsSome (not r.0) _ _ (λ _. (_, refl)) (λ _. choose-IsSome r.1 r.2)))
