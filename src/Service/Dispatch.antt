-- ===== src/Service/Dispatch.antt =====
-- What threadRecvProcFunc does with a packet: only an intact packet of a socket that is still there
-- has an effect, and every effect keeps the server valid.
use quick_comm.Base.{
  All-append, ℕ, ◌+◌, ◌-◌, ◌^◌, ◌≤◌, ◌<◌, ◌≡◌, ◌≢◌, refl, sym, ap, ◌∙◌, true, false, inl, inr, List,
  [], ◌∷◌, ◌++◌, Option, none, some, leb, ◌==◌, ==_iff, length, length-append, get_or, All,
  Bool-cases, arith,
}
use quick_comm.Misc.Crc.{get_crc}
use quick_comm.Misc.Crc.Bitwise.{IsByte, get_crc-lt}
use quick_comm.Misc.Crc.Detect.{get_crc_detects}
use quick_comm.Net.Recv.{Msg, declared, header_len}
use quick_comm.Net.Pool.{contains}
use quick_comm.Net.Server.{Server, conn_at, with_conn, zd_close_socket_proc}
use quick_comm.Net.Server.Send.Queue.{is_for}
use quick_comm.Net.Server.Close.{IsValid, IsHeld, IsHeldOrOld, msg_send-IsValid, zd_close-Closed}
use quick_comm.Service.Reply.{other_crc-dropped}
use quick_comm.Service.{
  packet_of, msg_code, answer, send_no_body_pkg_to_client, handle_register, handle_login,
  handle_ping, Command, ping, register, log_in, run, status_handler, checked, dispatch,
  thread_recv_proc_func,
}

handle_ping-IsValid :
    (now : ℕ) (m : Msg) (len : ℕ) (s : Server)
    → IsValid s
    → IsHeld m.conn s
    → IsValid (handle_ping now m len s).1
unfolding handle_ping send_no_body_pkg_to_client
handle_ping-IsValid now m len s v h = elim (Bool-cases (len == 0)) [
  | inr long ↦ simp long v
  | inl bare ↦ simp bare (
      msg_send-IsValid now (record m { packet = packet_of header_len 0 0 [] })
        (with_conn m.conn (λ c. record c { last_ping_time = now }) s)
        (record {
          pool = record {
            frees = v.pool.frees;
            recys = v.pool.recys;
            totals = v.pool.totals;
            exclusive = v.pool.exclusive;
            known = v.pool.known;
          };
          timers = v.timers;
          sends = v.sends;
          receives = v.receives;
        })
        h)
]

run-IsValid :
    (fresh : ℕ → List ℕ) (now : ℕ) (command : Command) (m : Msg) (body : Option (List ℕ)) (len : ℕ)
    (s : Server)
    → IsValid s
    → IsHeld m.conn s
    → IsValid (run fresh now command m body len s).1
unfolding run handle_register handle_login
run-IsValid fresh now ping m body len s v h = handle_ping-IsValid now m len s v h
run-IsValid fresh now register m none len s v h = v
run-IsValid fresh now register m (some body) len s v h = elim (Bool-cases (100 == len)) [
  | inr other ↦ simp other v
  | inl fits ↦ simp fits (msg_send-IsValid now (answer m 5 100 (fresh 100)) s v h)
]
run-IsValid fresh now log_in m none len s v h = v
run-IsValid fresh now log_in m (some body) len s v h = elim (Bool-cases (96 == len)) [
  | inr other ↦ simp other v
  | inl fits ↦ simp fits (msg_send-IsValid now (answer m 6 96 (fresh 96)) s v h)
]

dispatch-IsValid :
    (fresh : ℕ → List ℕ) (now : ℕ) (m : Msg) (body : Option (List ℕ)) (s : Server)
    → IsValid s
    → IsHeldOrOld m.conn m.seq s
    → IsValid (dispatch fresh now m body s)
unfolding dispatch status_handler
dispatch-IsValid fresh now m body s v h = elim (Bool-cases ((conn_at m.conn s).seq == m.seq)) [
  | inr old ↦ simp old v
  | inl here ↦
      let held : IsHeld m.conn s = elim h [
        | inl k ↦ k
        | inr n ↦ absurd (n ((==_iff (conn_at m.conn s).seq m.seq).0 here))
      ] in
      elim (Bool-cases (leb (length status_handler) (msg_code m.packet))) [
        | inl beyond ↦ simp (here, beyond) v
        | inr known ↦
            simp (here, known) (picked held (get_or status_handler (msg_code m.packet) none))
      ]
]
  where
    picked :
        IsHeld m.conn s
        → (found : Option Command)
        → IsValid (elim found as (λ _. Server) [
          | none ↦ s
          | some command ↦ (run fresh now command m body (declared m.packet - header_len) s).1
        ])
    picked held none = v
    picked held (some command) =
        run-IsValid fresh now command m body (declared m.packet - header_len) s v held

-- Whatever bytes a packet has, threadRecvProcFunc keeps a valid server valid, where the connection of
-- the message is not free, or has another number than the message.
pub thread_recv-IsValid :
    (fresh : ℕ → List ℕ) (now : ℕ) (m : Msg) (s : Server)
    → IsValid s
    → IsHeldOrOld m.conn m.seq s
    → IsValid (thread_recv_proc_func fresh now m s)
unfolding thread_recv_proc_func
thread_recv-IsValid fresh now m s v h = go (checked m.packet)
  where
    go :
        (kept : Option (Option (List ℕ)))
        → IsValid
            (elim kept as (λ _. Server) [ none ↦ s | some body ↦ dispatch fresh now m body s ])
    go none = v
    go (some body) = dispatch-IsValid fresh now m body s v h

-- A packet that a socket sent before the server closed it, and its connection was not waiting to be
-- recycled, has no effect when a thread gets to it afterwards.
pub closed-ignored :
    (fresh : ℕ → List ℕ) (closed now a : ℕ) (m : Msg) (s : Server)
    → contains a s.pool.recy_list ≡ false
    → is_for a s m ≡ true
    → let s' = zd_close_socket_proc closed a s in thread_recv_proc_func fresh now m s' ≡ s'
unfolding thread_recv_proc_func dispatch
closed-ignored fresh closed now a m s new h = go (checked m.packet)
  where
    s' : Server
    s' = zd_close_socket_proc closed a s

    own : m.conn ≡ a
    own = (==_iff m.conn a).0 (ground (arith, h))

    gone : ((conn_at m.conn s').seq == m.seq) ≡ false
    gone =
        let e : (m.conn == a) ≡ true = (==_iff m.conn a).1 own in
        ap (λ b. (conn_at b s').seq == m.seq) own
        ∙ (simp e at ((zd_close-Closed closed a s new).stale m h))

    go :
        (kept : Option (Option (List ℕ)))
        → (elim kept as (λ _. Server) [ none ↦ s' | some body ↦ dispatch fresh now m body s' ]) ≡ s'
    go none = refl
    go (some body) = simp gone refl

-- A packet of bytes with a correct checksum and a length that fits 16 bits, of which one byte of the
-- body is changed on the way, has no effect.
pub corrupt-ignored :
    (fresh : ℕ → List ℕ) (now conn seq code x y : ℕ) (front back : List ℕ) (s : Server)
    → header_len + length (front ++ (y ∷ back)) < 2 ^ 16
    → All IsByte front
    → All IsByte back
    → IsByte x
    → IsByte y
    → x ≢ y
    → let len = header_len + length (front ++ (y ∷ back)) in
      let crc = get_crc (front ++ (x ∷ back)) in
      thread_recv_proc_func fresh now
        (record { conn = conn; seq = seq; packet = packet_of len code crc (front ++ (y ∷ back)) })
        s
      ≡ s
unfolding thread_recv_proc_func
corrupt-ignored fresh now conn seq code x y front back s k f b bx by n =
    let good = front ++ (x ∷ back) in
    let bad = front ++ (y ∷ back) in
    let m : Msg = record {
      conn = conn;
      seq = seq;
      packet = packet_of (header_len + length bad) code (get_crc good) bad;
    } in
    let differs : get_crc bad ≢ get_crc good =
      get_crc_detects front back y x f b by bx (λ e. n (sym e)) in
    let long : 1 ≤ length bad = omega (arith, length-append front (y ∷ back)) in
    ap
      (λ (kept : Option (Option (List ℕ))). elim kept as (λ _. Server) [
        | none ↦ s
        | some body ↦ dispatch fresh now m body s
      ])
      (other_crc-dropped code (get_crc good) bad long k
        (get_crc-lt good (All-append IsByte front (x ∷ back) f (bx, b))) differs)
