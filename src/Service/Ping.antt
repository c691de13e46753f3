-- ===== src/Service/Ping.antt =====
-- A client that pings in time is not closed by the timer.
use quick_comm.Base.{
  ℕ, ◌+◌, ◌*◌, ◌≤◌, ◌≡◌, refl, ap, ◌∙◌, true, false, inl, inr, [], ltb, ◌==◌, Bool-cases, arith,
}
use quick_comm.Base.Int.{pos, ltb_ℤ}
use quick_comm.Net.Recv.{Msg, header_len}
use quick_comm.Net.Pool.{contains, in_recy_connect_queue}
use quick_comm.Net.Server.{Server, conn_at, with_conn, shut, zd_close_socket_proc, msg_send}
use quick_comm.Net.Pool.Taken.{own_entry}
use quick_comm.Service.{
  packet_of, cmd_ping, send_no_body_pkg_to_client, handle_ping, proc_ping_time_out_checking,
}

-- Neither closing a connection nor queueing a message changes when it pinged last.
zd_close-last_ping :
    (now a : ℕ) (s : Server)
    → (conn_at a (zd_close_socket_proc now a s)).last_ping_time ≡ (conn_at a s).last_ping_time
unfolding zd_close_socket_proc in_recy_connect_queue shut
zd_close-last_ping now a s =
    let e : (a == a) ≡ true = ground arith in
    elim (Bool-cases (contains a s.pool.recy_list)) [
      | inl there ↦ simp (there, e) refl
      | inr new ↦ simp (new, e) refl
    ]

msg_send-last_ping :
    (now : ℕ) (m : Msg) (s : Server)
    → (conn_at m.conn (msg_send now m s)).last_ping_time ≡ (conn_at m.conn s).last_ping_time
unfolding msg_send
msg_send-last_ping now m s =
    let e : (m.conn == m.conn) ≡ true = ground arith in
    elim (Bool-cases (ltb_ℤ (pos 50000) s.send_queue_n)) [
      | inl crowded ↦ simp crowded refl
      | inr room ↦ elim (Bool-cases (ltb_ℤ (pos 400) (conn_at m.conn s).send_count)) [
        | inl deaf ↦
            simp (room, deaf)
              (zd_close-last_ping now m.conn (record s { discarded = s.discarded + 1 }))
        | inr fine ↦ simp (room, fine, e) refl
      ]
    ]

conf-msg_send : (now : ℕ) (m : Msg) (s : Server) → (msg_send now m s).conf ≡ s.conf
unfolding msg_send zd_close_socket_proc
conf-msg_send now m s = elim (Bool-cases (ltb_ℤ (pos 50000) s.send_queue_n)) [
  | inl crowded ↦ simp crowded refl
  | inr room ↦ elim (Bool-cases (ltb_ℤ (pos 400) (conn_at m.conn s).send_count)) [
    | inl deaf ↦ simp (room, deaf) refl
    | inr fine ↦ simp (room, fine) refl
  ]
]

-- After a heartbeat without a body at time `now`, a timer check up to three waits and ten seconds
-- later closes nothing, unless m_ifTimeOutKick asks for every client to be kicked.
pub ping-not_kicked :
    (now cur seq : ℕ) (m : Msg) (s : Server)
    → s.conf.timeout_kick ≡ false
    → cur ≤ now + (s.conf.wait_time * 3 + 10)
    → let s' = (handle_ping now m 0 s).1 in proc_ping_time_out_checking cur m.conn seq s' ≡ s'
unfolding handle_ping send_no_body_pkg_to_client proc_ping_time_out_checking
ping-not_kicked now cur seq m s k h = elim (Bool-cases (seq == (conn_at m.conn s').seq)) [
  | inr old ↦ simp old refl
  | inl here ↦
      let stays : s'.conf.timeout_kick ≡ false = ap (λ c. c.timeout_kick) same_conf ∙ k in
      let in_time : ltb ((conn_at m.conn s').last_ping_time + (s'.conf.wait_time * 3 + 10)) cur
          ≡ false =
        late (conn_at m.conn s').last_ping_time s'.conf.wait_time pinged_at
          (ap (λ c. c.wait_time) same_conf) in
      simp (here, stays, in_time) refl
]
  where
    pinged : Server
    pinged = with_conn m.conn (λ c. record c { last_ping_time = now }) s

    reply : Msg
    reply = record m { packet = packet_of header_len cmd_ping 0 [] }

    s' : Server
    s' = msg_send now reply pinged

    same_conf : s'.conf ≡ s.conf
    same_conf = conf-msg_send now reply pinged

    pinged_at : (conn_at m.conn s').last_ping_time ≡ now
    pinged_at =
        msg_send-last_ping now reply pinged
        ∙ ap (λ c. c.last_ping_time) (own_entry s.pool.conns m.conn _)

    late : (t w : ℕ) → t ≡ now → w ≡ s.conf.wait_time → ltb (t + (w * 3 + 10)) cur ≡ false
    late t w e f = ground (arith, e, f, h)
