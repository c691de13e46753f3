-- ===== src/Net/Server/Tests.antt =====
-- Runs of the operations of a server.
use quick_comm.Base.{ℕ, ◌≡◌, refl, true, [], ◌∷◌, none, length, arith}
use quick_comm.Base.Int.{pos}
use quick_comm.Net.Server.{zd_close_socket_proc, epoll_oper_event}
use quick_comm.Net.Server.Read.{admit}
use quick_comm.Net.Server.Send.{
  SendCalls, took, bytes, would_block, after_send, write_done, send_pass,
}
use quick_comm.Net.Server.Send.Packet.{AnyGone, Fate, transmit, transmit-Fate}
use quick_comm.Net.Server.Send.Deliver.{transmit_delivers}
use quick_comm.Net.Server.Send.Serial.{Passed, send_pass-Passed}
use quick_comm.Net.Server.Close.{Closed, Unmoved, zd_close-Closed, zd_close_twice}
use quick_comm.Net.Server.Sample.{client_conn, message, server, server-IsValid, none_waiting}
use quick_comm.Net.Server.Handlers.{Admitted, admit-Admitted}

transmit-Fate_example :
    let (out, d) = transmit message (bytes 4) (would_block ∷ bytes 3 ∷ bytes 3 ∷ []) client_conn in
    Fate (AnyGone (bytes 4 ∷ would_block ∷ bytes 3 ∷ bytes 3 ∷ [])) message out d
unfolding after_send write_done epoll_oper_event
transmit-Fate_example =
    transmit-Fate message (bytes 4) (would_block ∷ bytes 3 ∷ bytes 3 ∷ []) client_conn refl refl
      (omega arith) (tt, (omega arith, (omega arith, tt)))

transmit_delivers_example :
    let rest =
      bytes 2
      ∷ bytes 1
      ∷ bytes 1
      ∷ bytes 1
      ∷ bytes 1
      ∷ bytes 1
      ∷ bytes 1
      ∷ bytes 1
      ∷ bytes 1
      ∷ [] in
    let (out, d) = transmit message (bytes 1) rest client_conn in
    (out ≡ message.packet) × (d.send_mem ≡ none)
unfolding after_send write_done epoll_oper_event
transmit_delivers_example =
    transmit_delivers message (bytes 1)
      (bytes 2 ∷ bytes 1 ∷ bytes 1 ∷ bytes 1 ∷ bytes 1 ∷ bytes 1 ∷ bytes 1 ∷ bytes 1 ∷ bytes 1 ∷ [])
      client_conn refl refl (omega arith) (omega arith) (omega arith)
      (
        omega arith,
        (
          omega arith,
          (
            omega arith,
            (
              omega arith,
              (omega arith, (omega arith, (omega arith, (omega arith, (omega arith, tt))))),
            ),
          ),
        ),
      )
      (tt, (tt, (tt, (tt, (tt, (tt, (tt, (tt, (tt, (tt, tt))))))))))

-- The socket takes four bytes of the first message.
abbrev calls : ℕ → SendCalls
calls i = took 4

send_pass-Passed_example :
    Passed calls 0 server (send_pass calls server)
    × ((send_pass calls server).send_queue_n ≡ pos (length (send_pass calls server).send_queue))
send_pass-Passed_example = send_pass-Passed 0 0 calls server refl refl

zd_close-Closed_example : Closed 0 server (zd_close_socket_proc 150 0 server)
zd_close-Closed_example = zd_close-Closed 150 0 server none_waiting

zd_close_twice_example :
    Unmoved 0
      (zd_close_socket_proc 150 0 server)
      (zd_close_socket_proc 160 0 (zd_close_socket_proc 150 0 server))
zd_close_twice_example = zd_close_twice 150 160 0 server

admit-Admitted_example : let (end, s') = admit 150 2 11 true true server in Admitted server end s'
admit-Admitted_example = admit-Admitted 150 2 11 true true server server-IsValid
