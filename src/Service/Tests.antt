-- ===== src/Service/Tests.antt =====
-- Runs of the message handlers of service/qc_slogic.cc.
use quick_comm.Base.{ℕ, ◌+◌, ◌≡◌, refl, List, [], ◌∷◌, none, some, replicate, length, arith}
use quick_comm.Misc.Crc.{get_crc}
use quick_comm.Net.Recv.{header_len}
use quick_comm.Net.Server.{zd_close_socket_proc}
use quick_comm.Net.Server.Sample.{message, server, none_waiting}
use quick_comm.Service.{packet_of, thread_recv_proc_func, handle_ping, proc_ping_time_out_checking}
use quick_comm.Service.Reply.{IsAccepted, packet_of-IsAccepted, no_body-IsAccepted}
use quick_comm.Service.Dispatch.{closed-ignored, corrupt-ignored}
use quick_comm.Service.Ping.{ping-not_kicked}

abbrev zeros : ℕ → List ℕ
zeros n = replicate n 0

abbrev three_bytes : List ℕ
three_bytes = 1 ∷ 2 ∷ 3 ∷ []

packet_of-IsAccepted_example :
    IsAccepted
      (packet_of (header_len + length three_bytes) 5 (get_crc three_bytes) three_bytes)
      5
      (some three_bytes)
packet_of-IsAccepted_example =
    packet_of-IsAccepted 5 three_bytes (omega arith) (omega arith) (omega arith)
      (omega arith, (omega arith, (omega arith, tt)))

no_body-IsAccepted_example : IsAccepted (packet_of header_len 0 0 []) 0 none
no_body-IsAccepted_example = no_body-IsAccepted 0 (omega arith)

closed-ignored_example :
    thread_recv_proc_func zeros 131 message (zd_close_socket_proc 130 0 server)
    ≡ zd_close_socket_proc 130 0 server
closed-ignored_example = closed-ignored zeros 130 131 0 message server none_waiting refl

corrupt-ignored_example :
    thread_recv_proc_func zeros 130
      (record {
        conn = 0;
        seq = 1;
        packet = packet_of 11 5 (get_crc (1 ∷ 2 ∷ 3 ∷ [])) (1 ∷ 9 ∷ 3 ∷ []);
      })
      server
    ≡ server
corrupt-ignored_example =
    corrupt-ignored zeros 130 0 1 5 2 9 (1 ∷ []) (3 ∷ []) server (omega arith) (omega arith, tt)
      (omega arith, tt) (omega arith) (omega arith) (omega arith)

ping-not_kicked_example :
    let s' = (handle_ping 130 message 0 server).1 in proc_ping_time_out_checking 190 0 1 s' ≡ s'
ping-not_kicked_example = ping-not_kicked 130 190 1 message server refl (omega arith)
