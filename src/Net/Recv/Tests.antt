-- ===== src/Net/Recv/Tests.antt =====
-- Runs of the read handler of net/qc_socket_request.cc.
use quick_comm.Base.{
  ℕ, ◌≡◌, refl, false, List, [], ◌∷◌, All, length, replicate, length-replicate, arith,
}
use quick_comm.Base.Int.{pos}
use quick_comm.Net.Flood.{FloodConf, Flood}
use quick_comm.Net.Recv.{
  store_bytes, packet_done, check_and_finish, header_done, received, read_bytes, new_recv,
}
use quick_comm.Net.Recv.Frames.{feed}
use quick_comm.Net.Recv.Refine.{Refines, pending}
use quick_comm.Net.Recv.Step.{at, read-Refines}
use quick_comm.Net.Recv.Stream.{
  WellFormed, Reads, bytes_of, read_all, read_all_frames, read_all_packets,
}

abbrev no_flood_test : FloodConf
no_flood_test = record { enabled = false; interval = 100; kick_count = pos 10 }

abbrev zeros : ℕ → List ℕ
zeros n = replicate n 0

abbrev calm : Flood
calm = record { last = 0; count = 0 }

-- A packet of ten bytes, a heartbeat of eight, and reads that split the first and join the rest.
abbrev packets : List (List ℕ)
packets = (0 ∷ 10 ∷ 0 ∷ 5 ∷ 1 ∷ 2 ∷ 3 ∷ 4 ∷ 9 ∷ 8 ∷ []) ∷ (0 ∷ 8 ∷ 0 ∷ 0 ∷ 0 ∷ 0 ∷ 0 ∷ 0 ∷ []) ∷ []

abbrev reads : List (ℕ × List ℕ)
reads =
    (0, 0 ∷ [])
    ∷ (1, 10 ∷ 0 ∷ 5 ∷ 1 ∷ 2 ∷ 3 ∷ 4 ∷ [])
    ∷ (2, 9 ∷ [])
    ∷ (3, 8 ∷ [])
    ∷ (4, 0 ∷ 8 ∷ 0 ∷ 0 ∷ 0 ∷ 0 ∷ 0 ∷ 0 ∷ [])
    ∷ []

zeros_fit : (n : ℕ) → length (zeros n) ≡ n
zeros_fit n = length-replicate n 0

packets-WellFormed : All WellFormed packets
packets-WellFormed = (
  record { sized = refl; has_header = omega arith; fits = omega arith },
  (record { sized = refl; has_header = omega arith; fits = omega arith }, tt),
)

reads_fit : Reads no_flood_test zeros 7 1 new_recv calm reads
unfolding new_recv read_bytes received header_done check_and_finish packet_done store_bytes
reads_fit = (
  omega arith,
  omega arith,
  (
    omega arith,
    omega arith,
    (omega arith, omega arith, (omega arith, omega arith, (omega arith, omega arith, tt))),
  ),
)

read_all_packets_example : read_all no_flood_test zeros 7 1 new_recv calm reads ≡ packets
read_all_packets_example =
    read_all_packets no_flood_test zeros 7 1 refl zeros_fit calm packets reads packets-WellFormed
      reads_fit refl

read_all_frames_example :
    read_all no_flood_test zeros 7 1 new_recv calm reads
    ≡ (feed (at [] []) (bytes_of reads)).packets
read_all_frames_example =
    read_all_frames no_flood_test zeros 7 1 refl zeros_fit calm reads reads_fit

read-Refines_example :
    Refines 7 1 []
      (feed (at [] (pending new_recv)) (0 ∷ 10 ∷ 0 ∷ []))
      (read_bytes no_flood_test zeros 0 7 1 new_recv calm (0 ∷ 10 ∷ 0 ∷ []))
unfolding new_recv
read-Refines_example =
    read-Refines no_flood_test zeros 0 7 1 [] zeros_fit new_recv calm (0 ∷ 10 ∷ 0 ∷ [])
      (refl, (refl, refl, omega arith, refl)) (omega arith) (omega arith)
