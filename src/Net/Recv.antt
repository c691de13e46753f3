-- ===== src/Net/Recv.antt =====
-- net/qc_socket_request.cc: the receive state machine of a connection, which cuts the byte stream
-- into packets. `curStat`, `dataHeadInfo`, `precvbuf`, `irecvlen` and `precvMemPointer` of
-- include/qc_socket.h are the record `Recv`; the package states are those of include/qc_comm.h.
pub mod Frames
pub mod Buffers
pub mod Header
pub mod Refine
pub mod Step
pub mod Stream
mod Tests
use quick_comm.Base.{
  ℕ, ◌+◌, ◌-◌, ◌*◌, Bool, false, List, ◌++◌, Option, none, some, ltb, ◌==◌, if◌then◌else◌, length,
  take, drop, get_or, replicate,
}
use quick_comm.Net.Flood.{FloodConf, Flood, test_flood}

-- m_iLenPkgHeader = sizeof(COMM_PKG_HEADER), packed: 2 + 2 + 4 bytes
abbrev pub header_len : ℕ
header_len = 8

-- _PKG_MAX_LENGTH - 1000
abbrev pub max_len : ℕ
max_len = 30000 - 1000

-- _PKG_HD_INIT, _PKG_HD_RECVING, _PKG_BD_INIT, _PKG_BD_RECVING
pub data Stat : Type 0 where
  hd_init hd_recving bd_init bd_recving : Stat

-- What precvbuf points into: dataHeadInfo, or the packet in the memory at precvMemPointer.
pub data Place : Type 0 where
  in_head in_body : Place

-- A received packet with its message header (STRUC_MSG_HEADER): the connection, and the sequence
-- number that it had when the packet's header was complete.
pub record Msg : Type 0 where
  pub conn : ℕ
  pub seq : ℕ
  pub packet : List ℕ

-- `off` is the distance of precvbuf from the start of its array.
pub record Recv : Type 0 where
  pub stat : Stat
  pub head : List ℕ
  pub place : Place
  pub off : ℕ
  pub len : ℕ
  pub body : Option Msg

-- What a call of the read handler does with a packet: nothing yet, hand it to the thread pool
-- (a null pointer if there is none), or free it because its sender floods.
pub data Outcome : Type 0 where
  more : Outcome
  queued : Option Msg → Outcome
  flooded : Outcome

-- ntohs(pPkgHeader->pkgLen): the first two bytes, the high one first
abbrev pub declared : List ℕ → ℕ
declared packet = get_or packet 0 0 * 256 + get_or packet 1 0

abbrev pub write_at : ℕ → List ℕ → List ℕ → List ℕ
write_at off bytes buffer = take off buffer ++ (bytes ++ drop (off + length bytes) buffer)

-- A connection that waits for a header: the receive fields as GetOneToUse and the code below set
-- them, with the bytes in dataHeadInfo left as they are.
abbrev pub await_header : Recv → Recv
await_header r = record r { stat = Stat.hd_init; place = in_head; off = 0; len = header_len }

-- recv() stores the bytes at precvbuf.
unfoldable pub store_bytes : Recv → List ℕ → Recv
store_bytes r bytes = elim r.place [
  | in_head ↦ record r { head = write_at r.off bytes r.head }
  | in_body ↦ record r {
    body = elim r.body [
      | none ↦ none
      | some m ↦ some (record m { packet = write_at r.off bytes m.packet })
    ];
  }
]

-- precvbuf += reco; irecvlen -= reco
abbrev pub advance : Stat → Recv → ℕ → Recv
advance stat r n = record r { stat = stat; off = r.off + n; len = r.len - n }

-- CSocket::qc_wait_request_handler_proc_plast
unfoldable pub packet_done : Recv → Bool → Recv × Outcome
packet_done r isflood =
    (await_header (record r { body = none }), if isflood then flooded else queued r.body)

-- `fresh n` is what the last n bytes of newly allocated memory hold.
module _ (conf : FloodConf) (fresh : ℕ → List ℕ) where
  -- `if (m_floodAkEnable == 1) isflood = TestFlood(pConn);` and then proc_plast
  unfoldable pub check_and_finish : ℕ → Recv → Flood → Recv × Flood × Outcome
  unfolding packet_done
  check_and_finish now r f =
      if conf.enabled
      then (let (f', isflood) = test_flood conf now f in
          let (r', out) = packet_done r isflood in (r', f', out))
      else (let (r', out) = packet_done r false in (r', f, out))

  -- CSocket::qc_wait_request_handler_proc_p1, for connection `conn` with sequence number `seq`
  unfoldable pub header_done : ℕ → ℕ → ℕ → Recv → Flood → Recv × Flood × Outcome
  unfolding check_and_finish
  header_done now conn seq r f =
      let len = declared r.head in
      let header = take header_len r.head in
      let message : Msg = record {
        conn = conn;
        seq = seq;
        packet = write_at 0 header (fresh len);
      } in
      let allocated = record r { body = some message } in
      if ltb len header_len
      then (await_header r, f, more)
      else if ltb max_len len
      then (await_header r, f, more)
      else if len == header_len
      then check_and_finish now allocated f
      else (
        record allocated {
          stat = Stat.bd_init;
          place = in_body;
          off = header_len;
          len = len - header_len;
        },
        f,
        more,
      )

  -- The part of CSocket::qc_read_request_handler after recvproc, with `reco` bytes stored.
  unfoldable pub received : Stat → ℕ → ℕ → ℕ → Recv → Flood → ℕ → Recv × Flood × Outcome
  unfolding header_done check_and_finish
  received Stat.hd_init now conn seq r f reco =
      if reco == header_len
      then header_done now conn seq r f
      else (advance Stat.hd_recving r reco, f, more)
  received Stat.hd_recving now conn seq r f reco =
      if r.len == reco
      then header_done now conn seq r f
      else (advance Stat.hd_recving r reco, f, more)
  received Stat.bd_init now conn seq r f reco =
      if reco == r.len then check_and_finish now r f else (advance Stat.bd_recving r reco, f, more)
  received Stat.bd_recving now conn seq r f reco =
      if r.len == reco then check_and_finish now r f else (advance Stat.bd_recving r reco, f, more)

  -- CSocket::qc_read_request_handler on the bytes that recv() returned.
  unfoldable pub read_bytes : ℕ → ℕ → ℕ → Recv → Flood → List ℕ → Recv × Flood × Outcome
  unfolding received store_bytes
  read_bytes now conn seq r f bytes =
      received r.stat now conn seq (store_bytes r bytes) f (length bytes)

-- The receive fields that GetOneToUse sets; dataHeadInfo is an array of _DATA_BUFSIZE_ bytes.
pub new_recv : Recv
new_recv = record {
  stat = Stat.hd_init;
  head = replicate 20 0;
  place = in_head;
  off = 0;
  len = header_len;
  body = none;
}
