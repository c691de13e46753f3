-- ===== src/Service.antt =====
-- service/qc_slogic.cc and include/qc_logiccomm.h: what a received packet does, and the check of
-- clients that do not ping. The mutex of a connection and the log are left out; the time is an
-- argument, and so is what new memory holds.
pub mod Reply
pub mod Dispatch
pub mod Ping
pub mod Monitor
pub mod Worker
mod Tests
use quick_comm.Base.{
  ℕ, ◌+◌, ◌-◌, ◌*◌, ◌/◌, ◌%◌, ◌^◌, Bool, true, false, not, ◌||◌, List, [], ◌∷◌, ◌++◌, Option, none,
  some, ltb, leb, ◌==◌, if◌then◌else◌, length, get_or, take, drop,
}
use quick_comm.Misc.Crc.{get_crc}
use quick_comm.Net.Recv.{Msg, declared, header_len}
use quick_comm.Net.Server.{Server, conn_at, with_conn, msg_send, zd_close_socket_proc}

-- htons and htonl: the bytes of a number in network order
abbrev pub be16 : ℕ → List ℕ
be16 n = n / 256 % 256 ∷ n % 256 ∷ []

abbrev pub be32 : ℕ → List ℕ
be32 n = n / 2 ^ 24 % 256 ∷ n / 2 ^ 16 % 256 ∷ n / 2 ^ 8 % 256 ∷ n % 256 ∷ []

-- ntohs(pPkgHeader->msgCode) and ntohl(pPkgHeader->crc32)
abbrev pub msg_code : List ℕ → ℕ
msg_code packet = get_or packet 2 0 * 256 + get_or packet 3 0

abbrev pub crc32 : List ℕ → ℕ
crc32 packet =
    get_or packet 4 0 * 2 ^ 24
    + get_or packet 5 0 * 2 ^ 16
    + get_or packet 6 0 * 2 ^ 8
    + get_or packet 7 0

-- The body of a packet: pkglen - m_iLenPkgHeader bytes behind the header
abbrev pub body_of : List ℕ → List ℕ
body_of packet = take (declared packet - header_len) (drop header_len packet)

-- COMM_PKG_HEADER and a body
abbrev pub packet_of : ℕ → ℕ → ℕ → List ℕ → List ℕ
packet_of len code crc body = be16 len ++ (be16 code ++ (be32 crc ++ body))

-- _CMD_PING, _CMD_REGISTER and _CMD_LOGIN
abbrev pub cmd_ping : ℕ
cmd_ping = 0

abbrev pub cmd_register : ℕ
cmd_register = 5

abbrev pub cmd_login : ℕ
cmd_login = 6

-- sizeof(STRUCT_REGISTER) and sizeof(STRUCT_LOGIN), packed
abbrev pub register_len : ℕ
register_len = 4 + 56 + 40

abbrev pub login_len : ℕ
login_len = 56 + 40

-- CLogicSocket::SendNoBodyPkgToClient
unfoldable pub send_no_body_pkg_to_client : ℕ → Msg → ℕ → Server → Server
send_no_body_pkg_to_client now m code s =
    msg_send now (record m { packet = packet_of header_len code 0 [] }) s

-- The answer of _HandleRegister and _HandleLogIn: `content` is the new memory behind the header,
-- which they fill with nothing.
abbrev pub answer : Msg → ℕ → ℕ → List ℕ → Msg
answer m code len content = record m {
  packet = packet_of (header_len + len) code (get_crc content) content;
}

-- CLogicSocket::_HandleRegister. What it writes into the received body is not read again.
unfoldable pub handle_register :
    (ℕ → List ℕ) → ℕ → Msg → Option (List ℕ) → ℕ → Server → Bool × Server
handle_register fresh now m none len s = (false, s)
handle_register fresh now m (some body) len s =
    if not (register_len == len)
    then (false, s)
    else (true, msg_send now (answer m cmd_register register_len (fresh register_len)) s)

-- CLogicSocket::_HandleLogIn
unfoldable pub handle_login : (ℕ → List ℕ) → ℕ → Msg → Option (List ℕ) → ℕ → Server → Bool × Server
handle_login fresh now m none len s = (false, s)
handle_login fresh now m (some body) len s =
    if not (login_len == len)
    then (false, s)
    else (true, msg_send now (answer m cmd_login login_len (fresh login_len)) s)

-- CLogicSocket::_HandlePing
unfoldable pub handle_ping : ℕ → Msg → ℕ → Server → Bool × Server
unfolding send_no_body_pkg_to_client
handle_ping now m len s = if not (len == 0) then (false, s) else (
  true,
  send_no_body_pkg_to_client now m cmd_ping
      (with_conn m.conn (λ c. record c { last_ping_time = now }) s),
)

pub data Command : Type 0 where
  ping register log_in : Command

-- statusHandler
pub status_handler : List (Option Command)
status_handler = some ping ∷ none ∷ none ∷ none ∷ none ∷ some register ∷ some log_in ∷ []

run : (ℕ → List ℕ) → ℕ → Command → Msg → Option (List ℕ) → ℕ → Server → Bool × Server
unfolding handle_ping handle_register handle_login
run fresh now ping m body len s = handle_ping now m len s
run fresh now register m body len s = handle_register fresh now m body len s
run fresh now log_in m body len s = handle_login fresh now m body len s

-- The checks of threadRecvProcFunc on the checksum: the body, if the packet is kept.
unfoldable pub checked : List ℕ → Option (Option (List ℕ))
checked packet =
    if header_len == declared packet
    then if not (crc32 packet == 0) then none else some none
    else if get_crc (body_of packet) == crc32 packet
    then some (some (body_of packet))
    else none

-- The rest of threadRecvProcFunc, from the message code on.
dispatch : (ℕ → List ℕ) → ℕ → Msg → Option (List ℕ) → Server → Server
unfolding run status_handler
dispatch fresh now m body s =
    let code = msg_code m.packet in
    if not ((conn_at m.conn s).seq == m.seq)
    then s
    else if leb (length status_handler) code
    then s
    else elim (get_or status_handler code none) [
      | none ↦ s
      | some command ↦ (run fresh now command m body (declared m.packet - header_len) s).1
    ]

-- CLogicSocket::threadRecvProcFunc
unfoldable pub thread_recv_proc_func : (ℕ → List ℕ) → ℕ → Msg → Server → Server
unfolding checked dispatch
thread_recv_proc_func fresh now m s = elim (checked m.packet) [
  | none ↦ s
  | some body ↦ dispatch fresh now m body s
]

-- CLogicSocket::procPingTimeOutChecking, for the entry of the timer queue with this connection and
-- number.
unfoldable pub proc_ping_time_out_checking : ℕ → ℕ → ℕ → Server → Server
proc_ping_time_out_checking cur a seq s =
    if seq == (conn_at a s).seq
    then if s.conf.timeout_kick
      then zd_close_socket_proc cur a s
      else if ltb ((conn_at a s).last_ping_time + (s.conf.wait_time * 3 + 10)) cur
      then zd_close_socket_proc cur a s
      else s
    else s
