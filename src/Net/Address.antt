-- ===== src/Net/Address.antt =====
-- net/qc_socket_inet.cc: the text of a socket address.
pub mod Dotted
pub mod Numbers
mod Tests
use quick_comm.Base.{
  ℕ, ◌+◌, ◌*◌, Bool, true, false, List, [], ◌∷◌, ◌++◌, Option, some, ◌==◌, if◌then◌else◌, codes,
  length, ◌>>=◌,
}
use quick_comm.Public.Format.{ByteList, Doubles, Arg, word32, snprintf}

abbrev pub af_inet : ℕ
af_inet = 2

-- A sockaddr, read as a sockaddr_in if its family is AF_INET: the bytes of sin_addr, and the two
-- bytes of sin_port, the higher one first.
pub record SockAddr : Type 0 where
  pub family : ℕ
  pub addr : ℕ → ℕ
  pub port_high : ℕ
  pub port_low : ℕ

-- ntohs(sin->sin_port)
abbrev pub port_number : SockAddr → ℕ
port_number sa = sa.port_high * 256 + sa.port_low

module _ {F : Type 0} where
  -- p[0], p[1], p[2], p[3]
  abbrev pub addr_args : SockAddr → List (Arg F)
  addr_args sa =
      word32 (sa.addr 0) ∷ word32 (sa.addr 1) ∷ word32 (sa.addr 2) ∷ word32 (sa.addr 3) ∷ []

module _ {F : Type 0} (doubles : Doubles F) where
  -- The call of qc_snprintf
  abbrev pub inet_text : SockAddr → Bool → ℕ → Option ByteList
  inet_text sa port len =
      if port
      then snprintf doubles len (codes "%ud.%ud.%ud.%ud:%d")
          (addr_args sa ++ (word32 (port_number sa) ∷ []))
      else snprintf doubles len (codes "%ud.%ud.%ud.%ud") (addr_args sa)

  -- CSocket::qc_sock_ntop: what it returns, and the bytes that it writes from text on
  unfoldable pub sock_ntop : SockAddr → Bool → ℕ → Option (ℕ × ByteList)
  sock_ntop sa port len =
      if sa.family == af_inet
      then (inet_text sa port len >>= λ text. some (length text, text))
      else some (0, [])
