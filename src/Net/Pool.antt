-- ===== src/Net/Pool.antt =====
-- net/qc_socket_conn.cc: connection objects, and the pool that lends them to sockets and takes
-- them back, at once or after a wait in the recycling queue. A connection's address is a number;
-- `conns` is what the addresses point at, and `next_addr` is the next address that new returns.
-- Each function that the source runs under a lock is one step; see `Net.Pool.Owners`.
pub mod Owners
pub mod Recycle
pub mod Start
pub mod Taken
mod Tests
use quick_comm.Base.{
  ℕ, zero, suc, ◌+◌, ◌%◌, ◌^◌, Bool, true, false, ◌&&◌, not, List, [], ◌∷◌, ◌++◌, Option, none,
  some, ltb, ◌==◌, if◌then◌else◌, length,
}
use quick_comm.Base.Int.{ℤ, pos, ◌+ℤ◌, ◌-ℤ◌, ltb_ℤ}
use quick_comm.Net.Flood.{Flood}
use quick_comm.Net.Recv.{Recv, Msg, await_header, new_recv}

-- The event handlers that rhandler and whandler point to
pub data Handler : Type 0 where
  event_accept read_request write_request : Handler

-- qc_connection_s. `fd` is none for -1; psendbuf is the distance into the packet of the message at
-- psendMemPointer. The client's address, which is only stored, is left out.
pub record Conn : Type 0 where
  pub fd : Option ℕ
  pub listening : Option ℕ
  pub seq : ℕ
  pub rhandler : Option Handler
  pub whandler : Option Handler
  pub events : ℕ
  pub recv : Recv
  pub throw_send_count : ℤ
  pub send_mem : Option Msg
  pub send_buf : ℕ
  pub send_len : ℕ
  pub in_recy_time : ℕ
  pub last_ping_time : ℕ
  pub flood : Flood
  pub send_count : ℤ

-- ++iCurrsequence, a uint64_t
abbrev pub next_seq : ℕ → ℕ
next_seq n = (n + 1) % 2 ^ 64

-- A zeroed allocation after the constructor
pub blank : Conn
blank = record {
  fd = some 0;
  listening = none;
  seq = 0;
  rhandler = none;
  whandler = none;
  events = 0;
  recv = new_recv;
  throw_send_count = pos 0;
  send_mem = none;
  send_buf = 0;
  send_len = 0;
  in_recy_time = 0;
  last_ping_time = 0;
  flood = record { last = 0; count = 0 };
  send_count = pos 0;
}

-- qc_connection_s::GetOneToUse
unfoldable pub get_one_to_use : ℕ → Conn → Conn
get_one_to_use now c = record c {
  fd = none;
  seq = next_seq c.seq;
  events = 0;
  recv = await_header (record (c.recv) { body = none });
  throw_send_count = pos 0;
  send_mem = none;
  last_ping_time = now;
  flood = record { last = 0; count = 0 };
  send_count = pos 0;
}

-- qc_connection_s::PutOneToFree; memory that is freed drops out of the model
unfoldable pub put_one_to_free : Conn → Conn
put_one_to_free c = record c {
  seq = next_seq c.seq;
  recv = record (c.recv) { body = none };
  throw_send_count = pos 0;
  send_mem = none;
}

pub record Pool : Type 0 where
  pub conns : ℕ → Conn
  pub conn_list : List ℕ
  pub free_list : List ℕ
  pub recy_list : List ℕ
  pub total_n : ℤ
  pub free_n : ℤ
  pub recy_n : ℤ
  pub online : ℤ
  pub next_addr : ℕ

abbrev pub update : (ℕ → Conn) → ℕ → Conn → ℕ → Conn
update f a c b = if b == a then c else f b

abbrev pub modify : ℕ → (Conn → Conn) → Pool → Pool
modify a g p = record p { conns = update p.conns a (g (p.conns a)) }

-- The fields of a new CSocket that the pool uses. The constructor leaves the counts of all and of
-- free connections unset; initconnection sets them.
unfoldable pub empty_pool : Pool
unfolding blank
empty_pool = record {
  conns = λ _. blank;
  conn_list = [];
  free_list = [];
  recy_list = [];
  total_n = pos 0;
  free_n = pos 0;
  recy_n = pos 0;
  online = pos 0;
  next_addr = 0;
}

-- The rounds of the loop in CSocket::initconnection that are left.
init_loop : ℕ → ℕ → Pool → Pool
init_loop zero now p = p
init_loop (suc n) now p = init_loop n now (record p {
  conns = update p.conns p.next_addr (get_one_to_use now blank);
  conn_list = p.conn_list ++ (p.next_addr ∷ []);
  free_list = p.free_list ++ (p.next_addr ∷ []);
  next_addr = p.next_addr + 1;
})

-- CSocket::initconnection
unfoldable pub init_connection : ℕ → ℕ → Pool → Pool
unfolding init_loop
init_connection worker_connections now p =
    let q = init_loop worker_connections now p in
    record q { total_n = pos (length q.conn_list); free_n = pos (length q.conn_list) }

abbrev pub with_fd : ℕ → Conn → Conn
with_fd isock c = record c { fd = some isock }

get_from : List ℕ → ℕ → ℕ → Pool → ℕ × Pool
get_from (a ∷ rest) now isock p = (
  a,
  record p {
    conns = update p.conns a (with_fd isock (get_one_to_use now (p.conns a)));
    free_list = rest;
    free_n = p.free_n -ℤ pos 1;
  },
)
get_from [] now isock p = (
  p.next_addr,
  record p {
    conns = update p.conns p.next_addr (with_fd isock (get_one_to_use now blank));
    conn_list = p.conn_list ++ (p.next_addr ∷ []);
    total_n = p.total_n +ℤ pos 1;
    next_addr = p.next_addr + 1;
  },
)

-- CSocket::qc_get_connection
unfoldable pub get_connection : ℕ → ℕ → Pool → ℕ × Pool
unfolding get_from
get_connection now isock p = get_from p.free_list now isock p

-- CSocket::qc_free_connection
unfoldable pub free_connection : ℕ → Pool → Pool
free_connection a p = record p {
  conns = update p.conns a (put_one_to_free (p.conns a));
  free_list = p.free_list ++ (a ∷ []);
  free_n = p.free_n +ℤ pos 1;
}

unfoldable pub contains : ℕ → List ℕ → Bool
contains a [] = false
contains a (b ∷ bs) = if b == a then true else contains a bs

-- CSocket::inRecyConnectQueue
unfoldable pub in_recy_connect_queue : ℕ → ℕ → Pool → Pool
unfolding contains
in_recy_connect_queue now a p = if contains a p.recy_list then p else record p {
  conns =
      update p.conns a (record (p.conns a) { in_recy_time = now; seq = next_seq (p.conns a).seq });
  recy_list = p.recy_list ++ (a ∷ []);
  recy_n = p.recy_n +ℤ pos 1;
  online = p.online -ℤ pos 1;
}

-- CSocket::qc_close_connection; what close() does to the descriptor is the system's
unfoldable pub close_connection : ℕ → Pool → Pool
close_connection a p = modify a (λ c. record c { fd = none }) (free_connection a p)

-- A connection stays in the recycling queue while its wait lasts and the server does not stop.
abbrev pub waits : ℕ → ℕ → Bool → Pool → ℕ → Bool
waits cur wait stop p a = ltb cur ((p.conns a).in_recy_time + wait) && not stop

-- The first connection that does not wait, and the queue without it.
first_ripe : (ℕ → Bool) → List ℕ → Option (ℕ × List ℕ)
first_ripe waiting [] = none
first_ripe waiting (a ∷ rest) =
    if waiting a
    then elim (first_ripe waiting rest) [ none ↦ none | some found ↦ some (found.0, a ∷ found.1) ]
    else some (a, rest)

-- --m_totol_recyconnection_n, erase(pos) and qc_free_connection(p_Conn)
abbrev pub release : ℕ → List ℕ → Pool → Pool
release a rest p = free_connection a (record p { recy_list = rest; recy_n = p.recy_n -ℤ pos 1 })

-- lblRRTD: release a ripe connection and start again, until none is left.
recycle_loop : ℕ → ℕ → ℕ → Bool → Pool → Pool
recycle_loop zero cur wait stop p = p
recycle_loop (suc fuel) cur wait stop p = elim (first_ripe (waits cur wait stop p) p.recy_list) [
  | none ↦ p
  | some found ↦ recycle_loop fuel cur wait stop (release found.0 found.1 p)
]

-- lblRRTD2: release the first connection and start again.
drain_loop : ℕ → Pool → Pool
drain_loop zero p = p
drain_loop (suc fuel) p = elim p.recy_list [
  | [] ↦ p
  | a ∷ rest ↦ drain_loop fuel (release a rest p)
]

-- The first half of a round of the thread, at time `cur`, with g_stopEvent read as `stop`. Each
-- restart takes a connection out of the queue, so its length bounds the restarts.
unfoldable pub recycle_ripe : ℕ → ℕ → Bool → Pool → Pool
unfolding recycle_loop first_ripe
recycle_ripe cur wait stop p =
    if ltb_ℤ (pos 0) p.recy_n then recycle_loop (length p.recy_list) cur wait stop p else p

-- One round of CSocket::ServerRecyConnectionThread.
unfoldable pub recycle_round : ℕ → ℕ → Bool → Pool → Pool
unfolding recycle_ripe drain_loop
recycle_round cur wait stop p =
    let q = recycle_ripe cur wait stop p in
    if stop && ltb_ℤ (pos 0) q.recy_n then drain_loop (length q.recy_list) q else q

-- CSocket::clearconnection
pub clear_connection : Pool → Pool
clear_connection p = record p { conn_list = [] }
