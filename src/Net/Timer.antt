-- ===== src/Net/Timer.antt =====
-- net/qc_socket_time.cc: the queue of heartbeat checks, a std::multimap from a time to a message
-- header, with its size m_cur_size_ and the earliest time m_timer_value_. Times are seconds.
pub mod Order
pub mod Due
mod Tests
use quick_comm.Base.{
  ℕ, zero, suc, ◌+◌, ◌-◌, Bool, true, false, ◌||◌, List, [], ◌∷◌, Option, none, some, ltb, leb,
  ◌==◌, if◌then◌else◌,
}

-- STRUC_MSG_HEADER: the connection, and its sequence number when the entry was made.
pub record Header : Type 0 where
  pub conn : ℕ
  pub seq : ℕ

pub record Timers : Type 0 where
  pub entries : List (ℕ × Header)
  pub size : ℕ
  pub value : ℕ

-- std::multimap::insert: behind the entries of the same or an earlier time.
unfoldable pub insert : ℕ → Header → List (ℕ × Header) → List (ℕ × Header)
insert t h [] = (t, h) ∷ []
insert t h ((u, g) ∷ es) = if ltb t u then (t, h) ∷ (u, g) ∷ es else (u, g) ∷ insert t h es

-- CSocket::GetEarliestTime; `old` where the map is empty, which its callers exclude
unfoldable pub earliest : List (ℕ × Header) → ℕ → ℕ
earliest [] old = old
earliest ((t, h) ∷ es) old = t

-- if (m_cur_size_ > 0) m_timer_value_ = GetEarliestTime();
unfoldable pub refresh : Timers → Timers
unfolding earliest
refresh q = if ltb 0 q.size then record q { value = earliest q.entries q.value } else q

-- CSocket::AddToTimerQueue, for a connection with sequence number `seq`
unfoldable pub add_to_timer_queue : ℕ → ℕ → ℕ → ℕ → Timers → Timers
unfolding earliest
add_to_timer_queue now wait conn seq q =
    let entries = insert (now + wait) (record { conn = conn; seq = seq }) q.entries in
    record { entries = entries; size = q.size + 1; value = earliest entries q.value }

remove_head : List (ℕ × Header) → Timers → Option Header × Timers
remove_head [] q = (none, q)
remove_head ((t, h) ∷ es) q = (some h, record q { entries = es; size = q.size - 1 })

-- CSocket::RemoveFirstTimer
unfoldable pub remove_first_timer : Timers → Option Header × Timers
unfolding remove_head
remove_first_timer q = if leb q.size 0 then (none, q) else remove_head q.entries q

is_empty : List (ℕ × Header) → Bool
is_empty [] = true
is_empty (e ∷ es) = false

-- The node goes back at cur_time + m_iWaitTime unless the server kicks on timeout.
unfoldable pub put_back : ℕ → ℕ → Bool → Option Header → Timers → Timers
put_back cur wait kick none q = q
put_back cur wait kick (some h) q =
    if kick then q else record q { entries = insert (cur + wait) h q.entries; size = q.size + 1 }

-- CSocket::GetOverTimeTimer; `kick` is m_ifTimeOutKick == 1
unfoldable pub get_over_time_timer : ℕ → ℕ → Bool → Timers → Option Header × Timers
unfolding is_empty earliest remove_first_timer put_back refresh
get_over_time_timer cur wait kick q =
    if q.size == 0 || is_empty q.entries
    then (none, q)
    else if leb (earliest q.entries 0) cur
    then (let (result, rest) = remove_first_timer q in
        (result, refresh (put_back cur wait kick result rest)))
    else (none, q)

unfoldable pub collected : Header → Option (List Header × Timers) → Option (List Header × Timers)
collected h none = none
collected h (some (hs, q)) = some (h ∷ hs, q)

-- while ((result = GetOverTimeTimer(cur_time)) != nullptr) m_lsIdleList.push_back(result);
-- `none` if the fuel runs out.
unfoldable pub over_time_loop : ℕ → ℕ → ℕ → Bool → Timers → Option (List Header × Timers)
unfolding collected
over_time_loop zero cur wait kick q = none
over_time_loop (suc fuel) cur wait kick q =
    let (result, q') = get_over_time_timer cur wait kick q in
    elim result [
      | none ↦ some ([], q')
      | some h ↦ collected h (over_time_loop fuel cur wait kick q')
    ]

-- The first entry of the connection, erased; `none` if there is none.
unfoldable pub erase_first : ℕ → List (ℕ × Header) → Option (List (ℕ × Header))
erase_first conn [] = none
erase_first conn ((t, h) ∷ es) =
    if h.conn == conn
    then some es
    else elim (erase_first conn es) [ none ↦ none | some rest ↦ some ((t, h) ∷ rest) ]

-- lblMTQM: erase an entry of the connection and start again, until none is left.
unfoldable pub delete_loop : ℕ → ℕ → Timers → Timers
delete_loop zero conn q = q
delete_loop (suc fuel) conn q = elim (erase_first conn q.entries) [
  | none ↦ q
  | some es ↦ delete_loop fuel conn (record q { entries = es; size = q.size - 1 })
]

-- CSocket::DeleteFromTimerQueue. Each restart erases an entry, so m_cur_size_ rounds are enough.
unfoldable pub delete_from_timer_queue : ℕ → Timers → Timers
unfolding delete_loop refresh
delete_from_timer_queue conn q = refresh (delete_loop q.size conn q)

drop_sizes : List (ℕ × Header) → ℕ → ℕ
drop_sizes [] n = n
drop_sizes (e ∷ es) n = drop_sizes es (n - 1)

-- CSocket::clearAllFromTimerQueue
pub clear_all_from_timer_queue : Timers → Timers
unfolding drop_sizes
clear_all_from_timer_queue q = record q { entries = []; size = drop_sizes q.entries q.size }

-- The queue of a new CSocket
unfoldable pub no_timers : Timers
no_timers = record { entries = []; size = 0; value = 0 }
