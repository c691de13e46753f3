-- ===== src/Net/Pool/Tests.antt =====
-- Runs of the connection pool of net/qc_socket_conn.cc.
use quick_comm.Base.{ℕ, false, arith}
use quick_comm.Net.Pool.{
  Pool, empty_pool, init_connection, get_connection, free_connection, in_recy_connect_queue,
  close_connection, waits, recycle_round,
}
use quick_comm.Net.Pool.Owners.{Inv, Lent, get-Lent, free-Inv, recy-Inv, close-Inv}
use quick_comm.Net.Pool.Recycle.{Recycled, recycle_round-Recycled}
use quick_comm.Net.Pool.Start.{init-Inv}

abbrev three_free : Pool
three_free = init_connection 3 100 empty_pool

-- The pool when the first of its connections is lent to descriptor 9, and when it waits to be
-- recycled.
abbrev lent : Pool
lent = (get_connection 200 9 three_free).1

abbrev held : ℕ
held = (get_connection 200 9 three_free).0

abbrev waiting : Pool
waiting = in_recy_connect_queue 300 held lent

lent-Lent : Lent three_free held lent
lent-Lent = get-Lent 200 9 three_free (init-Inv 3 100).0

get-Lent_example : Lent three_free held lent
get-Lent_example = get-Lent 200 9 three_free (init-Inv 3 100).0

freed_lent : Inv (free_connection held lent)
freed_lent = free-Inv held lent lent-Lent.valid lent-Lent.in_use

close-Inv_example : Inv (close_connection held lent)
close-Inv_example = close-Inv held lent lent-Lent.valid lent-Lent.in_use

waiting-Inv : Inv waiting
waiting-Inv =
    recy-Inv 300 held lent lent-Lent.valid lent-Lent.in_use.0 (omega (arith, lent-Lent.in_use.1))

recycle_round-Recycled_example :
    Recycled (waits 400 60 false waiting) waiting (recycle_round 400 60 false waiting)
recycle_round-Recycled_example = recycle_round-Recycled 400 60 false waiting waiting-Inv
