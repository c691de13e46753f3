-- ===== src/Net/Recv/Step.antt =====
-- One call of the read handler against the framing, in each of the four package states.
use quick_comm.Base.{
  ℕ, ◌≤◌, ◌<◌, ◌≡◌, sym, ap, ◌∙◌, Bool, true, false, List, ◌==◌, if◌then◌else◌, length, take,
  ==_iff, arith,
}
use quick_comm.Net.Flood.{FloodConf, Flood}
use quick_comm.Net.Recv.{
  Recv, Stat, more, advance, header_len, store_bytes, check_and_finish, header_done, received,
  read_bytes,
}
use quick_comm.Net.Recv.Frames.{Frames, feed}
use quick_comm.Net.Recv.Header.{==-false}
use quick_comm.Net.Recv.Refine.{
  held, pending_at, pending, InHeader, InBody, ValidAt, IsValid, Refines, header_whole, header_part,
  body_whole, body_part,
}

abbrev pub at : List (List ℕ) → List ℕ → Frames
at done p = record { pending = p; packets = done }

stored_len : (r : Recv) (bs : List ℕ) → (store_bytes r bs).len ≡ r.len
unfolding store_bytes
stored_len r bs = ground arith

==-comm : (a b : ℕ) → (a == b) ≡ (b == a)
==-comm a b = ground arith

module _ (conf : FloodConf) (fresh : ℕ → List ℕ) (now conn seq : ℕ) (done : List (List ℕ)) where
  module _ (fits : (n : ℕ) → length (fresh n) ≡ n) (r : Recv) (f : Flood) (bs : List ℕ)
      (h : 0 < length bs) (k : length bs ≤ r.len) where
    in_header :
        InHeader r
        → (test : Bool) → test ≡ (length bs == r.len)
        → Refines conn seq done (feed (at done (take r.off r.head)) bs) (
            if test
            then header_done conf fresh now conn seq (store_bytes r bs) f
            else (advance Stat.hd_recving (store_bytes r bs) (length bs), f, more))
    in_header v true e =
        header_whole conf fresh now conn seq done fits r f bs v ((==_iff _ _).0 (sym e))
    in_header v false e =
        let ne = ==-false (length bs) r.len (sym e) in
        header_part conf fresh now conn seq done fits r f bs v h (omega arith)

    in_packet :
        InBody conn seq r
        → (test : Bool) → test ≡ (length bs == r.len)
        → Refines conn seq done (feed (at done (held r.body r.off)) bs) (
            if test
            then check_and_finish conf fresh now (store_bytes r bs) f
            else (advance Stat.bd_recving (store_bytes r bs) (length bs), f, more))
    in_packet v true e =
        body_whole conf fresh now conn seq done fits r f bs v ((==_iff _ _).0 (sym e))
    in_packet v false e =
        let ne = ==-false (length bs) r.len (sym e) in
        body_part conf fresh now conn seq done fits r f bs v h (omega arith)

    flip : ((store_bytes r bs).len == length bs) ≡ (length bs == r.len)
    flip = ap (λ n. n == length bs) (stored_len r bs) ∙ ==-comm r.len (length bs)

    received-Refines :
        (stat : Stat)
        → ValidAt conn seq stat r
        → Refines conn seq done
            (feed (at done (pending r)) bs)
            (received conf fresh stat now conn seq (store_bytes r bs) f (length bs))
    unfolding received
    received-Refines Stat.hd_init (z, v) =
        rw (ap (λ q. pending_at q r) v.0)
          (in_header v (length bs == header_len) (ap (◌==◌ (length bs)) (omega arith)))
    received-Refines Stat.hd_recving v =
        rw (ap (λ q. pending_at q r) v.0) (in_header v ((store_bytes r bs).len == length bs) flip)
    received-Refines Stat.bd_init v = rw (ap (λ q. pending_at q r) v.1) (
        in_packet v (length bs == (store_bytes r bs).len) (ap (◌==◌ (length bs)) (stored_len r bs)))
    received-Refines Stat.bd_recving v =
        rw (ap (λ q. pending_at q r) v.1) (in_packet v ((store_bytes r bs).len == length bs) flip)

  -- One call of the read handler, in a valid state, on any number of bytes that recv() may return,
  -- with new memory of the size asked for:
  -- it leaves a valid state of the same connection, it holds exactly the unfinished packet of the
  -- framing, and it hands over the packet that the framing completes, or drops it as flooding.
  pub read-Refines :
      ((n : ℕ) → length (fresh n) ≡ n)
      → (r : Recv) (f : Flood) (bs : List ℕ) → IsValid conn seq r
      → 0 < length bs
      → length bs ≤ r.len
      → Refines conn seq done
          (feed (at done (pending r)) bs)
          (read_bytes conf fresh now conn seq r f bs)
  unfolding read_bytes
  read-Refines fits r f bs v h k = received-Refines fits r f bs h k r.stat v
