-- ===== src/Net/Recv/Stream.antt =====
-- The read handler over a whole stream: which packets reach the thread pool does not depend on how
-- recv() cuts the stream.
use quick_comm.Base.{
  ℕ, ◌-◌, ◌≤◌, ◌<◌, ◌≡◌, ◌≢◌, refl, sym, ap, ◌∙◌, Bool, true, false, inl, inr, List, [], ◌∷◌, ◌++◌,
  none, some, ltb, ◌==◌, if◌then◌else◌, length, length-take, length-drop, take, drop,
  take-append-drop, All, Bool-cases, ==_iff, arith,
}
use mathlib.Core.Path.{ap₂}
use mathlib.Core.List.{append_assoc, append-nil}
use quick_comm.Net.Flood.{FloodConf, Flood}
use quick_comm.Net.Recv.{
  Recv, Stat, Outcome, more, queued, flooded, declared, header_len, max_len, check_and_finish,
  header_done, received, read_bytes, new_recv,
}
use quick_comm.Net.Recv.Frames.{settle, feed, feed-append, feed_header_done, feed_body_done}
use quick_comm.Net.Recv.Buffers.{declared-take}
use quick_comm.Net.Recv.Header.{message}
use quick_comm.Net.Recv.Refine.{pending, IsValid, Matches}
use quick_comm.Net.Recv.Step.{at, read-Refines}

-- The packets that a call hands to the thread pool.
abbrev pub delivered : Outcome → List (List ℕ)
delivered more = []
delivered (queued none) = []
delivered (queued (some m)) = m.packet ∷ []
delivered flooded = []

abbrev pub joined : List (List ℕ) → List ℕ
joined [] = []
joined (bs ∷ rest) = bs ++ joined rest

abbrev pub bytes_of : List (ℕ × List ℕ) → List ℕ
bytes_of [] = []
bytes_of ((now, bs) ∷ reads) = bs ++ bytes_of reads

module _ (conf : FloodConf) (fresh : ℕ → List ℕ) (conn seq : ℕ) where
  -- Successive reads at their times, and the packets that they hand over.
  unfoldable pub read_all : Recv → Flood → List (ℕ × List ℕ) → List (List ℕ)
  read_all r f [] = []
  read_all r f ((now, bs) ∷ reads) =
      let (r', f', out) = read_bytes conf fresh now conn seq r f bs in
      delivered out ++ read_all r' f' reads

  -- Each read returns one byte at least, and no more than was asked for (irecvlen).
  abbrev pub Reads : Recv → Flood → List (ℕ × List ℕ) → Type 0
  Reads r f [] = Unit {0}
  Reads r f ((now, bs) ∷ reads) =
      (0 < length bs)
      × (length bs ≤ r.len)
      × (let (r', f', out) = read_bytes conf fresh now conn seq r f bs in Reads r' f' reads)

  module _ (off : conf.enabled ≡ false) where
    finish-ne-flooded :
        (now : ℕ) (r : Recv) (f : Flood) → (check_and_finish conf fresh now r f).2 ≢ flooded
    unfolding check_and_finish
    finish-ne-flooded now r f = simp off (λ e. cc)

    header-ne-flooded :
        (now : ℕ) (r : Recv) (f : Flood) → (header_done conf fresh now conn seq r f).2 ≢ flooded
    unfolding header_done
    header-ne-flooded now r f = elim (Bool-cases (ltb (declared r.head) header_len)) [
      | inl short ↦ simp short (λ e. cc)
      | inr long ↦ elim (Bool-cases (ltb max_len (declared r.head))) [
        | inl big ↦ simp (long, big) (λ e. cc)
        | inr small ↦ elim (Bool-cases (declared r.head == header_len)) [
          | inl bare ↦
              simp (long, small, bare)
                (finish-ne-flooded now (record r { body = some (message conn seq fresh r.head) }) f)
          | inr longer ↦ simp (long, small, longer) (λ e. cc)
        ]
      ]
    ]

    guarded-ne-flooded :
        (test : Bool) (x : Recv × Flood × Outcome) (r : Recv) (f : Flood)
        → x.2 ≢ flooded
        → (if test then x else (r, f, more)).2 ≢ flooded
    guarded-ne-flooded true x r f h = h
    guarded-ne-flooded false x r f h = λ e. cc

    received-ne-flooded :
        (stat : Stat) (now : ℕ) (r : Recv) (f : Flood) (n : ℕ)
        → (received conf fresh stat now conn seq r f n).2 ≢ flooded
    unfolding received
    received-ne-flooded Stat.hd_init now r f n =
        guarded-ne-flooded _ _ _ f (header-ne-flooded now r f)
    received-ne-flooded Stat.hd_recving now r f n =
        guarded-ne-flooded _ _ _ f (header-ne-flooded now r f)
    received-ne-flooded Stat.bd_init now r f n =
        guarded-ne-flooded _ _ _ f (finish-ne-flooded now r f)
    received-ne-flooded Stat.bd_recving now r f n =
        guarded-ne-flooded _ _ _ f (finish-ne-flooded now r f)

    read-ne-flooded :
        (now : ℕ) (r : Recv) (f : Flood) (bs : List ℕ)
        → (read_bytes conf fresh now conn seq r f bs).2 ≢ flooded
    unfolding read_bytes
    read-ne-flooded now r f bs = received-ne-flooded r.stat now _ f (length bs)

    Matches-delivered :
        (out : Outcome) (before after : List (List ℕ))
        → out ≢ flooded
        → Matches conn seq out before after
        → after ≡ before ++ delivered out
    Matches-delivered more before after h m = m ∙ sym (append-nil before)
    Matches-delivered (queued none) before after h m = absurd m
    Matches-delivered (queued (some p)) before after h (c, s, e) = e
    Matches-delivered flooded before after h m = absurd (h refl)

    read_all_from :
        ((n : ℕ) → length (fresh n) ≡ n)
        → (r : Recv) (f : Flood) (reads : List (ℕ × List ℕ)) (done : List (List ℕ))
        → IsValid conn seq r
        → Reads r f reads
        → done ++ read_all r f reads ≡ (feed (at done (pending r)) (bytes_of reads)).packets
    unfolding read_all feed
    read_all_from fits r f [] done v h = append-nil done
    read_all_from fits r f ((now, bs) ∷ reads) done v (h, k, hs) =
        let (r', f', out) = read_bytes conf fresh now conn seq r f bs in
        let (v', p, m) = read-Refines conf fresh now conn seq done fits r f bs v h k in
        let e = Matches-delivered out done _ (read-ne-flooded now r f bs) m in
        sym (append_assoc done (delivered out) (read_all r' f' reads))
        ∙ read_all_from fits r' f' reads (done ++ delivered out) v' hs
        ∙ ap₂ (λ x y. (feed (at x y) (bytes_of reads)).packets) (sym e) p
        ∙ sym (ap (λ s. s.packets) (feed-append (at done (pending r)) bs (bytes_of reads)))

  -- With the flood test off, and new memory of the size asked for, the reads of a new connection,
  -- each of a byte at least and no more than irecvlen, hand over exactly the packets that the
  -- framing cuts from the bytes read, in their order, however the bytes were spread over the reads.
  pub read_all_frames :
      conf.enabled ≡ false
      → ((n : ℕ) → length (fresh n) ≡ n)
      → (f : Flood) (reads : List (ℕ × List ℕ)) → Reads new_recv f reads
      → read_all new_recv f reads ≡ (feed (at [] []) (bytes_of reads)).packets
  unfolding new_recv
  read_all_frames off fits f reads h =
      read_all_from off fits new_recv f reads [] (refl, (refl, refl, omega arith, refl)) h

-- A packet as a client sends it: its length is the one that its header declares, and is allowed.
pub record WellFormed (p : List ℕ) : Type 0 where
  pub sized : length p ≡ declared p
  pub has_header : header_len ≤ length p
  pub fits : length p ≤ max_len

settle_header :
    (done : List (List ℕ)) (p : List ℕ)
    → length p ≡ header_len
    → WellFormed p
    → settle done p ≡ at (done ++ (p ∷ [])) []
unfolding settle
settle_header done p e w = ground arith

settle_start :
    (done : List (List ℕ)) (p : List ℕ)
    → header_len < length p
    → WellFormed p
    → settle done (take header_len p) ≡ at done (take header_len p)
unfolding settle
settle_start done p h w =
    let n : length (take header_len p) ≡ 8 = omega (arith, length-take header_len p) in
    let d = declared-take header_len p (omega arith) w.has_header in ground (arith, n, d)

-- A well-formed packet is framed whole.
frame_packet :
    (done : List (List ℕ)) (p : List ℕ)
    → WellFormed p
    → feed (at done []) p ≡ at (done ++ (p ∷ [])) []
frame_packet done p w = elim (Bool-cases (length p == header_len)) [
  | inl bare ↦
      let e : length p ≡ header_len = (==_iff _ _).0 bare in
      feed_header_done done [] p (omega arith) (omega arith) ∙ settle_header done p e w
  | inr longer ↦
      let l : header_len < length p = ground (arith, w) in
      let n : length (take header_len p) ≡ 8 = omega (arith, length-take header_len p) in
      let d = declared-take header_len p (omega arith) w.has_header in
      let b : length (drop header_len p) ≡ length p - 8 = length-drop header_len p in
      ap (feed (at done [])) (sym (take-append-drop header_len p))
      ∙ feed-append (at done []) (take header_len p) (drop header_len p)
      ∙ ap (λ s. feed s (drop header_len p))
          (feed_header_done done [] (take header_len p) (omega arith) (omega arith)
            ∙ settle_start done p l w)
      ∙ feed_body_done done (take header_len p) (drop header_len p) (omega arith)
          (omega (arith, w.sized)) (omega (arith, w.sized))
      ∙ ap (λ q. at (done ++ (q ∷ [])) []) (take-append-drop header_len p)
]

frame_packets :
    (done ps : List (List ℕ))
    → All WellFormed ps
    → feed (at done []) (joined ps) ≡ at (done ++ ps) []
unfolding feed
frame_packets done [] h = ap (λ q. at q []) (sym (append-nil done))
frame_packets done (p ∷ ps) (w, ws) =
    feed-append (at done []) p (joined ps)
    ∙ ap (λ s. feed s (joined ps)) (frame_packet done p w)
    ∙ frame_packets (done ++ (p ∷ [])) ps ws
    ∙ ap (λ q. at q []) (append_assoc done (p ∷ []) ps)

-- If a client sends well-formed packets one after another, the flood test is off, and new memory
-- has the size asked for, then the reads of a new connection hand over exactly these packets, in
-- order, however recv() cuts the stream, where each read returns a byte at least and no more than
-- irecvlen: sticky and split packets are put right.
pub read_all_packets :
    (conf : FloodConf) (fresh : ℕ → List ℕ) (conn seq : ℕ)
    → conf.enabled ≡ false
    → ((n : ℕ) → length (fresh n) ≡ n)
    → (f : Flood) (ps : List (List ℕ)) (reads : List (ℕ × List ℕ)) → All WellFormed ps
    → Reads conf fresh conn seq new_recv f reads
    → bytes_of reads ≡ joined ps
    → read_all conf fresh conn seq new_recv f reads ≡ ps
read_all_packets conf fresh conn seq off fits f ps reads w h e =
    read_all_frames conf fresh conn seq off fits f reads h
    ∙ ap (λ bs. (feed (at [] []) bs).packets) e
    ∙ ap (λ s. s.packets) (frame_packets [] ps w)
