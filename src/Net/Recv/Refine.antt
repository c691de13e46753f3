-- ===== src/Net/Recv/Refine.antt =====
-- The receive state machine refines the framing of `Frames`, whatever recv() returns at a time.
use quick_comm.Base.{
  ℕ, ◌+◌, ◌-◌, ◌≤◌, ◌<◌, ◌≡◌, ◌≢◌, refl, sym, ap, ◌∙◌, inl, inr, List, [], ◌∷◌, ◌++◌, Option, none,
  some, ltb, ◌==◌, length, length-take, take, Bool-cases, ==_iff, arith,
}
use quick_comm.Net.Flood.{FloodConf, Flood, test_flood}
use quick_comm.Net.Recv.{
  Recv, Stat, Place, in_head, in_body, Msg, Outcome, more, queued, flooded, declared, write_at,
  advance, header_len, max_len, store_bytes, check_and_finish, header_done,
}
use quick_comm.Net.Recv.Frames.{
  Frames, settle, feed, feed_header, feed_header_done, feed_body, feed_body_done,
}
use quick_comm.Net.Recv.Header.{
  message, length-message, declared-message, take-message, settle_bad, settle_bare, settle_longer,
  ==-false, ltb-false,
}
use quick_comm.Net.Recv.Buffers.{
  length-write_at, take-write_at, write_at_full, declared-take, declared-write_at,
}

-- The bytes of the unfinished packet that the connection holds.
abbrev pub held : Option Msg → ℕ → List ℕ
held none n = []
held (some m) n = take n m.packet

abbrev pub pending_at : Place → Recv → List ℕ
pending_at in_head r = take r.off r.head
pending_at in_body r = held r.body r.off

abbrev pub pending : Recv → List ℕ
pending r = pending_at r.place r

-- Waiting for the header: precvbuf and irecvlen stay inside dataHeadInfo's first eight bytes.
abbrev pub InHeader : Recv → Type 0
InHeader r = (r.place ≡ in_head) × (r.off + r.len ≡ header_len) × (0 < r.len) × (length r.head ≡ 20)

-- Waiting for the body of message `m`: precvbuf and irecvlen stay inside its memory.
abbrev pub InBody : ℕ → ℕ → Recv → Type 0
InBody conn seq r =
    (m : Msg) × (r.place ≡ in_body)
    × (r.body ≡ some m)
    × (m.conn ≡ conn)
    × (m.seq ≡ seq)
    × (length m.packet ≡ declared m.packet)
    × (declared m.packet ≤ max_len)
    × (r.off + r.len ≡ declared m.packet)
    × (header_len ≤ r.off)
    × (0 < r.len)
    × (length r.head ≡ 20)

abbrev pub ValidAt : ℕ → ℕ → Stat → Recv → Type 0
ValidAt conn seq Stat.hd_init r = (r.off ≡ 0) × InHeader r
ValidAt conn seq Stat.hd_recving r = InHeader r
ValidAt conn seq Stat.bd_init r = InBody conn seq r
ValidAt conn seq Stat.bd_recving r = InBody conn seq r

abbrev pub IsValid : ℕ → ℕ → Recv → Type 0
IsValid conn seq r = ValidAt conn seq r.stat r

-- How the outcome of a read relates the packets complete before it to those complete after it.
abbrev pub Matches : ℕ → ℕ → Outcome → List (List ℕ) → List (List ℕ) → Type 0
Matches conn seq more before after = after ≡ before
Matches conn seq (queued none) before after = ⊥
Matches conn seq (queued (some m)) before after =
    (m.conn ≡ conn) × (m.seq ≡ seq) × (after ≡ before ++ (m.packet ∷ []))
Matches conn seq flooded before after = (p : List ℕ) × (after ≡ before ++ (p ∷ []))

abbrev pub Refines : ℕ → ℕ → List (List ℕ) → Frames → Recv × Flood × Outcome → Type 0
Refines conn seq done s (r, f, out) =
    IsValid conn seq r × (pending r ≡ s.pending) × Matches conn seq out done s.packets

abbrev at : List (List ℕ) → List ℕ → Frames
at done p = record { pending = p; packets = done }

abbrev Started : ℕ → Type 0
Started n = (◌≡◌ {A = ℕ} 0 0) × ((in_head ≡ in_head) × (◌≡◌ {A = ℕ} 8 8) × (0 < 8) × (n ≡ 20))

started : (n : ℕ) → n ≡ 20 → Started n
started n h = (refl, (refl, refl, omega arith, h))

module _ (conf : FloodConf) (fresh : ℕ → List ℕ) (now conn seq : ℕ) (done : List (List ℕ)) where
  -- A complete packet leaves the connection waiting for a header.
  finish-Refines :
      (r : Recv) (f : Flood) (m : Msg)
      → r.body ≡ some m
      → m.conn ≡ conn
      → m.seq ≡ seq
      → length r.head ≡ 20
      → Refines conn seq done
          (record { pending = []; packets = done ++ (m.packet ∷ []) })
          (check_and_finish conf fresh now r f)
  unfolding check_and_finish
  finish-Refines r f m e c s h = elim (Bool-cases conf.enabled) [
    | inl on ↦ elim (Bool-cases (test_flood conf now f).1) [
      | inl bad ↦ simp (on, bad) (started (length r.head) h, refl, (m.packet, refl))
      | inr good ↦ simp (on, good, e) (started (length r.head) h, refl, (c, s, refl))
    ]
    | inr off ↦ simp (off, e) (started (length r.head) h, refl, (c, s, refl))
  ]

  module _ (fits : (n : ℕ) → length (fresh n) ≡ n) where
    body_starts :
        (r : Recv) (f : Flood)
        → length r.head ≡ 20
        → header_len ≤ declared r.head
        → declared r.head ≤ max_len
        → declared r.head ≢ header_len
        → Refines conn seq done (at done (take header_len r.head)) (
          record r {
            body = some (message conn seq fresh r.head);
            stat = Stat.bd_init;
            place = in_body;
            off = header_len;
            len = declared r.head - header_len;
          },
          f,
          more,
        )
    body_starts r f h lo hi ne =
        let sized = length-message r.head h conn seq fresh fits lo in
        let agrees = declared-message r.head h conn seq fresh fits in
        (
          (
            message conn seq fresh r.head,
            refl,
            refl,
            refl,
            refl,
            sized ∙ sym agrees,
            omega (arith, agrees),
            omega (arith, agrees),
            omega arith,
            omega arith,
            h,
          ),
          take-message r.head h conn seq fresh fits,
          refl,
        )

    -- A complete header is settled as the framing settles it.
    header-Refines :
        (r : Recv) (f : Flood)
        → length r.head ≡ 20
        → Refines conn seq done
            (settle done (take header_len r.head))
            (header_done conf fresh now conn seq r f)
    unfolding header_done
    header-Refines r f h = elim (Bool-cases (ltb (declared r.head) header_len)) [
      | inl short ↦
          rw (settle_bad r.head h done (simp short))
            (simp short (started (length r.head) h, refl, refl))
      | inr long ↦ elim (Bool-cases (ltb max_len (declared r.head))) [
        | inl big ↦
            rw (settle_bad r.head h done (simp (long, big)))
              (simp (long, big) (started (length r.head) h, refl, refl))
        | inr small ↦ elim (Bool-cases (declared r.head == header_len)) [
          | inl bare ↦ rw (settle_bare r.head h done conn seq fresh fits ((==_iff _ _).0 bare)) (
              simp (long, small, bare)
                (finish-Refines (record r { body = some (message conn seq fresh r.head) }) f
                  (message conn seq fresh r.head) refl refl refl h))
          | inr longer ↦ rw (settle_longer r.head h done long small longer) (
              simp (long, small, longer)
                (body_starts r f h (ltb-false _ _ long) (ltb-false _ _ small)
                  (==-false _ _ longer)))
        ]
      ]
    ]

    module _ (r : Recv) (f : Flood) (bs : List ℕ) where
      stored_head :
          r.place ≡ in_head → store_bytes r bs ≡ record r { head = write_at r.off bs r.head }
      unfolding store_bytes
      stored_head e = ground arith

      stored_body :
          (m : Msg)
          → r.place ≡ in_body
          → r.body ≡ some m
          → store_bytes r bs
            ≡ record r { body = some (record m { packet = write_at r.off bs m.packet }) }
      unfolding store_bytes
      stored_body m e b = ground arith

      -- A read that completes the header.
      pub header_whole :
          InHeader r
          → length bs ≡ r.len
          → Refines conn seq done
              (feed (at done (take r.off r.head)) bs)
              (header_done conf fresh now conn seq (store_bytes r bs) f)
      header_whole (e, s, p, l) w =
          rw
            (
              stored_head e,
              feed_header_done done (take r.off r.head) bs (omega (arith, length-take r.off r.head))
                  (omega (arith, length-take r.off r.head)),
              ← take-write_at r.off header_len bs r.head (omega arith) (omega arith),
            )
            (header-Refines (record r { head = write_at r.off bs r.head }) f
              (length-write_at r.off bs r.head (omega arith) ∙ l))

      -- A read that leaves the header incomplete.
      pub header_part :
          InHeader r
          → 0 < length bs
          → length bs < r.len
          → Refines conn seq done
              (feed (at done (take r.off r.head)) bs)
              (advance Stat.hd_recving (store_bytes r bs) (length bs), f, more)
      header_part (e, s, p, l) h w =
          rw
            (
              stored_head e,
              feed_header done (take r.off r.head) bs (omega (arith, length-take r.off r.head)),
            )
            (
              (e, omega arith, omega arith, length-write_at r.off bs r.head (omega arith) ∙ l),
              ap
                    (λ q. pending_at q (record r {
                      stat = Stat.hd_recving;
                      head = write_at r.off bs r.head;
                      off = r.off + length bs;
                      len = r.len - length bs;
                    }))
                    e
                  ∙ take-write_at r.off (r.off + length bs) bs r.head (omega arith) refl,
              refl,
            )

      module _ (m : Msg) (b : r.body ≡ some m) (sized : length m.packet ≡ declared m.packet) where
        front_len : r.off ≤ declared m.packet → length (take r.off m.packet) ≡ r.off
        front_len h = omega (arith, length-take r.off m.packet)

        front_declares :
            header_len ≤ r.off
            → r.off ≤ declared m.packet
            → declared (take r.off m.packet) ≡ declared m.packet
        front_declares lo h = declared-take r.off m.packet (omega arith) (omega arith)

        held_front : held r.body r.off ≡ take r.off m.packet
        held_front = ap (λ x. held x r.off) b

      -- A read that completes the body.
      pub body_whole :
          InBody conn seq r
          → length bs ≡ r.len
          → Refines conn seq done
              (feed (at done (held r.body r.off)) bs)
              (check_and_finish conf fresh now (store_bytes r bs) f)
      body_whole (m, e, b, c, q, sized, hi, s, lo, p, l) w =
          let n = front_len m b sized (omega arith) in
          let d = front_declares m b sized lo (omega arith) in
          rw
            (
              stored_body m e b,
              held_front m b sized,
              feed_body_done done (take r.off m.packet) bs (omega arith) (omega arith)
                  (omega arith),
              ← write_at_full r.off bs m.packet (omega arith),
            )
            (finish-Refines
              (record r { body = some (record m { packet = write_at r.off bs m.packet }) }) f
              (record m { packet = write_at r.off bs m.packet }) refl c q l)

      -- A read that leaves the body incomplete.
      pub body_part :
          InBody conn seq r
          → 0 < length bs
          → length bs < r.len
          → Refines conn seq done
              (feed (at done (held r.body r.off)) bs)
              (advance Stat.bd_recving (store_bytes r bs) (length bs), f, more)
      body_part (m, e, b, c, q, sized, hi, s, lo, p, l) h w =
          let n = front_len m b sized (omega arith) in
          let d = front_declares m b sized lo (omega arith) in
          let kept : declared (write_at r.off bs m.packet) ≡ declared m.packet =
            declared-write_at r.off bs m.packet (omega arith) (omega arith) in
          rw
            (
              stored_body m e b,
              held_front m b sized,
              feed_body done (take r.off m.packet) bs (omega arith) (omega arith),
            )
            (
              (
                record m { packet = write_at r.off bs m.packet },
                e,
                refl,
                c,
                q,
                length-write_at r.off bs m.packet (omega arith) ∙ sized ∙ sym kept,
                omega (arith, kept),
                omega (arith, kept),
                omega arith,
                omega arith,
                l,
              ),
              ap
                    (λ x. pending_at x (record r {
                      stat = Stat.bd_recving;
                      body = some (record m { packet = write_at r.off bs m.packet });
                      off = r.off + length bs;
                      len = r.len - length bs;
                    }))
                    e
                  ∙ take-write_at r.off (r.off + length bs) bs m.packet (omega arith) refl,
              refl,
            )
