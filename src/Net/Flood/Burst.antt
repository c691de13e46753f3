-- ===== src/Net/Flood/Burst.antt =====
-- When the flood test of net/qc_socket.cc takes a sender for an attacker.
use quick_comm.Base.{
  ℕ, ◌+◌, ◌≡◌, refl, ap, ◌∙◌, Bool, true, false, List, [], ◌∷◌, ltb, length, arith,
}
use quick_comm.Base.Int.{pos, leb_ℤ}
use quick_comm.Net.Flood.{FloodConf, Flood, elapsed, count_packet, test_flood}

-- The tests of packets at the times t and `ts`; the verdict is that on the last one.
abbrev pub watch : FloodConf → Flood → ℕ → List ℕ → Flood × Bool
watch c f t [] = test_flood c t f
watch c f t (u ∷ ts) = watch c (test_flood c t f).0 u ts

-- Each packet follows the one before it in less than the interval.
abbrev pub AreQuick : FloodConf → ℕ → List ℕ → Type 0
AreQuick c t [] = Unit {0}
AreQuick c t (u ∷ ts) = (ltb (elapsed u t) c.interval ≡ true) × AreQuick c u ts

count-quick :
    (c : FloodConf) (f : Flood) (t : ℕ)
    → ltb (elapsed t f.last) c.interval ≡ true
    → count_packet c t f ≡ record { last = t; count = f.count + 1 }
unfolding count_packet
count-quick c f t h = simp h refl

count-slow :
    (c : FloodConf) (f : Flood) (t : ℕ)
    → ltb (elapsed t f.last) c.interval ≡ false
    → count_packet c t f ≡ record { last = t; count = 0 }
unfolding count_packet
count-slow c f t h = simp h refl

-- The test, when the new record of the sender is known.
test_flood-known :
    (c : FloodConf) (f g : Flood) (t : ℕ)
    → count_packet c t f ≡ g
    → test_flood c t f ≡ (g, leb_ℤ c.kick_count (pos g.count))
unfolding test_flood
test_flood-known c f g t e = ap (λ (r : Flood). (r, leb_ℤ c.kick_count (pos r.count))) e

watch-count :
    (c : FloodConf) (f g : Flood) (t : ℕ) (ts : List ℕ)
    → count_packet c t f ≡ g
    → g.last ≡ t
    → AreQuick c t ts
    → (watch c f t ts).1 ≡ leb_ℤ c.kick_count (pos (g.count + length ts))
watch-count c f g t [] e l q =
    ap (λ r. r.1) (test_flood-known c f g t e) ∙ ap (λ n. leb_ℤ c.kick_count (pos n)) (omega arith)
watch-count c f g t (u ∷ ts) e l (q, qs) =
    let g' : Flood = record { last = u; count = g.count + 1 } in
    ap (λ r. (watch c r.0 u ts).1) (test_flood-known c f g t e)
    ∙ watch-count c g g' u ts (count-quick c g u (ap (λ x. ltb (elapsed u x) c.interval) l ∙ q))
        refl qs
    ∙ ap (λ n. leb_ℤ c.kick_count (pos n)) (omega arith)

-- After a packet that comes a pause after the one before it, the n-th packet of a burst, in which
-- each follows the one before it in less than the interval, is taken for flooding exactly when n
-- reaches m_floodKickCount, for every n.
pub burst-kicked :
    (c : FloodConf) (f : Flood) (t : ℕ) (ts : List ℕ)
    → ltb (elapsed t f.last) c.interval ≡ false
    → AreQuick c t ts
    → (watch c f t ts).1 ≡ leb_ℤ c.kick_count (pos (length ts))
burst-kicked c f t ts pause q =
    watch-count c f (record { last = t; count = 0 }) t ts (count-slow c f t pause) refl q
    ∙ ap (λ n. leb_ℤ c.kick_count (pos n)) (omega arith)
