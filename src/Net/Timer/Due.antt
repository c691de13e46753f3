-- ===== src/Net/Timer/Due.antt =====
-- The loop of the timer thread over GetOverTimeTimer: it ends, and collects exactly what is due.
use quick_comm.Base.{
  ℕ, zero, suc, ◌+◌, ◌≤◌, ◌<◌, ◌≡◌, refl, sym, ap, ◌∙◌, Bool, true, false, List, [], ◌∷◌, none,
  some, leb, if◌then◌else◌, length, arith,
}
use quick_comm.Net.Timer.{
  Header, Timers, insert, refresh, put_back, get_over_time_timer, collected, over_time_loop,
}
use quick_comm.Net.Timer.Order.{Inv, IsLater, idle, taken, front, get_over-Inv, entries-refresh}

-- The headers of the entries that are due, from the earliest on, and the entries behind them.
abbrev pub due : ℕ → List (ℕ × Header) → List Header
due cur [] = []
due cur ((t, h) ∷ es) = if leb t cur then h ∷ due cur es else []

abbrev pub later : ℕ → List (ℕ × Header) → List (ℕ × Header)
later cur [] = []
later cur ((t, h) ∷ es) = if leb t cur then later cur es else (t, h) ∷ es

-- The entries with each header put back at time t.
abbrev pub requeue : ℕ → List Header → List (ℕ × Header) → List (ℕ × Header)
requeue t [] es = es
requeue t (h ∷ hs) es = requeue t hs (insert t h es)

due-insert :
    (cur t : ℕ) (h : Header) (es : List (ℕ × Header))
    → cur < t
    → due cur (insert t h es) ≡ due cur es
unfolding insert
due-insert cur t h [] k = ground arith
due-insert cur t h ((u, g) ∷ es) k = ground (arith, due-insert cur t h es)

later-insert :
    (cur t : ℕ) (h : Header) (es : List (ℕ × Header))
    → cur < t
    → later cur (insert t h es) ≡ insert t h (later cur es)
unfolding insert
later-insert cur t h [] k = ground arith
later-insert cur t h ((u, g) ∷ es) k = ground (arith, later-insert cur t h es)

due-requeue :
    (cur t : ℕ) (hs : List Header) (es : List (ℕ × Header))
    → cur < t
    → due cur (requeue t hs es) ≡ due cur es
due-requeue cur t [] es k = refl
due-requeue cur t (h ∷ hs) es k = due-requeue cur t hs (insert t h es) k ∙ due-insert cur t h es k

due-later : (cur : ℕ) (es : List (ℕ × Header)) → due cur (later cur es) ≡ []
due-later cur [] = refl
due-later cur ((t, h) ∷ es) = ground (arith, due-later cur es)

-- The entries when the loop has ended.
abbrev pub left_over : ℕ → ℕ → Bool → List (ℕ × Header) → List (ℕ × Header)
left_over cur wait true es = later cur es
left_over cur wait false es = requeue (cur + wait) (due cur es) (later cur es)

-- The entries after one round that took the entry of h.
abbrev next_entries : ℕ → Bool → Header → List (ℕ × Header) → List (ℕ × Header)
next_entries t true h es = es
next_entries t false h es = insert t h es

entries_after :
    (cur wait : ℕ) (kick : Bool) (h : Header) (rest : Timers)
    → (refresh (put_back cur wait kick (some h) rest)).entries
      ≡ next_entries (cur + wait) kick h rest.entries
unfolding put_back
entries_after cur wait true h rest = entries-refresh rest
entries_after cur wait false h rest = entries-refresh _

due_after :
    (cur wait : ℕ) (kick : Bool) (h : Header) (es : List (ℕ × Header))
    → 0 < wait
    → due cur (next_entries (cur + wait) kick h es) ≡ due cur es
due_after cur wait true h es w = refl
due_after cur wait false h es w = due-insert cur (cur + wait) h es (omega arith)

left_after :
    (cur wait : ℕ) (kick : Bool) (t : ℕ) (h : Header) (es : List (ℕ × Header))
    → 0 < wait
    → t ≤ cur
    → left_over cur wait kick (next_entries (cur + wait) kick h es)
      ≡ left_over cur wait kick ((t, h) ∷ es)
left_after cur wait true t h es w d = let z : leb t cur ≡ true = ground arith in simp z
left_after cur wait false t h es w d =
    let z : leb t cur ≡ true = ground arith in
    let p = due-insert cur (cur + wait) h es (omega arith) in
    let q = later-insert cur (cur + wait) h es (omega arith) in simp (z, p, q)

due_later_none : (cur : ℕ) (es : List (ℕ × Header)) → IsLater cur es → due cur es ≡ []
due_later_none cur [] l = refl
due_later_none cur ((t, h) ∷ es) l = ground (arith, l)

left_later :
    (cur wait : ℕ) (kick : Bool) (es : List (ℕ × Header))
    → IsLater cur es
    → es ≡ left_over cur wait kick es
left_later cur wait true [] l = refl
left_later cur wait false [] l = refl
left_later cur wait true ((t, h) ∷ es) l = ground (arith, l)
left_later cur wait false ((t, h) ∷ es) l = let z : leb t cur ≡ false = ground (arith, l) in simp z

module _ (fuel cur wait : ℕ) (kick : Bool) (q q' : Timers) where
  loop_idle :
      get_over_time_timer cur wait kick q ≡ (none, q')
      → over_time_loop (suc fuel) cur wait kick q ≡ some ([], q')
  unfolding over_time_loop
  loop_idle e = rw (e, over_time_loop) (ap (λ x. some ([], x.1)) e)

  loop_taken :
      (h : Header)
      → get_over_time_timer cur wait kick q ≡ (some h, q')
      → over_time_loop (suc fuel) cur wait kick q
        ≡ collected h (over_time_loop fuel cur wait kick q')
  unfolding over_time_loop
  loop_taken h e =
      rw (e, over_time_loop) (ap (λ x. collected h (over_time_loop fuel cur wait kick x.1)) e)

-- On a queue in order, with a positive wait, the loop ends, on any fuel above the number of due entries. It collects the
-- headers of exactly the due entries, earliest first; what is left is in order and not due. On
-- timeout kicks the due entries are gone, else each stands again at cur_time + m_iWaitTime.
pub over_time_collects :
    (fuel cur wait : ℕ) (kick : Bool) (q : Timers)
    → Inv q
    → 0 < wait
    → length (due cur q.entries) < fuel
    → (q' : Timers) × (over_time_loop fuel cur wait kick q ≡ some (due cur q.entries, q'))
      × Inv q'
      × (q'.entries ≡ left_over cur wait kick q.entries)
      × (due cur q'.entries ≡ [])
unfolding collected
over_time_collects zero cur wait kick q v w k = absurd (omega arith)
over_time_collects (suc fuel) cur wait kick q v w k = elim (front cur wait kick q v) [
  | idle e l ↦
      let none_due = due_later_none cur q.entries l in
      (
        q,
        loop_idle fuel cur wait kick q q e ∙ ap (λ d. some (d, q)) (sym none_due),
        v,
        left_later cur wait kick q.entries l,
        none_due,
      )
  | taken t h es p d rest a b e ↦
      let q1 = refresh (put_back cur wait kick (some h) rest) in
      let v1 : Inv q1 = rw e at (get_over-Inv cur wait kick q v) in
      let entries1 : q1.entries ≡ next_entries (cur + wait) kick h es =
        entries_after cur wait kick h rest ∙ ap (next_entries (cur + wait) kick h) a in
      let due1 : due cur q1.entries ≡ due cur es =
        ap (due cur) entries1 ∙ due_after cur wait kick h es w in
      let z : leb t cur ≡ true = ground arith in
      let due0 : due cur q.entries ≡ h ∷ due cur es = ap (due cur) p ∙ simp z in
      let (q', run, v', left, clear) =
        over_time_collects fuel cur wait kick q1 v1 w
          (omega (arith, ap length due1, ap length due0)) in
      (
        q',
        loop_taken fuel cur wait kick q q1 h e
            ∙ ap (collected h) run
            ∙ ap (λ x. some (x, q')) (ap (◌∷◌ h) due1 ∙ sym due0),
        v',
        left
            ∙ ap (left_over cur wait kick) entries1
            ∙ left_after cur wait kick t h es w d
            ∙ ap (left_over cur wait kick) (sym p),
        clear,
      )
]
