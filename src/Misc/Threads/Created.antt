-- ===== src/Misc/Threads/Created.antt =====
-- The threads that CThreadPool::Create leaves.
use quick_comm.Base.{
  All, ℕ, ◌≡◌, refl, sym, ap, ◌∙◌, Bool, true, false, ◌⊎◌, inl, inr, List, [], ◌∷◌, ◌++◌, length,
  replicate,
}
use mathlib.Core.List.{append_assoc, append-nil}
use quick_comm.Base.Int.{pos}
use quick_comm.Misc.Threads.{Thread, Threads, at_lock, create_loop, create, new_threads}

-- A thread in front of its first lock
abbrev pub fresh_thread : Thread
fresh_thread = record { ifrunning = false; place = at_lock }

-- The loop makes a thread for each call of pthread_create(), or one of the calls fails.
abbrev Makes : List Bool → Threads → Bool × Threads → Type 0
Makes made s (ok, s') =
    ((ok ≡ true) × (s' ≡ record s { threads = s.threads ++ replicate (length made) fresh_thread }))
    ⊎ ((ok ≡ false) × (front : List Bool) × (back : List Bool) × (made ≡ front ++ (false ∷ back)))

loop-Makes : (made : List Bool) (s : Threads) → Makes made s (create_loop made s)
unfolding create_loop
loop-Makes [] s = inl (refl, ap (λ ts. record s { threads = ts }) (sym (append-nil s.threads)))
loop-Makes (false ∷ made) s = inr (refl, [], made, refl)
loop-Makes (true ∷ made) s =
    elim (loop-Makes made (record s { threads = s.threads ++ (fresh_thread ∷ []) })) [
      | inl (ok, e) ↦ inl (
        ok,
        e
            ∙ ap (λ ts. record s { threads = ts })
                (append_assoc s.threads (fresh_thread ∷ []) (replicate (length made) fresh_thread)),
      )
      | inr (ok, front, back, e) ↦ inr (ok, true ∷ front, back, ap (◌∷◌ true) e)
    ]

-- The pool behind Create: as many threads as were asked for, none of them with a message.
pub record IsCreated (n : ℕ) (s : Threads) : Type 0 where
  pub threads : s.threads ≡ replicate n fresh_thread
  pub thread_n : s.thread_n ≡ pos n
  pub queue : s.queue ≡ []
  pub runs : s.shutdown ≡ false

pub create-IsCreated :
    (made : List Bool)
    → let (ok, s) = create made new_threads in
      ((ok ≡ true) × IsCreated (length made) s)
      ⊎ ((ok ≡ false) × (front : List Bool) × (back : List Bool) × (made ≡ front ++ (false ∷ back)))
unfolding create new_threads
create-IsCreated made =
    elim (loop-Makes made (record new_threads { thread_n = pos (length made) })) [
      | inl (ok, e) ↦ inl (
        ok,
        record {
          threads = ap (λ s. s.threads) e;
          thread_n = ap (λ s. s.thread_n) e;
          queue = ap (λ s. s.queue) e;
          runs = ap (λ s. s.shutdown) e;
        },
      )
      | inr failed ↦ inr failed
    ]

loop-AllMade :
    (made : List Bool) (s : Threads)
    → (create_loop made s).0 ≡ true
    → All (λ (b : Bool). b ≡ true) made
unfolding create_loop
loop-AllMade [] s e = tt
loop-AllMade (false ∷ made) s e = absurd (cc e)
loop-AllMade (true ∷ made) s e = (refl, loop-AllMade made _ e)

-- Create is true only when each call of pthread_create() works.
pub create-AllMade :
    (made : List Bool) → (create made new_threads).0 ≡ true → All (λ (b : Bool). b ≡ true) made
unfolding create
create-AllMade made e = loop-AllMade made _ e
