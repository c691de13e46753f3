-- ===== src/Net/Recv/Buffers.antt =====
-- What a write into the header array or the packet memory leaves there.
use quick_comm.Base.{
  ℕ, zero, suc, ◌+◌, ◌≤◌, ◌≡◌, refl, sym, ap, ◌∙◌, List, [], ◌∷◌, ◌++◌, length, length-append,
  length-take, length-drop, take, drop, take-append_left, take-append-drop, arith,
}
use mathlib.Core.List.{append_assoc, append-nil}
use quick_comm.Net.Recv.{declared, write_at}
use quick_comm.Net.Recv.Frames.{declared-append}

pub length_front :
    (off : ℕ) (bytes buffer : List ℕ)
    → off ≤ length buffer
    → length (take off buffer ++ bytes) ≡ off + length bytes
length_front off bytes buffer h =
    omega (arith, length-append (take off buffer) bytes, length-take off buffer)

pub length-write_at :
    (off : ℕ) (bytes buffer : List ℕ)
    → off + length bytes ≤ length buffer
    → length (write_at off bytes buffer) ≡ length buffer
length-write_at off bytes buffer h = omega (
  arith,
  length-append (take off buffer) (bytes ++ drop (off + length bytes) buffer),
  length-append bytes (drop (off + length bytes) buffer),
  length-take off buffer,
  length-drop (off + length bytes) buffer,
)

-- The bytes before the end of the write are those before it and the bytes written.
pub take-write_at :
    (off n : ℕ) (bytes buffer : List ℕ)
    → off ≤ length buffer
    → n ≡ off + length bytes
    → take n (write_at off bytes buffer) ≡ take off buffer ++ bytes
take-write_at off n bytes buffer h e =
    ap (take n) (sym (append_assoc (take off buffer) bytes (drop (off + length bytes) buffer)))
    ∙ take-append_left (take off buffer ++ bytes) (drop (off + length bytes) buffer) n
        (length_front off bytes buffer h ∙ sym e)

pub drop_all : (n : ℕ) (xs : List ℕ) → length xs ≤ n → drop n xs ≡ []
drop_all zero [] h = refl
drop_all zero (x ∷ xs) h = absurd (omega arith)
drop_all (suc n) [] h = refl
drop_all (suc n) (x ∷ xs) h = drop_all n xs (omega arith)

-- A write that fills the rest of the buffer.
pub write_at_full :
    (off : ℕ) (bytes buffer : List ℕ)
    → off + length bytes ≡ length buffer
    → write_at off bytes buffer ≡ take off buffer ++ bytes
write_at_full off bytes buffer h =
    ap (λ t. take off buffer ++ (bytes ++ t)) (drop_all (off + length bytes) buffer (omega arith))
    ∙ ap (◌++◌ (take off buffer)) (append-nil bytes)

pub declared-take : (n : ℕ) (p : List ℕ) → 2 ≤ n → n ≤ length p → declared (take n p) ≡ declared p
declared-take n p h k =
    sym (declared-append (take n p) (drop n p) (omega (arith, length-take n p)))
    ∙ ap declared (take-append-drop n p)

pub declared-write_at :
    (off : ℕ) (bytes buffer : List ℕ)
    → 2 ≤ off
    → off ≤ length buffer
    → declared (write_at off bytes buffer) ≡ declared buffer
declared-write_at off bytes buffer h k =
    declared-append (take off buffer) (bytes ++ drop (off + length bytes) buffer)
      (omega (arith, length-take off buffer))
    ∙ declared-take off buffer h k
