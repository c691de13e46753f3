-- ===== src/Net/Pool/Taken.antt =====
-- What qc_get_connection writes into the connections.
use quick_comm.Base.{
  ◌∙◌, ℕ, ◌≡◌, ◌≢◌, ap, true, false, List, [], ◌∷◌, some, ◌==◌, if◌then◌else◌, arith,
}
use quick_comm.Net.Pool.{
  Pool, Conn, update, get_from, get_connection, put_one_to_free, free_connection, close_connection,
}

pub own_entry : (f : ℕ → Conn) (a : ℕ) (c : Conn) → update f a c a ≡ c
own_entry f a c = let e : (a == a) ≡ true = ground arith in ap (λ b. if b then c else f a) e

pub other_entry : (f : ℕ → Conn) (a b : ℕ) (c : Conn) → b ≢ a → update f a c b ≡ f b
other_entry f a b c n =
    let e : (b == a) ≡ false = ground (arith, n) in ap (λ x. if x then c else f b) e

-- The connection holds the descriptor, and no other connection is written.
pub record Takes (isock : ℕ) (p : Pool) (a : ℕ) (q : Pool) : Type 0 where
  pub own : (q.conns a).fd ≡ some isock
  pub others : (b : ℕ) → b ≢ a → q.conns b ≡ p.conns b

get_from-Takes :
    (free : List ℕ) (now isock : ℕ) (p : Pool)
    → let (a, q) = get_from free now isock p in Takes isock p a q
unfolding get_from
get_from-Takes [] now isock p = record {
  own = ap (λ c. c.fd) (own_entry p.conns p.next_addr _);
  others = λ b n. other_entry p.conns p.next_addr b _ n;
}
get_from-Takes (a ∷ rest) now isock p = record {
  own = ap (λ c. c.fd) (own_entry p.conns a _);
  others = λ b n. other_entry p.conns a b _ n;
}

pub get-Takes :
    (now isock : ℕ) (p : Pool)
    → Takes isock p (get_connection now isock p).0 (get_connection now isock p).1
unfolding get_connection
get-Takes now isock p = get_from-Takes p.free_list now isock p

-- A close with the connection given back writes no other connection either.
pub close-others : (a b : ℕ) (p : Pool) → b ≢ a → (close_connection a p).conns b ≡ p.conns b
unfolding close_connection free_connection
close-others a b p n =
    other_entry (free_connection a p).conns a b _ n
    ∙ other_entry p.conns a b (put_one_to_free (p.conns a)) n
