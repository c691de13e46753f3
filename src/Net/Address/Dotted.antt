-- ===== src/Net/Address/Dotted.antt =====
-- The text of an address is its numbers in decimal, which can be read back.
use quick_comm.Base.{
  ℕ, ◌^◌, ◌≤◌, ◌<◌, ◌≡◌, ◌≢◌, refl, ap, ◌∙◌, Bool, true, false, List, [], ◌∷◌, some, ==_iff, All,
  length, take, take_all, arith, ◌>>=◌,
}
use quick_comm.Public.Format.{ByteList, Doubles, vslprintf, snprintf}
use quick_comm.Public.Format.Pieces.{Piece, literal, formats, all_args, IsPiece}
use quick_comm.Public.Format.Pieces.Render.{vslprintf-Renders}
use quick_comm.Public.Format.Pieces.Lengths.{
  few_digits, Short, AllShort, literal-Short, small-ShowsSigned, length-AllRender,
}
use quick_comm.Net.Address.{SockAddr, af_inet, port_number, sock_ntop, inet_text}
use quick_comm.Net.Address.Numbers.{
  numbers, numbers_of, IsAddr, not_padded, byte, port_piece, end_pieces, third_pieces,
  second_pieces, pieces_of, pieces-numbers,
}

module _ {F : Type 0} (doubles : Doubles F) where
  byte-Short : (n : ℕ) → n < 256 → Short doubles 3 (byte n)
  byte-Short n h t (ds, spells, e) =
      omega (arith, ap length (e ∙ not_padded _ ds), few_digits 2 n ds spells (omega (arith, h)))

  end-Short : (sa : SockAddr) (port : Bool) → IsAddr sa → AllShort doubles (end_pieces sa port) 9
  end-Short sa true a = (
    3,
    omega arith,
    byte-Short (sa.addr 3) (a.bytes 3),
    (
      1,
      omega arith,
      literal-Short doubles b':',
      (
        5,
        omega arith,
        (λ t r.
            small-ShowsSigned doubles b' ' 0 4 (port_number sa) t (omega (arith, a.high, a.low))
              (omega (arith, a.high, a.low)) (omega arith) r),
        tt,
      ),
    ),
  )
  end-Short sa false a = (3, omega arith, byte-Short (sa.addr 3) (a.bytes 3), tt)

  pieces-Short : (sa : SockAddr) (port : Bool) → IsAddr sa → AllShort doubles (pieces_of sa port) 21
  pieces-Short sa port a = (
    3,
    omega arith,
    byte-Short (sa.addr 0) (a.bytes 0),
    (
      1,
      omega arith,
      literal-Short doubles b'.',
      (
        3,
        omega arith,
        byte-Short (sa.addr 1) (a.bytes 1),
        (
          1,
          omega arith,
          literal-Short doubles b'.',
          (
            3,
            omega arith,
            byte-Short (sa.addr 2) (a.bytes 2),
            (1, omega arith, literal-Short doubles b'.', end-Short sa port a),
          ),
        ),
      ),
    ),
  )

  byte-IsPiece : (n : ℕ) → n < 256 → IsPiece {F = F} (byte n)
  byte-IsPiece n h = (tt, omega (arith, h))

  dot-IsPiece : IsPiece {F = F} (literal b'.')
  dot-IsPiece = cc

  port-IsPiece :
      (n c : ℕ) → n < 2 ^ 16 → c ≢ b'%' → All (IsPiece {F = F}) (literal c ∷ port_piece n ∷ [])
  port-IsPiece n c h d = (d, ((tt, omega (arith, h)), tt))

  with_port-IsPiece : (sa : SockAddr) → IsAddr sa → All (IsPiece {F = F}) (end_pieces sa true)
  with_port-IsPiece sa a = (
    byte-IsPiece (sa.addr 3) (a.bytes 3),
    port-IsPiece (port_number sa) b':' (omega (arith, a.high, a.low)) (cc),
  )

  bare-IsPiece : (sa : SockAddr) → IsAddr sa → All (IsPiece {F = F}) (end_pieces sa false)
  bare-IsPiece sa a = (byte-IsPiece (sa.addr 3) (a.bytes 3), tt)

  end-IsPiece :
      (sa : SockAddr) (port : Bool) → IsAddr sa → All (IsPiece {F = F}) (end_pieces sa port)
  end-IsPiece sa true a = with_port-IsPiece sa a
  end-IsPiece sa false a = bare-IsPiece sa a

  -- A byte and a dot in front
  dotted-IsPiece :
      (n : ℕ) (ps : List (Piece F))
      → n < 256
      → All (IsPiece {F = F}) ps
      → All (IsPiece {F = F}) (byte n ∷ literal b'.' ∷ ps)
  dotted-IsPiece n ps h a = (byte-IsPiece n h, (dot-IsPiece, a))

  pieces-IsPiece :
      (sa : SockAddr) (port : Bool) → IsAddr sa → All (IsPiece {F = F}) (pieces_of sa port)
  pieces-IsPiece sa port a = dotted-IsPiece (sa.addr 0) (second_pieces sa port) (a.bytes 0) (
      dotted-IsPiece (sa.addr 1) (third_pieces sa port) (a.bytes 1)
        (dotted-IsPiece (sa.addr 2) (end_pieces sa port) (a.bytes 2) (end-IsPiece sa port a)))

  inet_text-eq :
      (sa : SockAddr) (port : Bool) (len : ℕ)
      → inet_text doubles sa port len
        ≡ vslprintf doubles len
            (formats {F = F} (pieces_of sa port))
            (all_args {F = F} (pieces_of sa port))
  unfolding snprintf
  inet_text-eq sa true len = refl
  inet_text-eq sa false len = refl

  -- For an address of bytes qc_sock_ntop writes a text of at most 21 characters, as far as there is
  -- room for it, and returns how much of it that is. The text shows exactly the four bytes in
  -- their order, and the port if it is asked for: reading its numbers gives them back. 21 bytes of
  -- room are enough for the whole text.
  pub sock_ntop-Shows :
      (sa : SockAddr) (port : Bool)
      → IsAddr sa
      → (t : ByteList) × (length t ≤ 21)
        × (numbers 0 t ≡ numbers_of sa port)
        × ((len : ℕ) → sock_ntop doubles sa port len ≡ some (length (take len t), take len t))
        × ((len : ℕ) → 21 ≤ len → sock_ntop doubles sa port len ≡ some (length t, t))
  unfolding sock_ntop
  sock_ntop-Shows sa port a =
      let (t, renders, writes) =
        vslprintf-Renders doubles (pieces_of sa port) (pieces-IsPiece sa port a) in
      let short =
        length-AllRender doubles (pieces_of sa port) 21 t (pieces-Short sa port a) renders in
      let run : (len : ℕ) → sock_ntop doubles sa port len ≡ some (length (take len t), take len t) =
        λ len. simp ((==_iff sa.family af_inet).1 a.inet) (
          ap (λ o. o >>= λ text. some (length text, text))
            (inet_text-eq sa port len ∙ writes len)) in
      (
        t,
        short,
        pieces-numbers doubles sa port t a renders,
        run,
        λ len h. run len ∙ ap (λ u. some (length u, u)) (take_all len t (omega (arith, short, h))),
      )
