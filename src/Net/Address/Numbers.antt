-- ===== src/Net/Address/Numbers.antt =====
-- The numbers that the directives of an address show, read back.
use quick_comm.Base.{
  ℕ, ◌+◌, ◌-◌, replicate, ◌*◌, ◌^◌, ◌<◌, ◌≡◌, refl, ap, ◌∙◌, Bool, true, false, inl, inr, List, [],
  ◌∷◌, ◌++◌, if◌then◌else◌, All, length, arith,
}
use quick_comm.Public.Format.{ByteList, Doubles, is_digit}
use quick_comm.Public.Format.Digits.{Spells, IsNumeral, value, char_value}
use quick_comm.Public.Format.Pieces.{
  Piece, int, literal, as_signed, as_unsigned, Renders, AllRender,
}
use quick_comm.Public.Format.Room.{padded}
use quick_comm.Net.Address.{SockAddr, af_inet, port_number}

-- The numbers of a text that any other character separates, behind the digits that spell `n`
abbrev pub numbers : ℕ → ByteList → List ℕ
numbers n [] = n ∷ []
numbers n (c ∷ text) =
    if is_digit c then numbers (n * 10 + char_value c) text else n ∷ numbers 0 text

-- The numbers of an address
abbrev pub numbers_of : SockAddr → Bool → List ℕ
numbers_of sa port =
    sa.addr 0 ∷ sa.addr 1 ∷ sa.addr 2 ∷ sa.addr 3 ∷ (if port then port_number sa ∷ [] else [])

-- Bytes
pub record IsAddr (sa : SockAddr) : Type 0 where
  pub inet : sa.family ≡ af_inet
  pub bytes : (i : ℕ) → sa.addr i < 256
  pub high : sa.port_high < 256
  pub low : sa.port_low < 256

numeral-digit : (c : ℕ) → IsNumeral 0 c → is_digit c ≡ true
numeral-digit c (m, h, e) = ground (arith, h, e)

-- Digits in front of the rest of a text
numbers-digits :
    (n : ℕ) (ds rest : ByteList)
    → All (IsNumeral 0) ds
    → numbers n (ds ++ rest) ≡ numbers (value 10 n ds) rest
numbers-digits n [] rest a = refl
numbers-digits n (c ∷ ds) rest (d, a) =
    simp (numeral-digit c d) (numbers-digits (n * 10 + char_value c) ds rest a)

numbers-Spells :
    (n : ℕ) (ds rest : ByteList) → Spells 0 n ds → numbers 0 (ds ++ rest) ≡ numbers n rest
numbers-Spells n ds rest (v, p, l, z, a) = numbers-digits 0 ds rest a ∙ ap (λ m. numbers m rest) v

pub not_padded : (z : ℕ) (ds : ByteList) → padded z 0 ds ≡ ds
not_padded z ds =
    let nothing : 0 - length ds ≡ 0 = omega arith in ap (λ n. replicate n z ++ ds) nothing

module _ {F : Type 0} where
  -- The directives of a byte and of a port
  abbrev pub byte : ℕ → Piece F
  byte n = int [] as_unsigned n

  abbrev pub port_piece : ℕ → Piece F
  port_piece n = int [] as_signed n

  -- The directives of an address, from the last byte, the third and the second on, and all
  abbrev pub end_pieces : SockAddr → Bool → List (Piece F)
  end_pieces sa true = byte (sa.addr 3) ∷ literal b':' ∷ port_piece (port_number sa) ∷ []
  end_pieces sa false = byte (sa.addr 3) ∷ []

  abbrev pub third_pieces : SockAddr → Bool → List (Piece F)
  third_pieces sa port = byte (sa.addr 2) ∷ literal b'.' ∷ end_pieces sa port

  abbrev pub second_pieces : SockAddr → Bool → List (Piece F)
  second_pieces sa port = byte (sa.addr 1) ∷ literal b'.' ∷ third_pieces sa port

  abbrev pub pieces_of : SockAddr → Bool → List (Piece F)
  pieces_of sa port = byte (sa.addr 0) ∷ literal b'.' ∷ second_pieces sa port

module _ {F : Type 0} (doubles : Doubles F) where
  byte-numbers :
      (n : ℕ) (t rest : ByteList)
      → Renders doubles (byte n) t
      → numbers 0 (t ++ rest) ≡ numbers n rest
  byte-numbers n t rest (ds, spells, e) =
      ap (λ u. numbers 0 (u ++ rest)) (e ∙ not_padded _ ds) ∙ numbers-Spells n ds rest spells

  port-numbers :
      (n : ℕ) (t rest : ByteList)
      → n < 2 ^ 16
      → Renders doubles (port_piece n) t
      → numbers 0 (t ++ rest) ≡ numbers n rest
  port-numbers n t rest h (inl (low, (ds, spells, e))) =
      ap (λ u. numbers 0 (u ++ rest)) (e ∙ not_padded _ ds) ∙ numbers-Spells n ds rest spells
  port-numbers n t rest h (inr (high, others)) = absurd (omega (arith, h, high))

  -- A byte and what separates it from the pieces behind it
  separated :
      (n c : ℕ) (ps : List (Piece F)) (t : ByteList)
      → is_digit c ≡ false
      → AllRender doubles (byte n ∷ literal c ∷ ps) t
      → (v : ByteList) × AllRender doubles ps v × (numbers 0 t ≡ n ∷ numbers 0 v)
  separated n c ps t other (u, w, r, (x, v, s, rs, f), e) = (
    v,
    rs,
    ap (numbers 0) (e ∙ ap (λ y. u ++ y) (f ∙ ap (λ y. y ++ v) s))
        ∙ byte-numbers n u (c ∷ v) r
        ∙ simp other refl,
  )

  last_byte : (n : ℕ) (t : ByteList) → AllRender doubles (byte n ∷ []) t → numbers 0 t ≡ n ∷ []
  last_byte n t (u, v, r, nothing, e) =
      ap (numbers 0) (e ∙ ap (λ y. u ++ y) nothing) ∙ byte-numbers n u [] r

  last_port :
      (n : ℕ) (t : ByteList)
      → n < 2 ^ 16
      → AllRender doubles (port_piece n ∷ []) t
      → numbers 0 t ≡ n ∷ []
  last_port n t h (u, v, r, nothing, e) =
      ap (numbers 0) (e ∙ ap (λ y. u ++ y) nothing) ∙ port-numbers n u [] h r

  end-numbers :
      (sa : SockAddr) (port : Bool) (t : ByteList)
      → IsAddr sa
      → AllRender doubles (end_pieces sa port) t
      → numbers 0 t ≡ sa.addr 3 ∷ (if port then port_number sa ∷ [] else [])
  end-numbers sa true t a r =
      let (v, rs, e) = separated (sa.addr 3) b':' (port_piece (port_number sa) ∷ []) t refl r in
      e ∙ ap (◌∷◌ (sa.addr 3)) (last_port (port_number sa) v (omega (arith, a.high, a.low)) rs)
  end-numbers sa false t a r = last_byte (sa.addr 3) t r

  pub pieces-numbers :
      (sa : SockAddr) (port : Bool) (t : ByteList)
      → IsAddr sa
      → AllRender doubles (pieces_of sa port) t
      → numbers 0 t ≡ numbers_of sa port
  pieces-numbers sa port t a r =
      let (v0, r0, e0) = separated (sa.addr 0) b'.' (second_pieces sa port) t refl r in
      let (v1, r1, e1) = separated (sa.addr 1) b'.' (third_pieces sa port) v0 refl r0 in
      let (v2, r2, e2) = separated (sa.addr 2) b'.' (end_pieces sa port) v1 refl r1 in
      e0
      ∙ ap (◌∷◌ (sa.addr 0))
          (e1 ∙ ap (◌∷◌ (sa.addr 1)) (e2 ∙ ap (◌∷◌ (sa.addr 2)) (end-numbers sa port v2 a r2)))
