-- ===== src/Public/Format/Pieces/Render.antt =====
-- qc_vslprintf writes the text of every piece, as far as there is room.
use quick_comm.Base.{
  ℕ, zero, suc, ◌-◌, ◌^◌, ◌≤◌, ◌≡◌, ◌≢◌, refl, sym, ap, ◌∙◌, true, false, List, [], ◌∷◌, ◌++◌, ◌==◌,
  All, some, length, take, arith, ◌>>=◌, length-append, take_all,
}
use mathlib.Core.List.{append_assoc}
use quick_comm.Public.Format.{
  ByteList, Doubles, Arg, word32, word64, string, double, sign_extend, Style, new_style, read_flags,
  number, signed, copy_string, write_double, finish, convert, format_round, format_loop, vslprintf,
}
use quick_comm.Public.Format.Room.{take-append, left_over}
use quick_comm.Public.Format.Pieces.Integer.{
  read_number-digits, Puts, number-Puts, signed-Puts, narrow-ShowsSigned, round-Puts, integer-Puts,
}
use quick_comm.Public.Format.Pieces.Real.{write_double-Writes}
use quick_comm.Public.Format.Pieces.{
  Piece, literal, percent, int, long, int64, pid, pointer, text, real, first_of, rest_of, args_of,
  format_of, formats, all_args, IsPiece, pad_of, width_of, Renders, AllRender,
}

==-false_lem : (c : ℕ) → c ≢ b'%' → (c == b'%') ≡ false
==-false_lem c h = ground (arith, h)

nothing : (room : ℕ) → take {A = ℕ} room [] ≡ []
nothing room = take_all {A = ℕ} room [] (omega arith)

module _ {F : Type 0} (doubles : Doubles F) where
  -- What a piece adds to the output.
  abbrev PiecePuts : Piece F → Type 0
  PiecePuts p =
      (t : ByteList) × Renders doubles p t
      × Puts doubles
          (λ room fmt args.
            format_round doubles room (first_of p) (rest_of p ++ fmt) (args_of p ++ args))
          t

  copy_string-eq : (room : ℕ) (p : ByteList) → copy_string room p ≡ take room p
  unfolding copy_string
  copy_string-eq zero p = refl
  copy_string-eq (suc room) [] = refl
  copy_string-eq (suc room) (c ∷ p) = ap (◌∷◌ c) (copy_string-eq room p)

  piece-Puts : (p : Piece F) → IsPiece p → PiecePuts p
  unfolding finish convert read_flags
  piece-Puts (literal c) h =
      (c ∷ [], refl, λ room fmt args. simp (==-false_lem c h, nothing room) refl)
  piece-Puts percent h = (
    b'%' ∷ [],
    refl,
    λ room fmt args.
        round-Puts doubles [] b'%' [] (λ r f x. some (b'%' ∷ [], f, x)) [] tt refl refl
          (λ r f x. refl) (b'%' ∷ []) (λ r f x. rw (nothing r) refl) room fmt args,
  )
  piece-Puts (int w shape n) (h, l) =
      integer-Puts doubles w b'd' n (sign_extend n) (2 ^ 31) (word32 n ∷ []) h refl refl
        (omega arith) (ground arith) (λ t. narrow-ShowsSigned doubles (pad_of w) (width_of w) n t l)
        (λ room fmt args y. refl) shape
  piece-Puts (long w shape n) (h, l) =
      integer-Puts doubles w b'i' n n (2 ^ 63) (word64 n ∷ []) h refl refl l l (λ t s. s)
        (λ room fmt args y. refl) shape
  piece-Puts (int64 w shape n) (h, l) =
      integer-Puts doubles w b'L' n n (2 ^ 63) (word64 n ∷ []) h refl refl l l (λ t s. s)
        (λ room fmt args y. refl) shape
  piece-Puts (pid w n) (h, l) =
      let (t, shows, puts) =
        signed-Puts doubles (pad_of w) (width_of w) (sign_extend n) (ground arith) in
      (
        t,
        narrow-ShowsSigned doubles (pad_of w) (width_of w) n t l shows,
        round-Puts doubles w b'P' []
            (λ room. signed room (new_style (pad_of w) (width_of w)) (sign_extend n))
            (word32 n ∷ []) h refl refl (λ room fmt args. refl) t puts,
      )
  piece-Puts (pointer n) l =
      let y : Style = record {
        zero_char = b'0';
        width = 16;
        sign = true;
        hex = 2;
        frac_width = 0;
      } in
      let (t, shows, puts) = number-Puts doubles y n l in
      (
        t,
        shows,
        round-Puts doubles [] b'p' [] (λ room. number room y n) (word64 n ∷ []) tt refl refl
            (λ room fmt args. refl) t puts,
      )
  piece-Puts (text s) h = (
    s,
    refl,
    round-Puts doubles [] b's' [] (λ room fmt args. some (copy_string room s, fmt, args))
        (string s ∷ []) tt refl refl (λ room fmt args. refl) s
        (λ room fmt args. rw (copy_string-eq (suc room) s) refl),
  )
  piece-Puts (real w d f) (h, k) =
      let (t, shows, writes) = write_double-Writes doubles w d f in
      let y = record (new_style (pad_of w) (width_of w)) { frac_width = width_of d } in
      (
        t,
        shows,
        round-Puts doubles w b'.' (d ++ (b'f' ∷ []))
            (λ room fmt args. write_double doubles room y f >>= λ bytes. some (bytes, fmt, args))
            (double f ∷ []) h refl refl
            (λ room fmt args.
              rw (append_assoc d (b'f' ∷ []) fmt, read_number-digits 0 d b'f' fmt k refl) refl)
            t (λ room fmt args. rw (writes room) refl),
      )

  loop_step :
      (fuel room c : ℕ) (fmt out rest : ByteList) (args args' : List (Arg F))
      → format_round doubles (suc room) c fmt args ≡ some (out, rest, args')
      → format_loop doubles (suc fuel) (suc room) (c ∷ fmt) args ≡ (
          format_loop doubles fuel (suc room - length out) rest args' >>= λ more.
          some (out ++ more))
  unfolding format_loop
  loop_step fuel room c fmt out rest args args' e = rw e refl

  -- A round that puts out `t`, and the rounds behind it.
  loop_round :
      (fuel room c : ℕ) (fmt rest : ByteList) (args args' : List (Arg F)) (t u : ByteList)
      → format_round doubles (suc room) c fmt args ≡ some (take (suc room) t, rest, args')
      → format_loop doubles fuel (suc room - length t) rest args'
        ≡ some (take (suc room - length t) u)
      → format_loop doubles (suc fuel) (suc room) (c ∷ fmt) args ≡ some (take (suc room) (t ++ u))
  loop_round fuel room c fmt rest args args' t u e f =
      let shown = take (suc room) t in
      loop_step fuel room c fmt shown rest args args' e
      ∙ ap (λ left. format_loop doubles fuel left rest args' >>= λ more. some (shown ++ more))
          (left_over (suc room) t)
      ∙ ap (λ o. o >>= λ more. some (shown ++ more)) f
      ∙ ap some (sym (take-append (suc room) t u))

  no_room :
      (fuel : ℕ) (fmt : ByteList) (args : List (Arg F))
      → format_loop doubles fuel 0 fmt args ≡ some []
  unfolding format_loop
  no_room fuel [] args = refl
  no_room fuel (c ∷ fmt) args = refl

  loop_piece :
      (fuel room : ℕ) (p : Piece F) (fmt : ByteList) (args : List (Arg F)) (t u : ByteList)
      → Puts doubles
          (λ r f x. format_round doubles r (first_of p) (rest_of p ++ f) (args_of p ++ x))
          t
      → ((fuel room : ℕ)
          → length fmt ≤ fuel
          → format_loop doubles fuel room fmt args ≡ some (take room u))
      → length (format_of p ++ fmt) ≤ fuel
      → format_loop doubles fuel room (format_of p ++ fmt) (args_of p ++ args)
        ≡ some (take room (t ++ u))
  loop_piece fuel zero p fmt args t u puts writes l =
      no_room fuel (format_of p ++ fmt) (args_of p ++ args)
  loop_piece zero (suc room) p fmt args t u puts writes l = absurd (omega (arith, l))
  loop_piece (suc fuel) (suc room) p fmt args t u puts writes l =
      loop_round fuel room (first_of p) (rest_of p ++ fmt) fmt (args_of p ++ args) args t u
        (puts room fmt args)
        (writes fuel (suc room - length t) (omega (arith, l, length-append (rest_of p) fmt)))

  loop-Renders :
      (ps : List (Piece F))
      → All IsPiece ps
      → (t : ByteList) × AllRender doubles ps t
        × ((fuel room : ℕ)
            → length (formats ps) ≤ fuel
            → format_loop doubles fuel room (formats ps) (all_args ps) ≡ some (take room t))
  unfolding format_loop
  loop-Renders [] h = ([], refl, λ fuel room l. ap some (sym (nothing room)))
  loop-Renders (p ∷ ps) (h, hs) =
      let (u, renders, puts) = piece-Puts p h in
      let (v, others, writes) = loop-Renders ps hs in
      (
        u ++ v,
        (u, v, renders, others, refl),
        λ fuel room. loop_piece fuel room p (formats ps) (all_args ps) u v puts writes,
      )

  -- qc_vslprintf on a format that is made of pieces, with their arguments: it reads the whole format
  -- and writes the texts of the pieces one behind the other, cut only where the room ends.
  pub vslprintf-Renders :
      (ps : List (Piece F))
      → All IsPiece ps
      → (t : ByteList) × AllRender doubles ps t
        × ((room : ℕ) → vslprintf doubles room (formats ps) (all_args ps) ≡ some (take room t))
  unfolding vslprintf
  vslprintf-Renders ps h =
      let (t, renders, writes) = loop-Renders ps h in
      (t, renders, λ room. writes (length (formats ps)) room (omega arith))
