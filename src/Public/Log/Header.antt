-- ===== src/Public/Log/Header.antt =====
-- The time, the level and the process in front of a log line, and the note on an errno: they fit
-- the arrays that they are made in.
use quick_comm.Base.{
  false, true, lt→ltb, ℕ, zero, suc, ◌+◌, ◌-◌, ◌^◌, ◌≤◌, ◌<◌, ◌≡◌, refl, ap, List, [], ◌∷◌, ◌++◌,
  All, some, ltb, leb, length, length-append, get_or, codes, arith,
}
use quick_comm.Public.Format.{ByteList, Doubles, slprintf, vslprintf}
use quick_comm.Public.Format.Pieces.{
  Piece, literal, int, pid, text, as_signed, AllRender, IsPiece, all_args,
}
use quick_comm.Public.Format.Pieces.Lengths.{
  Short, AllShort, short-Renders, literal-Short, small-ShowsSigned,
}
use quick_comm.Public.Log.{System, max_error_str, err_levels, curr_time, header}

-- A clock and a process that fit their fields, and an array strcurrtime that lies in memory.
pub record WellClocked (w : System) : Type 0 where
  pub years : w.year < 100000
  pub months : w.month < 100
  pub days : w.day < 100
  pub hours : w.hour < 100
  pub minutes : w.minute < 100
  pub seconds : w.second < 100
  pub pids : w.pid < 2 ^ 31
  pub placed : w.stack + 40 < 2 ^ 64

name-length :
    (names : List ByteList) (i k : ℕ)
    → All (λ name. length name ≤ k) names
    → length (get_or names i []) ≤ k
name-length [] i k h = omega arith
name-length (name ∷ names) zero k (h, hs) = h
name-length (name ∷ names) (suc i) k (h, hs) = name-length names i k hs

level_name-length : (level : ℕ) → length (get_or err_levels level []) ≤ 6
level_name-length level = name-length err_levels level 6 (
  omega arith,
  (
    omega arith,
    (
      omega arith,
      (omega arith, (omega arith, (omega arith, (omega arith, (omega arith, (omega arith, tt)))))),
    ),
  ),
)

abbrev two : ByteList
two = b'0' ∷ b'2' ∷ []

module _ {F : Type 0} (doubles : Doubles F) (w : System) where
  -- %4d/%02d/%02d %02d:%02d:%02d
  abbrev pub time_pieces : List (Piece F)
  time_pieces =
      int (b'4' ∷ []) as_signed w.year
      ∷ literal b'/'
      ∷ int two as_signed w.month
      ∷ literal b'/'
      ∷ int two as_signed w.day
      ∷ literal b' '
      ∷ int two as_signed w.hour
      ∷ literal b':'
      ∷ int two as_signed w.minute
      ∷ literal b':'
      ∷ int two as_signed w.second
      ∷ []

  -- [%s], with the name of the level
  abbrev pub level_pieces : ℕ → List (Piece F)
  level_pieces level =
      literal b' '
      ∷ literal b'['
      ∷ text (get_or err_levels level [])
      ∷ literal b']'
      ∷ literal b' '
      ∷ []

  -- %P:
  abbrev pub process_pieces : List (Piece F)
  process_pieces = pid [] w.pid ∷ literal b':' ∷ literal b' ' ∷ []

  two-Short : (n : ℕ) → n < 100 → Short doubles 2 (int two as_signed n)
  two-Short n h t =
      small-ShowsSigned doubles b'0' 2 1 n t (omega (arith, h)) (omega (arith, h)) (omega arith)

  time-AllShort : WellClocked w → AllShort doubles time_pieces 20
  time-AllShort v =
      let slash = literal-Short doubles b'/' in
      let colon = literal-Short doubles b':' in
      (
        5,
        omega arith,
        λ t.
            small-ShowsSigned doubles b' ' 4 4 w.year t (omega (arith, v.years))
              (omega (arith, v.years)) (omega arith),
        (
          1,
          omega arith,
          slash,
          (
            2,
            omega arith,
            two-Short w.month v.months,
            (
              1,
              omega arith,
              slash,
              (
                2,
                omega arith,
                two-Short w.day v.days,
                (
                  1,
                  omega arith,
                  literal-Short doubles b' ',
                  (
                    2,
                    omega arith,
                    two-Short w.hour v.hours,
                    (
                      1,
                      omega arith,
                      colon,
                      (
                        2,
                        omega arith,
                        two-Short w.minute v.minutes,
                        (1, omega arith, colon, (2, omega arith, two-Short w.second v.seconds, tt)),
                      ),
                    ),
                  ),
                ),
              ),
            ),
          ),
        ),
      )

  time-AllPieces : WellClocked w → All IsPiece time_pieces
  time-AllPieces v = (
    ((refl, tt), omega (arith, v.years)),
    (
      (cc),
      (
        ((refl, (refl, tt)), omega (arith, v.months)),
        (
          (cc),
          (
            ((refl, (refl, tt)), omega (arith, v.days)),
            (
              (cc),
              (
                ((refl, (refl, tt)), omega (arith, v.hours)),
                (
                  (cc),
                  (
                    ((refl, (refl, tt)), omega (arith, v.minutes)),
                    ((cc), (((refl, (refl, tt)), omega (arith, v.seconds)), tt)),
                  ),
                ),
              ),
            ),
          ),
        ),
      ),
    ),
  )

  -- The time in front of a line fits the 40 bytes of strcurrtime.
  pub curr_time-Renders :
      WellClocked w
      → (t : ByteList) × AllRender doubles time_pieces t
        × (length t ≤ 20)
        × (curr_time doubles w ≡ some t)
  unfolding curr_time slprintf
  curr_time-Renders v =
      let (t, renders, short, writes) =
        short-Renders doubles time_pieces 20 (time-AllPieces v) (time-AllShort v) in
      let fits : leb 40 (length t) ≡ false = ground (arith, short) in
      (
        t,
        renders,
        short,
        rw (writes (2 ^ 64 - 1 - w.stack) (omega (arith, v.placed))) (simp fits refl),
      )

  -- Time, level and process, as far as there is room for the last two
  abbrev pub IsHeader : ℕ → ByteList → Type 0
  IsHeader level front =
      (time : ByteList) × (tag : ByteList) × (process : ByteList) × AllRender doubles time_pieces
        time
      × AllRender doubles (level_pieces level) tag
      × AllRender doubles process_pieces process
      × (front ≡ (time ++ tag) ++ process)

  tag-AllShort : (level : ℕ) → AllShort doubles (level_pieces level) 10
  tag-AllShort level =
      let blank = literal-Short doubles b' ' in
      (
        1,
        omega arith,
        blank,
        (
          1,
          omega arith,
          literal-Short doubles b'[',
          (
            6,
            omega arith,
            (λ t e. omega (arith, ap length e, level_name-length level)),
            (1, omega arith, literal-Short doubles b']', (1, omega arith, blank, tt)),
          ),
        ),
      )

  process-AllShort : WellClocked w → AllShort doubles process_pieces 14
  process-AllShort v = (
    12,
    omega arith,
    (λ t. small-ShowsSigned doubles b' ' 0 11 w.pid t v.pids (omega (arith, v.pids)) (omega arith)),
    (1, omega arith, literal-Short doubles b':', (1, omega arith, literal-Short doubles b' ', tt)),
  )

  header-eq :
      (level : ℕ) (time tag process : ByteList)
      → ltb level (length err_levels) ≡ true
      → curr_time doubles w ≡ some time
      → vslprintf doubles
          (max_error_str - length time)
          (codes " [%s] ")
          (all_args (level_pieces level))
        ≡ some tag
      → vslprintf doubles
          (max_error_str - length (time ++ tag))
          (codes "%P: ")
          (all_args process_pieces)
        ≡ some process
      → header doubles w level ≡ some ((time ++ tag) ++ process)
  unfolding header
  header-eq level time tag process known e f g = rw e (simp known (rw f (rw g refl)))

  tag-Renders :
      (level : ℕ)
      → (t : ByteList) × AllRender doubles (level_pieces level) t
        × (length t ≤ 10)
        × ((room : ℕ)
            → 10 ≤ room
            → vslprintf doubles room (codes " [%s] ") (all_args (level_pieces level)) ≡ some t)
  tag-Renders level =
      short-Renders doubles (level_pieces level) 10 ((cc), ((cc), (tt, ((cc), ((cc), tt)))))
        (tag-AllShort level)

  process-Renders :
      WellClocked w
      → (t : ByteList) × AllRender doubles process_pieces t
        × (length t ≤ 14)
        × ((room : ℕ)
            → 14 ≤ room
            → vslprintf doubles room (codes "%P: ") (all_args process_pieces) ≡ some t)
  process-Renders v =
      short-Renders doubles process_pieces 14 ((tt, omega (arith, v.pids)), ((cc), ((cc), tt)))
        (process-AllShort v)

  sum-length :
      (time tag process : ByteList)
      → length time ≤ 20
      → length tag ≤ 10
      → length process ≤ 14
      → (10 ≤ max_error_str - length time)
        × (14 ≤ max_error_str - length (time ++ tag))
        × (length ((time ++ tag) ++ process) ≤ 44)
  sum-length time tag process h k l =
      let front = length-append time tag in
      (
        omega (arith, h),
        omega (arith, h, k, front),
        omega (arith, h, k, l, front, length-append (time ++ tag) process),
      )

  -- Every level that has a name gets its header, of 44 bytes at most.
  pub header-IsHeader :
      (level : ℕ)
      → WellClocked w
      → level < length err_levels
      → (front : ByteList) × IsHeader level front
        × (length front ≤ 44)
        × (header doubles w level ≡ some front)
  header-IsHeader level v h =
      let (time, times, time_short, made) = curr_time-Renders v in
      let (tag, tags, tag_short, tag_writes) = tag-Renders level in
      let (process, processes, process_short, process_writes) = process-Renders v in
      let (room, left, short) = sum-length time tag process time_short tag_short process_short in
      (
        (time ++ tag) ++ process,
        (time, tag, process, times, tags, processes, refl),
        short,
        header-eq level time tag process (lt→ltb level (length err_levels) h) made
            (tag_writes _ room) (process_writes _ left),
      )
