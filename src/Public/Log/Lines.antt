-- ===== src/Public/Log/Lines.antt =====
-- The lines of the log file, for formats that are made of pieces.
use quick_comm.Base.{
  ℕ, if_cases, not, not-false, ◌≢◌, ◌⊎◌, true, Option, none, ==_iff, ◌+◌, ◌-◌, ◌≤◌, ◌<◌, ◌≡◌, refl,
  sym, ap, ◌∙◌, false, inl, inr, List, [], ◌∷◌, ◌++◌, All, some, ltb, leb, ◌==◌, Bool-cases, length,
  length-append, take, take_all, codes, arith, if◌then◌else◌,
}
use quick_comm.Base.Int.{ℤ, pos, negsuc, ltb_ℤ}
use quick_comm.Public.Format.{ByteList, Doubles, vslprintf}
use quick_comm.Public.Format.Digits.{Spells, temp_digits-Spells}
use quick_comm.Public.Format.Room.{take-append}
use quick_comm.Public.Format.Pieces.{Piece, IsPiece, AllRender, formats, all_args}
use quick_comm.Public.Format.Pieces.Render.{vslprintf-Renders}
use quick_comm.Public.Format.Pieces.Lengths.{few_digits}
use quick_comm.Public.Log.{
  Write, written, no_space, failed, System, QcLog, Answer, max_error_str, err_levels, left_str,
  log_errno, with_errno, clamp, line_of, header, core_line, log_error_core, write_line,
}
use quick_comm.Public.Log.Header.{WellClocked, IsHeader, header-IsHeader}

-- (number: reason), with a blank in front
abbrev pub IsNote : System → ℕ → ByteList → Type 0
IsNote w err note =
    (ds : ByteList) × Spells 0 err ds
    × (note ≡ (codes " (" ++ (ds ++ codes ": ")) ++ (w.strerror err ++ codes ")"))

-- A text with the note behind it if that fits the rest of the buffer, or with nothing of it
abbrev pub noted : ℕ → ByteList → ByteList → ByteList
noted err note text =
    if err == 0
    then text
    else text ++ (if ltb (length note) (max_error_str - length text) then note else [])

-- The level is one that is logged, and the opposite.
abbrev pub IsLogged : ℤ → ℕ → Type 0
IsLogged (pos n) level = level ≤ n
IsLogged (negsuc n) level = ⊥

abbrev pub IsQuiet : ℤ → ℕ → Type 0
IsQuiet (pos n) level = n < level
IsQuiet (negsuc n) level = Unit

-- One write() to the descriptor, and a second one of the same line to the standard error just when
-- the first fails for another reason than a full device and the descriptor is not that one.
abbrev pub IsTried : Option ℕ → Answer → ByteList → List Write → Type 0
IsTried fd answer line writes =
    let first : Write = record { to_fd = fd; bytes = line } in
    let second : Write = record { to_fd = some 2; bytes = line } in
    ((answer ≡ failed) × (fd ≢ some 2) × (writes ≡ first ∷ second ∷ []))
    ⊎ (((answer ≢ failed) ⊎ (fd ≡ some 2)) × (writes ≡ first ∷ []))

-- The calls of write() for a line
abbrev pub IsWritten : QcLog → ℕ → Answer → ByteList → List Write → Type 0
IsWritten log level answer line writes =
    (IsQuiet log.log_level level × (writes ≡ []))
    ⊎ (IsLogged log.log_level level × IsTried log.fd answer line writes)

abbrev open_log : Option ℕ → QcLog
open_log fd = record { log_level = pos 0; fd = fd }

tried :
    (fd : Option ℕ) (answer : Answer) (line : ByteList)
    → IsTried fd answer line (write_line (open_log fd) 0 answer line)
tried fd written line = inr (inl (λ e. cc e), refl)
tried fd no_space line = inr (inl (λ e. cc e), refl)
tried none failed line = inl (refl, (λ e. cc e), refl)
tried (some fd) failed line =
    if_cases (IsTried (some fd) failed line) (not (fd == 2)) _ _
      (λ e. inl (refl, (λ same. let q : fd ≡ 2 = cc same in ground (arith, e, q)), refl))
      (λ e. inr (inr (ap some ((==_iff fd 2).0 (not-false _ e))), refl))

quiet : (level : ℤ) (n : ℕ) → ltb_ℤ level (pos n) ≡ true → IsQuiet level n
quiet (pos k) n e = ground (arith, e)
quiet (negsuc k) n e = tt

loud : (level : ℤ) (n : ℕ) → ltb_ℤ level (pos n) ≡ false → IsLogged level n
loud (pos k) n e = ground (arith, e)
loud (negsuc k) n e = absurd (ground (arith, e))

write_line-IsWritten :
    (log : QcLog) (level : ℕ) (answer : Answer) (line : ByteList)
    → IsWritten log level answer line (write_line log level answer line)
write_line-IsWritten log level answer line =
    if_cases (IsWritten log level answer line) (ltb_ℤ log.log_level (pos level)) _ _
      (λ e. inl (quiet log.log_level level e, refl))
      (λ e. inr (loud log.log_level level e, tried log.fd answer line))

left_str-Spells :
    (err : ℕ)
    → err < 100000
    → (ds : ByteList) × Spells 0 err ds × (left_str err ≡ some (codes " (" ++ (ds ++ codes ": ")))
unfolding left_str
left_str-Spells err h =
    let (ds, e, spells) = temp_digits-Spells err 0 (omega (arith, h)) in
    let few = few_digits 4 err ds spells (omega (arith, h)) in
    let fits : leb 10 (length (codes " (" ++ (ds ++ codes ": "))) ≡ false =
      ground (arith, few, length-append ds (codes ": ")) in
    (ds, spells, rw e (simp fits refl))

fitting-note :
    (info left : ByteList) (room : ℕ)
    → let size = length info + (length left + 1) in
      let note = left ++ (info ++ codes ")") in
      (if ltb size room then some note else some []) ≡ some (if ltb size room then note else [])
fitting-note info left room = elim (Bool-cases (ltb (length info + (length left + 1)) room)) [
  | inl fits ↦ simp fits refl
  | inr full ↦ simp full refl
]

log_errno-eq :
    (w : System) (room err : ℕ) (left : ByteList)
    → left_str err ≡ some left
    → let note = left ++ (w.strerror err ++ codes ")") in
      log_errno w room err ≡ some (if ltb (length note) room then note else [])
unfolding log_errno
log_errno-eq w room err left e =
    let info = w.strerror err in
    let note = left ++ (info ++ codes ")") in
    let size : length info + (length left + 1) ≡ length note =
      omega (arith, length-append left (info ++ codes ")"), length-append info (codes ")")) in
    rw e (fitting-note info left room ∙ ap (λ n. some (if ltb n room then note else [])) size)

with_errno-noted :
    (w : System) (err : ℕ) (left text : ByteList)
    → left_str err ≡ some left
    → with_errno w err text ≡ some (noted err (left ++ (w.strerror err ++ codes ")")) text)
with_errno-noted w err left text e = elim (Bool-cases (err == 0)) [
  | inl none_yet ↦ simp none_yet refl
  | inr error ↦ simp error (rw (log_errno-eq w (max_error_str - length text) err left e) refl)
]

clamp-eq : (text : ByteList) → clamp text ≡ take 2046 text
unfolding clamp
clamp-eq text = elim (Bool-cases (leb 2047 (length text))) [
  | inl long ↦ simp long refl
  | inr short ↦ simp short (sym (take_all 2046 text (ground (arith, short))))
]

front-take :
    (room : ℕ) (front t : ByteList)
    → length front ≤ room
    → front ++ take (room - length front) t ≡ take room (front ++ t)
front-take room front t h =
    ap (λ f. f ++ take (room - length front) t) (sym (take_all room front h))
    ∙ sym (take-append room front t)

module _ {F : Type 0} (doubles : Doubles F) (w : System) (level err : ℕ) (ps : List (Piece F)) where
  core_line-eq :
      (front text note : ByteList)
      → header doubles w level ≡ some front
      → vslprintf doubles (max_error_str - length front) (formats ps) (all_args ps) ≡ some text
      → with_errno w err (front ++ text) ≡ some note
      → core_line doubles w level err (formats ps) (all_args ps) ≡ some (line_of note)
  unfolding core_line
  core_line-eq front text note e f g = rw e (rw f (rw g refl))

  logged :
      (log : QcLog) (answer : Answer) (front t left : ByteList)
      → length front ≤ 44
      → header doubles w level ≡ some front
      → ((room : ℕ) → vslprintf doubles room (formats ps) (all_args ps) ≡ some (take room t))
      → left_str err ≡ some left
      → let note = left ++ (w.strerror err ++ codes ")") in
        log_error_core doubles w log answer level err (formats ps) (all_args ps)
        ≡ some (
            write_line log level answer
              (take 2046 (noted err note (take max_error_str (front ++ t))) ++ (b'\n' ∷ [])))
  unfolding log_error_core
  logged log answer front t left short made writes e =
      let note = left ++ (w.strerror err ++ codes ")") in
      let room = max_error_str - length front in
      let line =
        core_line-eq front (take room t) (noted err note (front ++ take room t)) made (writes room)
          (with_errno-noted w err left (front ++ take room t) e) in
      let cut = front-take max_error_str front t (omega (arith, short)) in
      rw line (
        ap (λ x. some (write_line log level answer (x ++ (b'\n' ∷ []))))
          (clamp-eq (noted err note (front ++ take room t))
            ∙ ap (λ x. take 2046 (noted err note x)) cut))

  -- qc_log_error_core, for a level that has a name, an errno of five digits at most and a format that
  -- is made of pieces: the line is the header and the text, as far as the buffer of 2048 bytes goes,
  -- then, where an error is given and the note on it fits the rest of the buffer, the note, all of it
  -- cut to 2046 bytes, then a newline. So a line that comes to 2047 bytes with its note loses the `)`
  -- of the note. The line is written to the log's descriptor only if the level is logged, and then a
  -- second time, to the standard error, just when that write() fails otherwise than with ENOSPC and
  -- the log is not the standard error.
  pub log_error_core-Logs :
      (log : QcLog) (answer : Answer)
      → WellClocked w
      → level < length err_levels
      → err < 100000
      → All IsPiece ps
      → (front : ByteList) × (t : ByteList) × (note : ByteList) × (writes : List Write) × IsHeader
          doubles w level front
        × AllRender doubles ps t
        × IsNote w err note
        × (log_error_core doubles w log answer level err (formats ps) (all_args ps) ≡ some writes)
        × IsWritten log level answer
            (take 2046 (noted err note (take max_error_str (front ++ t))) ++ (b'\n' ∷ []))
            writes
  log_error_core-Logs log answer v h k ips =
      let (front, is_header, short, made) = header-IsHeader doubles w level v h in
      let (t, renders, writes) = vslprintf-Renders doubles ps ips in
      let (ds, spells, left) = left_str-Spells err k in
      let note = (codes " (" ++ (ds ++ codes ": ")) ++ (w.strerror err ++ codes ")") in
      (
        front,
        t,
        note,
        write_line log level answer
            (take 2046 (noted err note (take max_error_str (front ++ t))) ++ (b'\n' ∷ [])),
        is_header,
        renders,
        (ds, spells, refl),
        logged log answer front t (codes " (" ++ (ds ++ codes ": ")) short made writes left,
        write_line-IsWritten log level answer _,
      )
