-- ===== src/Public/Log.antt =====
-- public/qc_log.cc: the lines that the log writes. A function returns the write() calls that it
-- makes, and none where the code would leave an array, a format or its arguments. What the system
-- answers, the time, the process and the texts of strerror are arguments.
pub mod Header
pub mod Lines
mod Tests
use quick_comm.Base.{
  ℕ, ◌+◌, ◌-◌, ◌^◌, Bool, true, false, ◌&&◌, not, List, [], ◌∷◌, ◌++◌, Option, none, some, ltb, leb,
  ◌==◌, if◌then◌else◌, length, get_or, take, ◌>>=◌, codes,
}
use quick_comm.Base.Int.{ℤ, pos, ltb_ℤ}
use quick_comm.Public.Config.{Item, get_string, get_int_default}
use quick_comm.Public.Format.{
  ByteList, Doubles, Arg, word32, string, temp_digits, vslprintf, slprintf,
}

-- QC_MAX_ERROR_STR
abbrev pub max_error_str : ℕ
max_error_str = 2048

abbrev pub err_levels : List ByteList
err_levels =
    codes "stderr"
    ∷ codes "emerg"
    ∷ codes "alert"
    ∷ codes "crit"
    ∷ codes "error"
    ∷ codes "warn"
    ∷ codes "notice"
    ∷ codes "info"
    ∷ codes "debug"
    ∷ []

-- STDERR_FILENO and QC_LOG_STDERR
abbrev pub stderr_fileno : ℕ
stderr_fileno = 2

abbrev pub log_level_stderr : ℕ
log_level_stderr = 0

-- QC_LOG_NOTICE and QC_ERROR_LOG_PATH
abbrev pub log_notice : ℕ
log_notice = 6

abbrev pub error_log_path : ByteList
error_log_path = codes "error.log"

-- plogname
abbrev pub log_name : Option ByteList → ByteList
log_name none = error_log_path
log_name (some plogname) = plogname

abbrev pub is_some : Option ℕ → Bool
is_some none = false
is_some (some fd) = true

abbrev pub open_failed : ByteList
open_failed = codes "[alert] could not open error log file: open() \"%s\" failed"

-- qc_log_t; `fd` is none for -1.
pub record QcLog : Type 0 where
  pub log_level : ℤ
  pub fd : Option ℕ

-- What write() returns: a count, or -1 with ENOSPC or with another errno
pub data Answer : Type 0 where
  written no_space failed : Answer

-- Where a line is logged: the local time, qc_pid, strerror, and the address of strcurrtime
pub record System : Type 0 where
  pub year : ℕ
  pub month : ℕ
  pub day : ℕ
  pub hour : ℕ
  pub minute : ℕ
  pub second : ℕ
  pub pid : ℕ
  pub strerror : ℕ → ByteList
  pub stack : ℕ

-- sprintf(leftstr, " (%d: ", err), into ten bytes
unfoldable pub left_str : ℕ → Option ByteList
left_str err = do
  digits ← temp_digits err 0
  let text = codes " (" ++ (digits ++ codes ": ")
  if leb 10 (length text) then none else some text

-- qc_log_errno, on so much room: all of the text or nothing
unfoldable pub log_errno : System → ℕ → ℕ → Option ByteList
unfolding left_str
log_errno w room err = do
  left ← left_str err
  let info = w.strerror err
  let extralen = length left + 1
  if ltb (length info + extralen) room then some (left ++ (info ++ codes ")")) else some []

-- if (err) p = qc_log_errno(p, last, err), behind what is written already
abbrev pub with_errno : System → ℕ → ByteList → Option ByteList
with_errno w err text =
    if err == 0
    then some text
    else (log_errno w (max_error_str - length text) err >>= λ more. some (text ++ more))

-- if (p >= last - 1) p = last - 1 - 1, for the text up to p
unfoldable pub clamp : ByteList → ByteList
clamp text = if leb (max_error_str - 1) (length text) then take (max_error_str - 2) text else text

-- *p++ = '\n'
abbrev pub line_of : ByteList → ByteList
line_of text = clamp text ++ (b'\n' ∷ [])

pub record Write : Type 0 where
  pub to_fd : Option ℕ
  pub bytes : ByteList

-- while(1): nothing for a level that is not logged; a second try on the standard error
abbrev pub write_line : QcLog → ℕ → Answer → ByteList → List Write
write_line log level answer line =
    let first : Write = record { to_fd = log.fd; bytes = line } in
    let second : Write = record { to_fd = some stderr_fileno; bytes = line } in
    if ltb_ℤ log.log_level (pos level) then [] else elim answer [
      | written ↦ first ∷ []
      | no_space ↦ first ∷ []
      | failed ↦ elim log.fd [
        | none ↦ first ∷ second ∷ []
        | some fd ↦ if not (fd == stderr_fileno) then first ∷ second ∷ [] else first ∷ []
      ]
    ]

abbrev pub time_format : ByteList
time_format = codes "%4d/%02d/%02d %02d:%02d:%02d"

module _ {F : Type 0} (doubles : Doubles F) where
  -- strcurrtime, 40 zeroed bytes: the call has no end to stop at
  unfoldable pub curr_time : System → Option ByteList
  curr_time w = do
    text ← slprintf doubles w.stack (2 ^ 64 - 1) time_format (
        word32 w.year
        ∷ word32 w.month
        ∷ word32 w.day
        ∷ word32 w.hour
        ∷ word32 w.minute
        ∷ word32 w.second
        ∷ [])
    if leb 40 (length text) then none else some text

  -- Time, level and process
  unfoldable pub header : System → ℕ → Option ByteList
  unfolding curr_time
  header w level = do
    time ← curr_time w
    let known = ltb level (length err_levels)
    let name = get_or err_levels level []
    tag ←
        if known
        then vslprintf doubles (max_error_str - length time) (codes " [%s] ") (string name ∷ [])
        else none
    let text = time ++ tag
    process ← vslprintf doubles (max_error_str - length text) (codes "%P: ") (word32 w.pid ∷ [])
    some (text ++ process)

  -- qc_log_error_core, up to the loop around write()
  unfoldable pub core_line : System → ℕ → ℕ → ByteList → List (Arg F) → Option ByteList
  unfolding header log_errno clamp
  core_line w level err fmt args = do
    front ← header w level
    body ← vslprintf doubles (max_error_str - length front) fmt args
    text ← with_errno w err (front ++ body)
    some (line_of text)

  -- qc_log_error_core
  unfoldable pub log_error_core :
      System → QcLog → Answer → ℕ → ℕ → ByteList → List (Arg F) → Option (List Write)
  unfolding core_line
  log_error_core w log answer level err fmt args = do
    line ← core_line w level err fmt args
    some (write_line log level answer line)

  -- The text of qc_log_stderr, before the line end
  unfoldable pub stderr_text : System → ℕ → ByteList → List (Arg F) → Option ByteList
  unfolding log_errno
  stderr_text w err fmt args = do
    let front = codes "quickcomm: "
    body ← vslprintf doubles (max_error_str - length front) fmt args
    with_errno w err (front ++ body)

  -- if (qc_log.fd > STDERR_FILENO)
  abbrev pub has_file : QcLog → Bool
  has_file log = elim log.fd [ none ↦ false | some fd ↦ ltb stderr_fileno fd ]

  -- qc_log_stderr: what it wrote is the format for the log file, and there are no arguments.
  unfoldable pub log_stderr :
      System → QcLog → Answer → ℕ → ByteList → List (Arg F) → Option (List Write)
  unfolding stderr_text log_error_core clamp
  log_stderr w log answer err fmt args = do
    text ← stderr_text w err fmt args
    let first : Write = record { to_fd = some stderr_fileno; bytes = line_of text }
    if has_file log
        then (log_error_core w log answer log_level_stderr 0 (clamp text) [] >>= λ others.
            some (first ∷ others))
        else some (first ∷ [])

  -- qc_log_init: the name that open() is called with, the write() calls, and qc_log. `opened` is
  -- what open() answers, and errno on -1 is `err`.
  unfoldable pub log_init :
      System → List Item → Option ℕ → ℕ → Answer → Option (ByteList × List Write × QcLog)
  unfolding log_stderr
  log_init w items opened err answer = do
    let name = log_name (get_string (codes "Log") items)
    level ← get_int_default (codes "LogLevel") (pos log_notice) items
    let log : QcLog = record { log_level = level; fd = opened }
    let alert = log_stderr w log answer err open_failed (string name ∷ [])
    if is_some opened then some (name, [], log) else alert >>= λ writes. some (name, writes, log)
