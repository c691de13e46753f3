-- ===== src/Public/Log/Tests.antt =====
-- A run of the log.
use quick_comm.Base.{ℕ, ◌≡◌, refl, List, [], ◌∷◌, ◌++◌, some, none, take, true, codes, arith}
use quick_comm.Base.Int.{pos}
use quick_comm.Public.Config.{Item, get_string, get_int_default}
use quick_comm.Public.Format.{Doubles, string, vslprintf, slprintf}
use quick_comm.Public.Format.Pieces.{Piece, text, literal, AllRender, formats, all_args}
use quick_comm.Public.Log.{
  Write, System, QcLog, written, failed, log_error_core, log_stderr, log_init, max_error_str,
}
use quick_comm.Public.Log.Header.{WellClocked, IsHeader}
use quick_comm.Public.Log.Lines.{IsNote, IsWritten, noted, log_error_core-Logs}

-- No double is logged.
no_doubles : Doubles ⊥
no_doubles = record {
  is_negative = λ f. true;
  negated = λ f. f;
  whole = λ f. 0;
  fraction = λ f ui64 scale. 0;
  whole-lt = λ f. omega arith;
  fraction-lt = λ f ui64 scale. omega arith;
}

abbrev evening : System
evening = record {
  year = 2025;
  month = 1;
  day = 8;
  hour = 20;
  minute = 50;
  second = 15;
  pid = 2037;
  strerror = λ err. codes "File exists";
  stack = 140_000_000_000_000;
}

abbrev log_file : QcLog
log_file = record { log_level = pos 8; fd = some 3 }

line :
    log_error_core no_doubles evening log_file written 3 17
      (codes "open() \"%s\" failed")
      (string (codes "a.log") ∷ [])
    ≡ some (
        record {
          to_fd = some 3;
          bytes =
              codes "2025/01/08 20:50:15 [crit] 2037: open() \"a.log\" failed (17: File exists)\n";
        }
        ∷ [])
unfolding log_error_core no_doubles vslprintf slprintf
line = refl

-- A text with a percent sign is read as a format again, and asks for an argument.
percent_in_text :
    log_stderr no_doubles evening log_file written 0 (codes "%s") (string (codes "100%d") ∷ [])
    ≡ none
unfolding log_stderr no_doubles vslprintf slprintf
percent_in_text = refl

evening-WellClocked : WellClocked evening
evening-WellClocked = record {
  years = omega arith;
  months = omega arith;
  days = omega arith;
  hours = omega arith;
  minutes = omega arith;
  seconds = omega arith;
  pids = omega arith;
  placed = omega arith;
}

abbrev pieces : List (Piece ⊥)
pieces = text (codes "a.log") ∷ literal b'!' ∷ []

log_error_core-Logs_example :
    (front : List ℕ) × (t : List ℕ) × (note : List ℕ) × (writes : List Write) × IsHeader no_doubles
      evening 3 front
    × AllRender no_doubles pieces t
    × IsNote evening 17 note
    × (log_error_core no_doubles evening log_file failed 3 17 (formats pieces) (all_args pieces)
        ≡ some writes)
    × IsWritten log_file 3 failed
        (take 2046 (noted 17 note (take max_error_str (front ++ t))) ++ (b'\n' ∷ []))
        writes
log_error_core-Logs_example =
    log_error_core-Logs no_doubles evening 3 17 pieces log_file failed evening-WellClocked
      (omega arith) (omega arith) (tt, ((cc), tt))

abbrev log_items : List Item
log_items = record { name = codes "LogLevel"; content = codes "8" } ∷ []

opens_default :
    log_init no_doubles evening log_items (some 3) 0 written
    ≡ some (codes "error.log", [], log_file)
unfolding log_init get_string get_int_default
opens_default = refl

-- Without a file the failure goes to the standard error only.
no_file :
    log_init no_doubles evening [] none 13 written
    ≡ some (
      codes "error.log",
      record {
        to_fd = some 2;
        bytes =
            codes
              "quickcomm: [alert] could not open error log file: open() \"error.log\" failed (13: File exists)\n";
      }
          ∷ [],
      record { log_level = pos 6; fd = none },
    )
unfolding log_init get_string get_int_default vslprintf
no_file = refl
