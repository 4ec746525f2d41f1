-- ===== src/Logger.antt =====
-- common/utils/logger.h and logger.cpp: the class Logger. The date of the clock, the milliseconds and
-- whether a file could be opened are arguments; the lines that a call writes are its result.
pub mod Filter
use usb_lib.Prelude.{
  ℕ, ◌+◌, ◌-◌, ◌%◌, List, [], ◌∷◌, ◌++◌, Bool, true, false, ◌||◌, not, Option, none, some, ◌==◌,
  ltb, if◌then◌else◌, length, drop, replicate,
}
use usb_lib.Words.{Bytes}
use usb_lib.Text.{codes, to_string}

pub data LogLevel : Type 0 where
  debug info warning error fatal : LogLevel

abbrev pub level_value : LogLevel → ℕ
level_value debug = 0
level_value info = 1
level_value warning = 2
level_value error = 3
level_value fatal = 4

-- `log_file` is the name of the file and whether its stream is open.
pub record Logger : Type 0 where
  pub log_level : LogLevel
  pub console_output : Bool
  pub log_file : Option (Bytes × Bool)

unfoldable pub logger : Logger
logger = record { log_level = info; console_output = true; log_file = none }

unfoldable pub set_log_level : Logger → LogLevel → Logger
set_log_level l level = record l { log_level = level }

unfoldable pub set_console_output : Logger → Bool → Logger
set_console_output l enable = record l { console_output = enable }

unfoldable pub set_log_file : Logger → Bytes → Bool → Logger
set_log_file l filename opened = record l { log_file = some (filename, opened) }

unfoldable pub get_log_level_string : LogLevel → Bytes
get_log_level_string debug = codes "DEBUG"
get_log_level_string info = codes "INFO"
get_log_level_string warning = codes "WARN"
get_log_level_string error = codes "ERROR"
get_log_level_string fatal = codes "FATAL"

-- `setfill('0')` and `setw(3)`.
abbrev fill3 : Bytes → Bytes
fill3 text = replicate (3 - length text) 48 ++ text

-- The time of a call: the text of `put_time`, and the milliseconds since the epoch.
pub record Clock : Type 0 where
  pub date : Bytes
  pub milliseconds : ℕ

unfoldable pub get_timestamp : Clock → Bytes
get_timestamp c = c.date ++ (46 ∷ fill3 (to_string (c.milliseconds % 1000)))

unfoldable pub log_line : Clock → LogLevel → Bytes → Bytes
unfolding get_timestamp get_log_level_string
log_line c level message =
    91 ∷ get_timestamp c ++ (codes "] [" ++ (get_log_level_string level ++ (codes "] " ++ message)))

-- Where a line goes to.
pub data Sink : Type 0 where
  console : Sink
  file : Bytes → Sink

abbrev to_file : Option (Bytes × Bool) → Bytes → List (Sink × Bytes)
to_file none line = []
to_file (some (name, opened)) line = if opened then (file name, line) ∷ [] else []

unfoldable pub log : Logger → Clock → LogLevel → Bytes → List (Sink × Bytes)
unfolding log_line
log l c level message =
    let line = log_line c level message in
    if ltb (level_value level) (level_value l.log_level)
    then []
    else (if l.console_output then (console, line) ∷ [] else []) ++ to_file l.log_file line

-- What is behind the last slash or backslash.
unfoldable pub has_slash : Bytes → Bool
has_slash [] = false
has_slash (c ∷ cs) = c == 47 || c == 92 || has_slash cs

unfoldable pub base_name : Bytes → Bytes
unfolding has_slash
base_name [] = []
base_name (c ∷ cs) =
    let rest = base_name cs in
    if has_slash cs then rest else if c == 47 || c == 92 then cs else c ∷ cs

abbrev pub located : Bytes → Bytes → ℕ → Bytes
located message filename line =
    message ++ (codes " (" ++ (filename ++ (58 ∷ to_string line ++ codes ")")))

-- The call that the macros make.
unfoldable pub log_at : Logger → Clock → LogLevel → Bytes → ℕ → Bytes → List (Sink × Bytes)
unfolding log base_name
log_at l c level source line message =
    if ltb (level_value level) (level_value l.log_level)
    then []
    else log l c level (located message (base_name source) line)
