-- ===== src/Logger/Filter.antt =====
-- What a sequence of log calls writes to the console and to the file.
use usb_lib.Prelude.{
  ℕ, ◌≡◌, List, [], ◌∷◌, ◌++◌, Bool, false, none, some, ltb, if◌then◌else◌, arith,
}
use usb_lib.Words.{Bytes}
use usb_lib.Logger.{
  LogLevel, level_value, Logger, Clock, Sink, console, file, log_line, log, log_at, located,
  base_name,
}

-- The arguments of a call.
pub record Call : Type 0 where
  pub clock : Clock
  pub level : LogLevel
  pub source : Bytes
  pub line : ℕ
  pub message : Bytes

unfoldable pub log_all : Logger → List Call → List (Sink × Bytes)
log_all l [] = []
log_all l (c ∷ calls) = log_at l c.clock c.level c.source c.line c.message ++ log_all l calls

unfoldable pub console_lines : List (Sink × Bytes) → List Bytes
console_lines [] = []
console_lines ((console, line) ∷ out) = line ∷ console_lines out
console_lines ((file name, line) ∷ out) = console_lines out

unfoldable pub file_lines : List (Sink × Bytes) → List Bytes
file_lines [] = []
file_lines ((console, line) ∷ out) = file_lines out
file_lines ((file name, line) ∷ out) = line ∷ file_lines out

-- The lines of the calls that are at least as severe as the logger's level.
unfoldable pub severe_lines : Logger → List Call → List Bytes
severe_lines l [] = []
severe_lines l (c ∷ calls) =
    let rest = severe_lines l calls in
    if ltb (level_value c.level) (level_value l.log_level)
    then rest
    else log_line c.clock c.level (located c.message (base_name c.source) c.line) ∷ rest

abbrev pub has_open_file : Logger → Bool
has_open_file l = elim (l.log_file) [ none ↦ false | some (name, opened) ↦ opened ]

-- Lines that go to both places, with the tests of both.
Writes : Logger → List (Sink × Bytes) → List Bytes → Type 0
Writes l out lines =
    (console_lines out ≡ (if l.console_output then lines else []))
    × (file_lines out ≡ (if has_open_file l then lines else []))

log_at-Writes :
    (l : Logger) (c : Call) (out : List (Sink × Bytes)) (lines : List Bytes)
    → Writes l out lines
    → Writes l (log_at l c.clock c.level c.source c.line c.message ++ out) (
        if ltb (level_value c.level) (level_value l.log_level)
        then lines
        else log_line c.clock c.level (located c.message (base_name c.source) c.line) ∷ lines)
unfolding log_at log Writes console_lines file_lines
log_at-Writes l c out lines v = ground arith

nothing-Writes : (l : Logger) → Writes l [] []
unfolding Writes console_lines file_lines
nothing-Writes l = ground arith

-- Of a sequence of log calls the console gets, if output to it is on, exactly the lines of the calls
-- that are at least as severe as the logger's level, in order and each once; the log file gets the
-- same lines if it is open. Otherwise they get nothing.
pub log_all-severe_lines :
    (l : Logger) (calls : List Call)
    → (console_lines (log_all l calls) ≡ (if l.console_output then severe_lines l calls else []))
      × (file_lines (log_all l calls) ≡ (if has_open_file l then severe_lines l calls else []))
unfolding log_all severe_lines Writes
log_all-severe_lines l [] = nothing-Writes l
log_all-severe_lines l (c ∷ calls) =
    log_at-Writes l c (log_all l calls) (severe_lines l calls) (log_all-severe_lines l calls)
