-- ===== src/Log.antt =====
-- include/forger/log.hpp and src/log.cpp: the logging backend. The clock and `strftime` enter
-- as the text of the stamp; a written line is a value, its stream a flag.
pub mod Safe
pub mod Calls
use chaos_forger.Prelude.{
  ℕ, ◌≡◌, refl, Bool, true, false, ◌||◌, List, [], ◌∷◌, ◌++◌, map, Option, none, some, Bytes, text,
  c_str, same, ◌==◌, leb, ltb, if◌then◌else◌,
}

pub data LogLevel : Type 0 where
  debug info warn error : LogLevel

-- The enumerators' values, by which levels are compared.
abbrev pub rank : LogLevel → ℕ
rank debug = 0
rank info = 1
rank warn = 2
rank error = 3

-- The argument is what `getenv` returned.
unfoldable pub level_from_env_or_default : Option Bytes → LogLevel
level_from_env_or_default none = info
level_from_env_or_default (some v) =
    if same v (text "debug")
    then debug
    else if same v (text "info")
    then info
    else if same v (text "warn")
    then warn
    else if same v (text "error")
    then error
    else info

unfoldable pub log_tag : LogLevel → Bytes
log_tag debug = text "DEBUG"
log_tag info = text "INFO"
log_tag warn = text "WARN"
log_tag error = text "ERROR"

unfoldable pub goes_to_stderr : LogLevel → Bool
goes_to_stderr lvl = leb (rank warn) (rank lvl)

abbrev pub is_line_break : ℕ → Bool
is_line_break c = c == b'\n' || c == b'\r'

-- The loop that builds `safe`.
unfoldable pub fold_breaks : Bytes → Bytes
fold_breaks [] = []
fold_breaks (c ∷ cs) = (if is_line_break c then b' ' else c) ∷ fold_breaks cs

pub record Written : Type 0 where
  pub to_stderr : Bool
  pub line : Bytes

-- "[%s] [%s] %s" of the stamp, the tag and the folded message.
unfoldable pub log_body : Bytes → LogLevel → Bytes → Bytes
log_body stamp lvl msg =
    b'[' ∷ (c_str stamp ++ (text "] [" ++ (log_tag lvl ++ (text "] " ++ c_str (fold_breaks msg)))))

-- `threshold` is the stored level, `stamp` the formatted time.
unfoldable pub log_line : LogLevel → Bytes → LogLevel → Bytes → Option Written
unfolding goes_to_stderr
log_line threshold stamp lvl msg =
    if ltb (rank lvl) (rank threshold)
    then none
    else some
        (record { to_stderr = goes_to_stderr lvl; line = log_body stamp lvl msg ++ b'\n' ∷ [] })

-- `Chaos_Forger_set_log_level` and `Chaos_Forger_log_level` on the stored level, which is an atomic.
abbrev pub set_log_level : LogLevel → LogLevel → LogLevel
set_log_level lvl threshold = lvl

abbrev pub log_level : LogLevel → LogLevel
log_level threshold = threshold

-- The calls that the program makes, in the order in which they pass the atomic or the mutex.
pub data Call : Type 0 where
  set_level : LogLevel → Call
  logged : Bytes → LogLevel → Bytes → Call  -- with the stamp

unfoldable pub run_calls : List Call → LogLevel → List Written
run_calls [] threshold = []
run_calls (set_level lvl ∷ more) threshold = run_calls more (set_log_level lvl threshold)
run_calls (logged stamp lvl msg ∷ more) threshold =
    let rest = run_calls more threshold in
    elim (log_line (log_level threshold) stamp lvl msg) [ none ↦ rest | some w ↦ w ∷ rest ]
