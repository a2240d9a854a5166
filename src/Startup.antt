-- ===== src/Startup.antt =====
-- The log level at start-up: `log_level_from_env` and `apply_log_level` of main.cpp.
pub mod Wiring
use chaos_forger.Prelude.{
  ◌≡◌, Bool, [], ◌∷◌, ◌++◌, Option, none, some, Bytes, text, same, if◌then◌else◌, Result, ok, err,
  map, tolower,
}
use chaos_forger.Log.{LogLevel, debug, info, warn, error}

-- The argument is what `getenv` returned; `none` is the result false.
unfoldable pub log_level_from_env : Option Bytes → Option Bytes
log_level_from_env none = none
log_level_from_env (some []) = none
log_level_from_env (some (c ∷ cs)) = some (map tolower (c ∷ cs))

-- The level that is set.
unfoldable pub apply_log_level : Bytes → Result LogLevel
apply_log_level lvl =
    if same lvl (text "debug")
    then ok debug
    else if same lvl (text "info")
    then ok info
    else if same lvl (text "warn")
    then ok warn
    else if same lvl (text "error")
    then ok error
    else err (text "unknown log level '" ++ (lvl ++ text "'"))
