-- ===== src/Log/Calls.antt =====
-- What the backend writes for any sequence of calls.
use chaos_forger.Prelude.{ℕ, ◌+◌, ◌≡◌, List, [], ◌∷◌, ◌++◌, Bytes, if◌then◌else◌}
use chaos_forger.Log.{LogLevel, error, Written, Call, set_level, logged}
use chaos_forger.Log.Safe.{IsOneLine}

abbrev pub IsStamped : Call → Type 0
IsStamped (set_level lvl) = Unit
IsStamped (logged stamp lvl msg) = IsOneLine stamp

-- One line, with its end.
abbrev pub IsLine : Written → Type 0
IsLine w = (body : Bytes) × (w.line ≡ body ++ b'\n' ∷ []) × IsOneLine body

abbrev pub error_weight : LogLevel → ℕ
error_weight error = 1
error_weight _ = 0

abbrev pub errors : List Call → ℕ
errors [] = 0
errors (set_level lvl ∷ more) = errors more
errors (logged stamp lvl msg ∷ more) = error_weight lvl + errors more

abbrev pub lines_to_stderr : List Written → ℕ
lines_to_stderr [] = 0
lines_to_stderr (w ∷ more) = (if w.to_stderr then 1 else 0) + lines_to_stderr more
