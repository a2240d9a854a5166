-- ===== src/Config/Words.antt =====
-- The words of a configuration: `trim`, `to_lower`, `quoted` and `action_from_string` of
-- src/config.cpp.
pub mod Actions
use chaos_forger.Prelude.{
  ℕ, ◌≡◌, ◌↔◌, refl, Bool, false, ◌&&◌, ◌||◌, ◌==◌, [], ◌∷◌, ◌++◌, map, Bytes, text, same, same_iff,
  tolower, is_empty, if◌then◌else◌, Result, ok, err, arith,
}
use chaos_forger.Config.{Action, stop, kill, action_name}

unfoldable pub to_lower : Bytes → Bytes
to_lower s = map tolower s

-- One of the characters " \t\r\n".
abbrev pub is_blank : ℕ → Bool
is_blank c = c == b' ' || c == b'\t' || c == b'\r' || c == b'\n'

-- From the first character that is not blank on.
unfoldable pub skip_blank : Bytes → Bytes
skip_blank [] = []
skip_blank (c ∷ cs) = let rest = skip_blank cs in if is_blank c then rest else c ∷ cs

-- Up to the last character that is not blank.
unfoldable pub drop_blank : Bytes → Bytes
drop_blank [] = []
drop_blank (c ∷ cs) =
    let rest = drop_blank cs in if is_empty rest && is_blank c then [] else c ∷ rest

unfoldable pub trim : Bytes → Bytes
trim s = drop_blank (skip_blank s)

unfoldable pub quoted : Bytes → Bytes
quoted s = b'\'' ∷ (s ++ b'\'' ∷ [])

unfoldable pub action_from_string : Bytes → Result Action
action_from_string s =
    let v = to_lower (trim s) in
    if same v (text "stop")
    then ok stop
    else if same v (text "kill")
    then ok kill
    else err (text "must be \"stop\" or \"kill\", got " ++ quoted s)
