-- ===== src/Tests/PartWitnesses.antt =====
-- The theorems about discovery, the budget, the roller, the request targets, the shutdown flag and
-- the log, at concrete inputs.
use chaos_forger.Prelude.{
  ℕ, ◌≡◌, ◌↔◌, ◌⊎◌, inr, refl, true, List, [], ◌∷◌, ◌++◌, length, arith, Bytes, text, pos,
}
use chaos_forger.Docker.Paths.{is_valid_container_id}
use chaos_forger.Docker.Paths.Wire.{
  IsContainerId, AllVisible, kill_target, is_valid_container_id_iff, kill_container_path_iff,
  request_targets_visible,
}
use chaos_forger.Discovery.{contains_substring, match_containers}
use chaos_forger.Discovery.Occurs.{Occurs, contains_substring_iff}
use chaos_forger.Discovery.FirstMatch.{Selects, match_containers-Selects}
use chaos_forger.Chaos.Budget.{action_budget}
use chaos_forger.Chaos.Budget.Bounds.{length-action_budget_limited}
use chaos_forger.Shutdown.{StopReason, signal, internal, initial, wait_for_stop}
use chaos_forger.Shutdown.Latch.{request_all, Unset, request_first_wins, wait_for_stop_lem}
use chaos_forger.Log.{debug, error, Call, set_level, logged}
use chaos_forger.Tests.Example.{fleet, full_id, full_id-IsContainerId, web_rule, db_rule}

match_containers-Selects_example :
    Selects (web_rule ∷ db_rule ∷ []) fleet (match_containers fleet (web_rule ∷ db_rule ∷ []))
match_containers-Selects_example = match_containers-Selects fleet (web_rule ∷ db_rule ∷ [])

contains_substring_iff_example :
    (contains_substring (text "my-web-1") (text "web") ≡ true)
    ↔ Occurs (text "web") (text "my-web-1")
contains_substring_iff_example = contains_substring_iff (text "my-web-1") (text "web")

length-action_budget_limited_example :
    length (action_budget {A = ℕ} (b'a' ∷ b'b' ∷ b'c' ∷ []) (pos 5) (pos 4) (pos 2)) ≡ 2
length-action_budget_limited_example =
    length-action_budget_limited (b'a' ∷ b'b' ∷ b'c' ∷ []) (pos 5) 4 2 (omega arith)

is_valid_container_id_iff_example : (is_valid_container_id full_id ≡ true) ↔ IsContainerId full_id
is_valid_container_id_iff_example = is_valid_container_id_iff full_id

request_targets_visible_example : AllVisible (kill_target full_id)
request_targets_visible_example =
    request_targets_visible full_id (pos 10) (kill_target full_id) (
      inr ((kill_container_path_iff full_id (kill_target full_id)).1 (full_id-IsContainerId, refl)))

request_first_wins_example :
    request_all (signal ∷ internal ∷ []) initial ≡ record { state = true; reason = signal }
request_first_wins_example = request_first_wins signal (internal ∷ [])

wait_for_stop_lem_example :
    let ended = wait_for_stop (internal ∷ signal ∷ []) initial in
    (made : List StopReason) × (internal ∷ signal ∷ [] ≡ made ++ ended.1)
    × (ended.0 ≡ request_all made initial)
    × Unset initial made
    × ((ended.0.state ≡ true) ⊎ (ended.1 ≡ []))
wait_for_stop_lem_example = wait_for_stop_lem (internal ∷ signal ∷ []) initial

-- A message that tries to forge a second line.
abbrev forged : Bytes
forged = b'a' ∷ b'\r' ∷ b'\n' ∷ b'b' ∷ []

abbrev noon : Bytes
noon = b'1' ∷ b'2' ∷ []

abbrev log_calls : List Call
log_calls = set_level error ∷ logged noon debug forged ∷ logged noon error forged ∷ []
