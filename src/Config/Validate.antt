-- ===== src/Config/Validate.antt =====
-- `validate_config` of src/config.cpp: each key's block is a function that takes the configuration
-- so far. What a failed call leaves in `cfg` is not kept: its callers stop.
use chaos_forger.Prelude.{
  ℕ, suc, Bool, true, false, not, ◌||◌, ◌&&◌, List, [], ◌∷◌, ◌++◌, Option, none, some, Bytes, text,
  same, to_string, show_int, is_empty, if◌then◌else◌, ℤ, pos, Result, ok, err, ◌>>=◌,
}
use chaos_forger.Double.{Double}
use chaos_forger.Json.{
  Json, Items, Members, nil, cons, end, member, null, boolean, number, string, array, object, find,
}
use chaos_forger.Config.{Action, stop, kill, action_name, TargetRule, Config}
use chaos_forger.Config.Words.{to_lower, trim, quoted, action_from_string}

module _ (d : Double) where
  open d use {Carrier, lt, zero, one, is_integral, isfinite, literal, to_integer, general}

  -- The default member initializers; the argument is the literal 0.3.
  unfoldable pub default_config : Carrier → Config d
  default_config probability = record {
    interval_seconds = pos 5;
    chaos_probability = probability;
    docker_socket = text "/var/run/docker.sock";
    stop_timeout_seconds = pos 10;
    dry_run = true;
    max_actions_per_cycle = pos 1;
    max_actions_per_run = pos 0;
    log_level = text "info";
    targets = [];
  }

  unfoldable pub num : Carrier → Bytes
  num v = if is_integral v && isfinite v then show_int (to_integer v) else general v

  -- The tail of a message about a number.
  unfoldable pub got : Json d → Bytes
  got (number v) = text ", got " ++ num v
  got _ = []

  -- The check of an integer between two literals, and the cast.
  unfoldable pub integer_in : ℕ → ℕ → Json d → Option ℤ
  integer_in lo hi (number v) =
      if not (is_integral v) || (lt v (literal lo) || lt (literal hi) v)
      then none
      else some (to_integer v)
  integer_in lo hi _ = none

  abbrev pub Block : Type 0
  Block = Json d → Config d → Result (Config d)

  -- `if (const Json* v = root.find(key))` around a block.
  unfoldable pub optional : Bytes → Block → Block
  optional key block root cfg = elim (find d root key) [ none ↦ ok cfg | some v ↦ block v cfg ]

  unfoldable pub interval_seconds : Block
  interval_seconds v cfg = elim (integer_in 1 86400 v) [
    | none ↦ err (text "'interval_seconds' must be an integer in [1, 86400]" ++ got v)
    | some n ↦ ok (record cfg { interval_seconds = n })
  ]

  unfoldable pub chaos_probability : Block
  chaos_probability (number v) cfg =
      if lt v zero || lt one v
      then err (text "'chaos_probability' must be a number in [0.0, 1.0]" ++ got (number v))
      else ok (record cfg { chaos_probability = v })
  chaos_probability _ cfg = err (text "'chaos_probability' must be a number in [0.0, 1.0]")

  unfoldable pub docker_socket : Block
  docker_socket (string s) cfg =
      if is_empty s
      then err (text "'docker_socket' must be a non-empty string")
      else ok (record cfg { docker_socket = s })
  docker_socket _ cfg = err (text "'docker_socket' must be a non-empty string")

  unfoldable pub stop_timeout_seconds : Block
  stop_timeout_seconds v cfg = elim (integer_in 1 600 v) [
    | none ↦ err (text "'stop_timeout_seconds' must be an integer in [1, 600]" ++ got v)
    | some n ↦ ok (record cfg { stop_timeout_seconds = n })
  ]

  unfoldable pub dry_run : Block
  dry_run (boolean b) cfg = ok (record cfg { dry_run = b })
  dry_run _ cfg = err (text "'dry_run' can only be true or false")

  unfoldable pub max_actions_per_cycle : Block
  max_actions_per_cycle v cfg = elim (integer_in 1 1000 v) [
    | none ↦ err (text "'max_actions_per_cycle' must be an integer in [1, 1000]" ++ got v)
    | some n ↦ ok (record cfg { max_actions_per_cycle = n })
  ]

  unfoldable pub max_actions_per_run : Block
  max_actions_per_run v cfg = elim (integer_in 0 1000000 v) [
    | none ↦
        err
          (text "'max_actions_per_run' must be an integer in [0, 1000000] (0 = unlimited)" ++ got v)
    | some n ↦ ok (record cfg { max_actions_per_run = n })
  ]

  abbrev pub is_level : Bytes → Bool
  is_level lvl =
      same lvl (text "debug")
      || (same lvl (text "info") || (same lvl (text "warn") || same lvl (text "error")))

  unfoldable pub log_level : Block
  log_level (string s) cfg =
      let lvl = to_lower (trim s) in
      if not (is_level lvl)
      then err (text "'log_level' must be one of debug|info|warn|error, got " ++ quoted s)
      else ok (record cfg { log_level = lvl })
  log_level _ cfg = err (text "'log_level' must be a string (debug|info|warn|error)")

  -- The checks of a rule's two members; `place` is the `where` of the messages.
  unfoldable pub rule_name : Bytes → Option (Json d) → Result Bytes
  rule_name place none = err (place ++ text " is missing 'name_match'")
  rule_name place (some (string s)) =
      if is_empty (trim s)
      then err
          (place ++ text ".name_match must be a non-empty string (got an empty/whitespace string)")
      else ok (trim s)
  rule_name place (some _) = err (place ++ text ".name_match must be a non-empty string")

  unfoldable pub rule_action : Bytes → Option (Json d) → Result Action
  rule_action place none = err (place ++ text " is missing 'action'")
  rule_action place (some (string s)) = elim (action_from_string s) [
    | ok action ↦ ok action
    | err aerr ↦ err (place ++ (text ".action " ++ aerr))
  ]
  rule_action place (some _) = err (place ++ text ".action must be a string (\"stop\" or \"kill\")")

  unfoldable pub target_rule : Bytes → Json d → Result TargetRule
  target_rule place (object members) =
      rule_name place (find d (object members) (text "name_match")) >>= (λ name.
        rule_action place (find d (object members) (text "action"))
        >>= (λ action. ok (record { name_match = name; action = action })))
  target_rule place _ = err (place ++ text " must be an object with 'name_match' and 'action'")

  -- The loop over the rules, from index `i` on.
  unfoldable pub target_rules : ℕ → Items d → Config d → Result (Config d)
  target_rules i nil cfg = ok cfg
  target_rules i (cons entry more) cfg =
      target_rule (text "targets[" ++ (to_string i ++ text "]")) entry
      >>= (λ rule. target_rules (suc i) more (record cfg { targets = cfg.targets ++ rule ∷ [] }))

  unfoldable pub targets : Option (Json d) → Config d → Result (Config d)
  targets none cfg = err (
      text
        "'targets' is required: add at least one rule, e.g. \"targets\": [{\"name_match\": \"web-app\", \"action\": \"stop\"}]")
  targets (some (array (cons entry more))) cfg = target_rules 0 (cons entry more) cfg
  targets (some _) cfg = err (text "'targets' must be a non-empty array of rule objects")

  abbrev pub is_known : Bytes → Bool
  is_known key =
      same key (text "interval_seconds")
      || (same key (text "chaos_probability")
          || (same key (text "docker_socket")
              || (same key (text "stop_timeout_seconds")
                  || (same key (text "dry_run")
                      || (same key (text "max_actions_per_cycle")
                          || (same key (text "max_actions_per_run")
                              || (same key (text "log_level") || same key (text "targets"))))))))

  -- The WARN lines of the keys that are not known.
  unfoldable pub unknown_keys : Members d → List Bytes
  unknown_keys end = []
  unknown_keys (member key _ more) =
      let rest = unknown_keys more in
      if is_known key then rest else (text "config: ignoring unknown key " ++ quoted key) ∷ rest

  unfoldable pub same_action : Action → Action → Bool
  same_action stop stop = true
  same_action kill kill = true
  same_action _ _ = false

  -- The WARN lines of the rules that are given again: the inner loop, then both.
  unfoldable pub duplicates_of : TargetRule → List TargetRule → List Bytes
  duplicates_of rule [] = []
  duplicates_of rule (other ∷ more) =
      let rest = duplicates_of rule more in
      if same rule.name_match other.name_match && same_action rule.action other.action
      then (text "config: duplicate rule "
          ++ (quoted rule.name_match ++ (text " -> " ++ action_name rule.action)))
        ∷ rest
      else rest

  unfoldable pub duplicate_rules : List TargetRule → List Bytes
  duplicate_rules [] = []
  duplicate_rules (rule ∷ more) = duplicates_of rule more ++ duplicate_rules more

  unfoldable pub missing_dry_run : Option (Json d) → List Bytes
  missing_dry_run (some _) = []
  missing_dry_run none =
      text
        "config: 'dry_run' not set - defaulting to DRY-RUN mode (no strikes; set \"dry_run\": false to go live)"
      ∷ []

  -- The blocks of the keys, in order.
  unfoldable pub settings : Block
  settings root cfg =
      optional (text "interval_seconds") interval_seconds root cfg
      >>= optional (text "chaos_probability") chaos_probability root
      >>= optional (text "docker_socket") docker_socket root
      >>= optional (text "stop_timeout_seconds") stop_timeout_seconds root
      >>= optional (text "dry_run") dry_run root
      >>= optional (text "max_actions_per_cycle") max_actions_per_cycle root
      >>= optional (text "max_actions_per_run") max_actions_per_run root
      >>= optional (text "log_level") log_level root

  -- The configuration, and the WARN lines.
  unfoldable pub validate_config : Json d → Config d → Result (Config d × List Bytes)
  validate_config (object members) cfg =
      let root = object members in
      settings root cfg >>= (λ set. targets (find d root (text "targets")) set >>= (λ full. ok (
        full,
        missing_dry_run (find d root (text "dry_run"))
            ++ (unknown_keys members ++ duplicate_rules full.targets),
      )))
  validate_config null cfg = err (text "config root must be a JSON object (got null)")
  validate_config (array _) cfg = err (text "config root must be a JSON object (got array)")
  validate_config _ cfg = err (text "config root must be a JSON object (got scalar)")
