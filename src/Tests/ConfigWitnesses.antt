-- ===== src/Tests/ConfigWitnesses.antt =====
-- The theorems about the configuration, applied to a document that arms the daemon.
use chaos_forger.Prelude.{
  ◌≡◌, ◌≢◌, ◌↔◌, refl, ap, ◌∙◌, to_string, false, [], ◌∷◌, some, text, same, ok, pos, arith,
}
use chaos_forger.Json.{Json, boolean, find, lookup}
use chaos_forger.Config.{Config, kill}
use chaos_forger.Config.Words.{action_from_string, to_lower, trim, skip_blank, drop_blank}
use chaos_forger.Config.Words.Actions.{Spells, action_from_string_iff}
use chaos_forger.Config.Validate.{
  default_config, integer_in, optional, interval_seconds, chaos_probability, docker_socket,
  stop_timeout_seconds, dry_run, max_actions_per_cycle, max_actions_per_run, log_level, rule_name,
  rule_action, target_rule, target_rules, targets, unknown_keys, duplicate_rules, duplicates_of,
  missing_dry_run, settings, validate_config,
}
use chaos_forger.Config.Ranges.{InRange}
use chaos_forger.Config.Load.{validate_parsed, load_config, load_config-InRange, load_config_live}
use chaos_forger.Json.Parser.{parse}
use chaos_forger.Json.Parser.Writer.{print_onto, members_onto, items_onto}
use chaos_forger.Json.Strings.RoundTrip.{short}
use chaos_forger.Tests.Documents.{document, document_text, parsed_back}
use chaos_forger.Docker.Paths.{stop_container_path}
use chaos_forger.Docker.Paths.Wire.{stop_target}
use chaos_forger.Startup.Wiring.{stop_container_path-validate_config}
use chaos_forger.Tests.Example.{hundredths, hundredths-CastLaws, full_id, full_id-IsContainerId}

action_from_string_iff_example :
    (action_from_string (text " Kill ") ≡ ok kill) ↔ Spells (text " Kill ") kill
action_from_string_iff_example = action_from_string_iff (text " Kill ") kill

defaults : Config hundredths
unfolding default_config
defaults = default_config hundredths 30

armed : Config hundredths
unfolding defaults default_config text
armed = record defaults {
  dry_run = false;
  stop_timeout_seconds = pos 30;
  targets = record { name_match = text "web"; action = kill } ∷ [];
}

accepted : validate_config hundredths document defaults ≡ ok (armed, [])
unfolding validate_config settings optional find lookup same text integer_in interval_seconds
    chaos_probability docker_socket stop_timeout_seconds dry_run max_actions_per_cycle
    max_actions_per_run log_level rule_name rule_action target_rule target_rules targets
    unknown_keys duplicate_rules duplicates_of missing_dry_run trim skip_blank drop_blank to_lower
    action_from_string defaults default_config armed
accepted = refl

defaults-InRange : InRange hundredths defaults
unfolding defaults default_config text same
defaults-InRange = record {
  interval_ok = omega arith;
  not_below = refl;
  not_above = refl;
  socket_ok = λ gone. cc;
  stop_timeout_ok = omega arith;
  cycle_ok = omega arith;
  run_ok = omega arith;
  level_ok = refl;
  names_ok = tt;
}

loaded : load_config hundredths (text "config.json") (ok document_text) defaults ≡ ok (armed, [])
unfolding load_config validate_parsed document_text trim skip_blank drop_blank text print_onto
    members_onto items_onto short to_string
loaded = ap (validate_parsed hundredths (text "config.json") defaults) parsed_back ∙ accepted

load_config-InRange_example : InRange hundredths armed × (armed.targets ≢ [])
load_config-InRange_example =
    load_config-InRange hundredths hundredths-CastLaws (text "config.json") document_text defaults
      armed [] defaults-InRange loaded

load_config_live_example :
    (root : Json hundredths) × (parse hundredths document_text ≡ ok root)
    × (find hundredths root (text "dry_run") ≡ some (boolean false))
load_config_live_example =
    load_config_live hundredths (text "config.json") document_text defaults armed []
      (unfold defaults default_config in refl) loaded (unfold armed in refl)

stop_container_path-validate_config_example :
    stop_container_path full_id armed.stop_timeout_seconds
    ≡ some (stop_target full_id armed.stop_timeout_seconds)
stop_container_path-validate_config_example =
    stop_container_path-validate_config hundredths hundredths-CastLaws document defaults armed []
      full_id defaults-InRange accepted full_id-IsContainerId
