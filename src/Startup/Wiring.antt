-- ===== src/Startup/Wiring.antt =====
-- What main.cpp and the engine do with an accepted configuration does not fail over its values.
use chaos_forger.Prelude.{
  ◌≡◌, refl, true, Bool-cases, inl, inr, List, Bytes, text, same, some, ok, arith,
}
use chaos_forger.Double.{Double, CastLaws}
use chaos_forger.Json.{Json}
use chaos_forger.Log.{LogLevel, debug, info, warn, error}
use chaos_forger.Config.{Config}
use chaos_forger.Config.Validate.{is_level, validate_config}
use chaos_forger.Config.Ranges.{InRange, validate_config-InRange}
use chaos_forger.Docker.Paths.{stop_container_path}
use chaos_forger.Docker.Paths.Wire.{IsContainerId, stop_target, stop_container_path_iff}
use chaos_forger.Startup.{apply_log_level}

module _ (d : Double) (laws : CastLaws d) where
  apply_known_level :
      (lvl : Bytes) → is_level d lvl ≡ true → (l : LogLevel) × (apply_log_level lvl ≡ ok l)
  unfolding apply_log_level
  apply_known_level lvl h = elim (Bool-cases (same lvl (text "debug"))) [
    | inl a ↦ (debug, rw a)
    | inr a ↦ elim (Bool-cases (same lvl (text "info"))) [
      | inl b ↦ (info, rw (a, b))
      | inr b ↦ elim (Bool-cases (same lvl (text "warn"))) [
        | inl c ↦ (warn, rw (a, b, c))
        | inr c ↦ (error, ground (arith, a, b, c))
      ]
    ]
  ]

  -- The log level of an accepted configuration can be applied.
  pub apply_log_level-validate_config :
      (root : Json d) (cfg set : Config d) (warnings : List Bytes)
      → InRange d cfg
      → validate_config d root cfg ≡ ok (set, warnings)
      → (lvl : LogLevel) × (apply_log_level set.log_level ≡ ok lvl)
  apply_log_level-validate_config root cfg set warnings h e =
      apply_known_level set.log_level
        (validate_config-InRange d laws root cfg set warnings h e).0.level_ok

  -- With the stop time-out of an accepted configuration, every well-formed container id gives a
  -- stop request target: the documented one.
  pub stop_container_path-validate_config :
      (root : Json d) (cfg set : Config d) (warnings : List Bytes) (id : Bytes)
      → InRange d cfg
      → validate_config d root cfg ≡ ok (set, warnings)
      → IsContainerId id
      → stop_container_path id set.stop_timeout_seconds
        ≡ some (stop_target id set.stop_timeout_seconds)
  stop_container_path-validate_config root cfg set warnings id h e valid =
      let (low, high) =
        (validate_config-InRange d laws root cfg set warnings h e).0.stop_timeout_ok in
      (stop_container_path_iff id set.stop_timeout_seconds _).1 (valid, low, high, refl)
