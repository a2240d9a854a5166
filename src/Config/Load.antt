-- ===== src/Config/Load.antt =====
-- `load_config` of src/config.cpp. The argument is what opening and reading the file gives: its
-- bytes, or the text of `strerror(errno)`.
use chaos_forger.Prelude.{
  ◌≡◌, ◌≢◌, refl, true, false, List, [], ◌++◌, some, Bytes, text, is_empty, if◌then◌else◌, if_cases,
  Result, ok, err,
}
use chaos_forger.Double.{Double, CastLaws}
use chaos_forger.Json.{Json, boolean, find}
use chaos_forger.Json.Parser.{parse}
use chaos_forger.Config.{Config}
use chaos_forger.Config.Words.{trim, quoted}
use chaos_forger.Config.Validate.{validate_config}
use chaos_forger.Config.Ranges.{InRange, validate_config-InRange}
use chaos_forger.Config.SafeDefault.{validate_config_live}

module _ (d : Double) where
  unfoldable pub validate_parsed :
      Bytes → Config d → Result (Json d) → Result (Config d × List Bytes)
  validate_parsed path cfg (err e) =
      err (text "JSON parse error in " ++ (quoted path ++ (text ": " ++ e)))
  validate_parsed path cfg (ok root) = validate_config d root cfg

  unfoldable pub load_config : Bytes → Result Bytes → Config d → Result (Config d × List Bytes)
  unfolding validate_parsed
  load_config path (err e) cfg =
      err (text "cannot open config file " ++ (quoted path ++ (text ": " ++ e)))
  load_config path (ok contents) cfg =
      if is_empty (trim contents)
      then err (text "config file " ++ (quoted path ++ text " is empty"))
      else validate_parsed path cfg (parse d contents)

  -- A configuration that is loaded was read from a document of the file.
  abbrev Read : Bytes → Config d → Config d × List Bytes → Type 0
  Read contents cfg r =
      (root : Json d) × (parse d contents ≡ ok root) × (validate_config d root cfg ≡ ok r)

  validate_parsed-Read :
      (path contents : Bytes) (cfg : Config d) (r : Config d × List Bytes) (p : Result (Json d))
      → parse d contents ≡ p
      → validate_parsed path cfg p ≡ ok r
      → Read contents cfg r
  unfolding validate_parsed
  validate_parsed-Read path contents cfg r (err e) h k = cc
  validate_parsed-Read path contents cfg r (ok root) h k = (root, h, k)

  load_config-Read :
      (path contents : Bytes) (cfg : Config d) (r : Config d × List Bytes)
      → load_config path (ok contents) cfg ≡ ok r
      → Read contents cfg r
  unfolding load_config
  load_config-Read path contents cfg r =
      if_cases (λ x. x ≡ ok r → Read contents cfg r) (is_empty (trim contents)) (λ _ e. cc)
        (λ _ e. validate_parsed-Read path contents cfg r (parse d contents) refl e)

  -- Starting from the dry-run default, a configuration that is loaded is live only if the file's
  -- document has the member "dry_run" with the value false.
  pub load_config_live :
      (path contents : Bytes) (cfg set : Config d) (warnings : List Bytes)
      → cfg.dry_run ≡ true
      → load_config path (ok contents) cfg ≡ ok (set, warnings)
      → set.dry_run ≡ false
      → (root : Json d) × (parse d contents ≡ ok root)
        × (find d root (text "dry_run") ≡ some (boolean false))
  load_config_live path contents cfg set warnings h e live =
      let (root, read, valid) = load_config-Read path contents cfg (set, warnings) e in
      (root, read, validate_config_live d root cfg set warnings h valid live)

  -- Where casts behave as their laws say, from a configuration in range, such as the default one, `load_config` yields only
  -- configurations in range, with at least one target and no target without a name.
  pub load_config-InRange :
      CastLaws d
      → (path contents : Bytes) (cfg set : Config d) (warnings : List Bytes) → InRange d cfg
      → load_config path (ok contents) cfg ≡ ok (set, warnings)
      → InRange d set × (set.targets ≢ [])
  load_config-InRange laws path contents cfg set warnings h e =
      let (root, _, valid) = load_config-Read path contents cfg (set, warnings) e in
      validate_config-InRange d laws root cfg set warnings h valid
