-- ===== src/Config/SafeDefault.antt =====
-- The safe default: no configuration is live unless it says so.
use chaos_forger.Prelude.{
  ℕ, ◌≡◌, refl, sym, subst, ◌∙◌, true, false, not, ◌||◌, ◌⊎◌, List, suc, Option, none, some, inl,
  inr, Bytes, text, is_empty, if_cases, Option-cases, Result, ok, err, ◌>>=◌, Yields, Yields-bind,
  Yields-next,
}
use chaos_forger.Double.{Double}
use chaos_forger.Json.{Json, Items, nil, cons, boolean, number, string, array, object, find}
use chaos_forger.Config.{Config}
use chaos_forger.Config.Words.{to_lower, trim}
use chaos_forger.Config.Validate.{
  integer_in, Block, optional, interval_seconds, chaos_probability, docker_socket,
  stop_timeout_seconds, dry_run, max_actions_per_cycle, max_actions_per_run, is_level, log_level,
  target_rule, target_rules, targets, settings, validate_config,
}

module _ (d : Double) where
  -- The configuration is in dry-run mode, or the document asks for the contrary.
  abbrev Asked : Json d → Config d → Type 0
  Asked root c = (c.dry_run ≡ true) ⊎ (find d root (text "dry_run") ≡ some (boolean false))

  abbrev Quiet : Block d → Type 0
  Quiet block = (v : Json d) (c : Config d) → Yields (λ s. s.dry_run ≡ c.dry_run) (block v c)

  interval_seconds-Quiet : Quiet (interval_seconds d)
  unfolding interval_seconds
  interval_seconds-Quiet v c = elim (Option-cases (integer_in d 1 86400 v)) [
    | inl e ↦ rw (e, Yields) tt
    | inr (n, e) ↦ rw (e, Yields) refl
  ]

  stop_timeout_seconds-Quiet : Quiet (stop_timeout_seconds d)
  unfolding stop_timeout_seconds
  stop_timeout_seconds-Quiet v c = elim (Option-cases (integer_in d 1 600 v)) [
    | inl e ↦ rw (e, Yields) tt
    | inr (n, e) ↦ rw (e, Yields) refl
  ]

  max_actions_per_cycle-Quiet : Quiet (max_actions_per_cycle d)
  unfolding max_actions_per_cycle
  max_actions_per_cycle-Quiet v c = elim (Option-cases (integer_in d 1 1000 v)) [
    | inl e ↦ rw (e, Yields) tt
    | inr (n, e) ↦ rw (e, Yields) refl
  ]

  max_actions_per_run-Quiet : Quiet (max_actions_per_run d)
  unfolding max_actions_per_run
  max_actions_per_run-Quiet v c = elim (Option-cases (integer_in d 0 1000000 v)) [
    | inl e ↦ rw (e, Yields) tt
    | inr (n, e) ↦ rw (e, Yields) refl
  ]

  chaos_probability-Quiet : Quiet (chaos_probability d)
  unfolding chaos_probability
  chaos_probability-Quiet (number v) c =
      if_cases (Yields (λ s. s.dry_run ≡ c.dry_run)) (d.lt v d.zero || d.lt d.one v) (λ _. tt)
        (λ _. refl)
  chaos_probability-Quiet _ c = tt

  docker_socket-Quiet : Quiet (docker_socket d)
  unfolding docker_socket
  docker_socket-Quiet (string s) c =
      if_cases (Yields (λ s. s.dry_run ≡ c.dry_run)) (is_empty s) (λ _. tt) (λ _. refl)
  docker_socket-Quiet _ c = tt

  log_level-Quiet : Quiet (log_level d)
  unfolding log_level
  log_level-Quiet (string s) c =
      if_cases (Yields (λ s. s.dry_run ≡ c.dry_run)) (not (is_level d (to_lower (trim s))))
        (λ _. tt) (λ _. refl)
  log_level-Quiet _ c = tt

  Asked-kept :
      (root : Json d) (c : Config d) (m : Result (Config d))
      → Asked root c
      → Yields (λ s. s.dry_run ≡ c.dry_run) m
      → Yields (Asked root) m
  Asked-kept root c (ok s) (inl h) e = inl (e ∙ h)
  Asked-kept root c (ok s) (inr h) e = inr h
  Asked-kept root c (err message) h e = tt

  optional-Asked :
      (key : Bytes) (block : Block d)
      → Quiet block
      → (root : Json d) (c : Config d) → Asked root c
      → Yields (Asked root) (optional d key block root c)
  unfolding optional
  optional-Asked key block quiet root c h = elim (Option-cases (find d root key)) [
    | inl e ↦ rw (e, Yields) h
    | inr (v, e) ↦ rw (e, Yields) (Asked-kept root c (block v c) h (quiet v c))
  ]

  dry_run-Asked :
      (root : Json d) (c : Config d)
      → Asked root c
      → Yields (Asked root) (optional d (text "dry_run") (dry_run d) root c)
  unfolding optional dry_run
  dry_run-Asked root c h = by_value (find d root (text "dry_run")) refl
    where
      by_value :
          (o : Option (Json d))
          → find d root (text "dry_run") ≡ o
          → Yields (Asked root) (elim o [ none ↦ ok c | some v ↦ dry_run d v c ])
      by_value none e = h
      by_value (some (boolean true)) e = inl refl
      by_value (some (boolean false)) e = inr e
      by_value (some _) e = tt

  block-Asked :
      (key : Bytes) (block : Block d) (root : Json d) (m : Result (Config d))
      → Quiet block
      → Yields (Asked root) m
      → Yields (Asked root) (m >>= optional d key block root)
  block-Asked key block root m quiet h =
      Yields-bind (Asked root) (Asked root) m (optional d key block root) h
        (optional-Asked key block quiet root)

  settings-Asked :
      (root : Json d) (c : Config d) → Asked root c → Yields (Asked root) (settings d root c)
  unfolding settings
  settings-Asked root c h = block-Asked _ (log_level d) root _ log_level-Quiet (
      block-Asked _ (max_actions_per_run d) root _ max_actions_per_run-Quiet (
        block-Asked _ (max_actions_per_cycle d) root _ max_actions_per_cycle-Quiet (
          Yields-bind (Asked root) (Asked root) _ (optional d (text "dry_run") (dry_run d) root)
            (block-Asked _ (stop_timeout_seconds d) root _ stop_timeout_seconds-Quiet (
              block-Asked _ (docker_socket d) root _ docker_socket-Quiet (
                block-Asked _ (chaos_probability d) root _ chaos_probability-Quiet
                  (optional-Asked _ (interval_seconds d) interval_seconds-Quiet root c h))))
            (dry_run-Asked root))))

  target_rules-Asked :
      (root : Json d) (i : ℕ) (items : Items d) (c : Config d)
      → Asked root c
      → Yields (Asked root) (target_rules d i items c)
  unfolding target_rules
  target_rules-Asked root i nil c h = h
  target_rules-Asked root i (cons entry more) c h =
      Yields-next (Asked root) (target_rule d _ entry) _
        (λ rule. target_rules-Asked root (suc i) more _ h)

  targets-Asked :
      (root : Json d) (o : Option (Json d)) (c : Config d)
      → Asked root c
      → Yields (Asked root) (targets d o c)
  unfolding targets
  targets-Asked root none c h = tt
  targets-Asked root (some (array (cons entry more))) c h =
      target_rules-Asked root 0 (cons entry more) c h
  targets-Asked root (some _) c h = tt

  validate_config-Asked :
      (root : Json d) (c : Config d)
      → Asked root c
      → Yields (λ r. Asked root r.0) (validate_config d root c)
  unfolding validate_config
  validate_config-Asked (object members) c h =
      let root = object members in
      Yields-bind (Asked root) (λ r. Asked root r.0) (settings d root c) _ (settings-Asked root c h)
        (λ set asked.
          Yields-bind (Asked root) (λ r. Asked root r.0) (targets d _ set) _
            (targets-Asked root _ set asked) (λ full f. f))
  validate_config-Asked _ c h = tt

  -- Starting from the dry-run default, an accepted configuration is live only if the document has
  -- the member "dry_run" with the value false.
  pub validate_config_live :
      (root : Json d) (cfg set : Config d) (warnings : List Bytes)
      → cfg.dry_run ≡ true
      → validate_config d root cfg ≡ ok (set, warnings)
      → set.dry_run ≡ false
      → find d root (text "dry_run") ≡ some (boolean false)
  validate_config_live root cfg set warnings h e live =
      asked (subst (Yields (λ r. Asked root r.0)) e (validate_config-Asked root cfg (inl h)))
    where
      asked : Asked root set → find d root (text "dry_run") ≡ some (boolean false)
      asked (inl dry) = cc (sym dry ∙ live)
      asked (inr said) = said
