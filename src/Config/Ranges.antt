-- ===== src/Config/Ranges.antt =====
-- A configuration that `validate_config` accepts is within the documented ranges.
use chaos_forger.Prelude.{
  ℕ, suc, ◌<◌, ◌≡◌, ◌≢◌, ap, sym, subst, ◌∙◌, true, false, not, ◌||◌, List, [], ◌∷◌, ◌++◌, Option,
  none, some, inl, inr, Bytes, ltb, is_empty, if_cases, Option-cases, arith, All, All-append, ℤ,
  pos, ◌≤ℤ◌, Result, ok, ◌>>=◌, Yields, Yields-bind, Yields-next,
}
use chaos_forger.Double.{Double, CastLaws}
use chaos_forger.Json.{Json, Items, nil, cons, boolean, number, string, array, object, find}
use chaos_forger.Config.{TargetRule, Config}
use chaos_forger.Config.Words.{to_lower, trim}
use chaos_forger.Config.Validate.{
  integer_in, Block, optional, interval_seconds, chaos_probability, docker_socket,
  stop_timeout_seconds, dry_run, max_actions_per_cycle, max_actions_per_run, is_level, log_level,
  rule_name, rule_action, target_rule, target_rules, targets, settings, validate_config,
}

-- The closed interval of two literals.
abbrev pub Between : ℕ → ℕ → ℤ → Type 0
Between lo hi n = (pos lo ≤ℤ n) × (n ≤ℤ pos hi)

module _ (d : Double) where
  open d use {Carrier, lt, zero, one, is_integral, literal, to_integer}

  -- What config.hpp says of the fields.
  pub record InRange (c : Config d) : Type 0 where
    pub interval_ok : Between 1 86400 c.interval_seconds
    pub not_below : lt c.chaos_probability d.zero ≡ false
    pub not_above : lt one c.chaos_probability ≡ false
    pub socket_ok : c.docker_socket ≢ []
    pub stop_timeout_ok : Between 1 600 c.stop_timeout_seconds
    pub cycle_ok : Between 1 1000 c.max_actions_per_cycle
    pub run_ok : Between 0 1000000 c.max_actions_per_run
    pub level_ok : is_level d c.log_level ≡ true
    pub names_ok : All (λ r. r.name_match ≢ []) c.targets

  module _ (laws : CastLaws d) where
    Between-of_integer_in :
        (lo hi : ℕ) (v : Json d) (n : ℤ)
        → lo < 2147483648
        → hi < 2147483648
        → integer_in d lo hi v ≡ some n
        → Between lo hi n
    unfolding integer_in
    Between-of_integer_in lo hi (number v) n small small' h =
        let whole : is_integral v ≡ true = ground arith in
        let low : lt v (literal lo) ≡ false = ground arith in
        let high : lt (literal hi) v ≡ false = ground arith in
        let (k, cast, exact) = laws.to_integer-between lo hi v small small' whole low high in
        let least : ltb k lo ≡ false = sym (exact lo small).0 ∙ low in
        let most : ltb hi k ≡ false = sym (exact hi small').1 ∙ high in
        let value : to_integer v ≡ n = ground arith in
        subst (Between lo hi) (sym cast ∙ value) (ground arith)
    Between-of_integer_in lo hi _ n _ _ h = cc

    abbrev Keeps : Block d → Type 0
    Keeps block = (v : Json d) (c : Config d) → InRange c → Yields InRange (block v c)

    optional-Keeps : (key : Bytes) (block : Block d) → Keeps block → Keeps (optional d key block)
    unfolding optional
    optional-Keeps key block keeps root c h = elim (Option-cases (find d root key)) [
      | inl e ↦ rw (e, Yields) h
      | inr (v, e) ↦ rw (e, Yields) (keeps v c h)
    ]

    interval_seconds-Keeps : Keeps (interval_seconds d)
    unfolding interval_seconds
    interval_seconds-Keeps v c h = elim (Option-cases (integer_in d 1 86400 v)) [
      | inl e ↦ rw (e, Yields) tt
      | inr (n, e) ↦
          rw (e, Yields)
            (ground (arith, Between-of_integer_in 1 86400 v n (omega arith) (omega arith) e))
    ]

    stop_timeout_seconds-Keeps : Keeps (stop_timeout_seconds d)
    unfolding stop_timeout_seconds
    stop_timeout_seconds-Keeps v c h = elim (Option-cases (integer_in d 1 600 v)) [
      | inl e ↦ rw (e, Yields) tt
      | inr (n, e) ↦
          rw (e, Yields)
            (ground (arith, Between-of_integer_in 1 600 v n (omega arith) (omega arith) e))
    ]

    max_actions_per_cycle-Keeps : Keeps (max_actions_per_cycle d)
    unfolding max_actions_per_cycle
    max_actions_per_cycle-Keeps v c h = elim (Option-cases (integer_in d 1 1000 v)) [
      | inl e ↦ rw (e, Yields) tt
      | inr (n, e) ↦
          rw (e, Yields)
            (ground (arith, Between-of_integer_in 1 1000 v n (omega arith) (omega arith) e))
    ]

    max_actions_per_run-Keeps : Keeps (max_actions_per_run d)
    unfolding max_actions_per_run
    max_actions_per_run-Keeps v c h = elim (Option-cases (integer_in d 0 1000000 v)) [
      | inl e ↦ rw (e, Yields) tt
      | inr (n, e) ↦
          rw (e, Yields)
            (ground (arith, Between-of_integer_in 0 1000000 v n (omega arith) (omega arith) e))
    ]

    chaos_probability-Keeps : Keeps (chaos_probability d)
    unfolding chaos_probability
    chaos_probability-Keeps (number v) c h =
        if_cases (Yields InRange) (lt v d.zero || lt one v) (λ _. tt) (λ e. ground arith)
    chaos_probability-Keeps _ c h = tt

    docker_socket-Keeps : Keeps (docker_socket d)
    unfolding docker_socket
    docker_socket-Keeps (string s) c h =
        if_cases (Yields InRange) (is_empty s) (λ _. tt)
          (λ e. let filled : s ≢ [] = (λ gone. cc (e, ap is_empty gone)) in ground (arith, filled))
    docker_socket-Keeps _ c h = tt

    dry_run-Keeps : Keeps (dry_run d)
    unfolding dry_run
    dry_run-Keeps (boolean b) c h = ground arith
    dry_run-Keeps _ c h = tt

    log_level-Keeps : Keeps (log_level d)
    unfolding log_level
    log_level-Keeps (string s) c h =
        if_cases (Yields InRange) (not (is_level d (to_lower (trim s)))) (λ _. tt)
          (λ e. ground arith)
    log_level-Keeps _ c h = tt

    block-Keeps :
        (key : Bytes) (block : Block d) (root : Json d) (m : Result (Config d))
        → Keeps block
        → Yields InRange m
        → Yields InRange (m >>= optional d key block root)
    block-Keeps key block root m keeps h =
        Yields-bind InRange InRange m (optional d key block root) h
          (optional-Keeps key block keeps root)

    settings-Keeps : Keeps (settings d)
    unfolding settings
    settings-Keeps root c h = block-Keeps _ (log_level d) root _ log_level-Keeps (
        block-Keeps _ (max_actions_per_run d) root _ max_actions_per_run-Keeps (
          block-Keeps _ (max_actions_per_cycle d) root _ max_actions_per_cycle-Keeps (
            block-Keeps _ (dry_run d) root _ dry_run-Keeps (
              block-Keeps _ (stop_timeout_seconds d) root _ stop_timeout_seconds-Keeps (
                block-Keeps _ (docker_socket d) root _ docker_socket-Keeps (
                  block-Keeps _ (chaos_probability d) root _ chaos_probability-Keeps
                    (optional-Keeps _ (interval_seconds d) interval_seconds-Keeps root c h)))))))

    abbrev Named : TargetRule → Type 0
    Named r = r.name_match ≢ []

    rule_name-filled :
        (place : Bytes) (o : Option (Json d)) → Yields (λ n. n ≢ []) (rule_name d place o)
    unfolding rule_name
    rule_name-filled place none = tt
    rule_name-filled place (some (string s)) =
        if_cases (Yields (λ n. n ≢ [])) (is_empty (trim s)) (λ _. tt)
          (λ e gone. cc (e, ap is_empty gone))
    rule_name-filled place (some _) = tt

    target_rule-Named : (place : Bytes) (entry : Json d) → Yields Named (target_rule d place entry)
    unfolding target_rule
    target_rule-Named place (object members) =
        Yields-bind (λ n. n ≢ []) Named (rule_name d place _) _ (rule_name-filled place _)
          (λ name filled. Yields-next Named (rule_action d place _) _ (λ action. filled))
    target_rule-Named place _ = tt

    -- At least one rule, and everything in range.
    abbrev Full : Config d → Type 0
    Full c = InRange c × (c.targets ≢ [])

    snoc-filled : (rules : List TargetRule) (rule : TargetRule) → rules ++ rule ∷ [] ≢ []
    snoc-filled [] rule gone = cc
    snoc-filled (r ∷ rules) rule gone = cc

    with_rule :
        (rule : TargetRule) (c : Config d)
        → InRange c
        → Named rule
        → Full (record c { targets = c.targets ++ rule ∷ [] })
    with_rule rule c h named =
        let all = All-append Named c.targets (rule ∷ []) h.names_ok (named, tt) in
        (ground (arith, all), snoc-filled c.targets rule)

    target_rules-Full :
        (i : ℕ) (items : Items d) (c : Config d) → Full c → Yields Full (target_rules d i items c)
    unfolding target_rules
    target_rules-Full i nil c h = h
    target_rules-Full i (cons entry more) c h =
        Yields-bind Named Full (target_rule d _ entry) _ (target_rule-Named _ entry)
          (λ rule named. target_rules-Full (suc i) more _ (with_rule rule c h.0 named))

    targets-Full : (o : Option (Json d)) (c : Config d) → InRange c → Yields Full (targets d o c)
    unfolding targets target_rules
    targets-Full none c h = tt
    targets-Full (some (array (cons entry more))) c h =
        Yields-bind Named Full (target_rule d _ entry) _ (target_rule-Named _ entry)
          (λ rule named. target_rules-Full 1 more _ (with_rule rule c h named))
    targets-Full (some _) c h = tt

    validate_config-Full :
        (root : Json d) (c : Config d)
        → InRange c
        → Yields (λ r. Full r.0) (validate_config d root c)
    unfolding validate_config
    validate_config-Full (object members) c h =
        Yields-bind InRange (λ r. Full r.0) (settings d (object members) c) _
          (settings-Keeps (object members) c h)
          (λ set kept.
            Yields-bind Full (λ r. Full r.0) (targets d _ set) _ (targets-Full _ set kept)
              (λ full f. f))
    validate_config-Full _ c h = tt

    -- From a configuration in range, such as the default one, `validate_config` yields only
    -- configurations in range, with at least one target and no target without a name.
    pub validate_config-InRange :
        (root : Json d) (cfg set : Config d) (warnings : List Bytes)
        → InRange cfg
        → validate_config d root cfg ≡ ok (set, warnings)
        → InRange set × (set.targets ≢ [])
    validate_config-InRange root cfg set warnings h e =
        subst (Yields (λ r. Full r.0)) e (validate_config-Full root cfg h)
