-- ===== src/Engine/Tick.antt =====
-- One tick of src/engine.cpp: discover, match, roll, strike. A member function takes the engine
-- and returns it changed.
use chaos_forger.Prelude.{
  ℕ, ◌+◌, ◌-◌, Bool, true, false, ◌||◌, List, [], ◌∷◌, ◌++◌, none, some, Bytes, text, length, take,
  get_or, ltb, ◌==◌, if◌then◌else◌, pos, ltb_ℤ, show_int, to_string, Result, ok, err, is_empty,
}
use chaos_forger.Log.{debug, info, warn, error}
use chaos_forger.Config.{Action, stop, kill, action_name, TargetRule}
use chaos_forger.Docker.Api.{Container, Strike}
use chaos_forger.Discovery.{MatchedContainer, match_containers}
use chaos_forger.Chaos.Budget.{action_budget}
use chaos_forger.Chaos.Roller.{roll, bump}
use chaos_forger.Engine.State.{Platform, ChaosEngine, log, look, stopping}

-- `cfg_.targets[i]`. The index of a matched container is always in range (Discovery/FirstMatch), so
-- the default is not reached from `tick`.
unfoldable pub rule_at : List TargetRule → ℕ → TargetRule
rule_at targets i = get_or targets i (record { name_match = []; action = stop })

abbrev short_id : Container → Bytes
short_id c = take 12 c.id

-- The two names under which a container is logged.
abbrev pub display_name : Container → Bytes
display_name c = elim c.names [ [] ↦ short_id c | name ∷ _ ↦ name ]

abbrev pub strike_label : Container → Bytes
strike_label c = elim c.names [
  | [] ↦ short_id c
  | name ∷ _ ↦ name ++ (text " (" ++ (short_id c ++ text ")"))
]

module _ (p : Platform) where
  -- `should_strike`.
  unfoldable pub should_strike : ChaosEngine p → Bool × ChaosEngine p
  should_strike e =
      let counted = record e { counters = record (e.counters) { rolls = bump e.counters.rolls } } in
      elim e.forced_roll [
        | some fires ↦ (
          fires,
          log p debug
              (text "forced roll (test): -> " ++ (if fires then text "FIRES" else text "no chaos"))
              (record counted { forced_roll = none }),
        )
        | none ↦
            let (fires, rolled, roller) = roll p.double p.random e.roller in
            let line =
              text "dice roll: "
              ++ (p.double.fixed2 rolled
                  ++ ((if fires then text " < " else text " >= ")
                      ++ (p.double.fixed2 e.cfg.chaos_probability
                          ++ (if fires
                              then text " -> CHAOS FIRES"
                              else text " -> no chaos this cycle")))) in
            (fires, log p (if fires then info else debug) line (record counted { roller = roller }))
      ]

  -- The call of the client, after its log line.
  unfoldable pub send : Action → Container → ChaosEngine p → Strike × ChaosEngine p
  send stop c e =
      let line =
        text "strike: stop container "
        ++ (strike_label c
            ++ (text " id="
                ++ (c.id
                    ++ (text " (graceful, t="
                        ++ (show_int e.cfg.stop_timeout_seconds ++ text "s)"))))) in
      let (sent, client) = p.docker_api.stop_container c.id e.cfg.stop_timeout_seconds e.docker in
      (sent, record (log p info line e) { docker = client })
  send kill c e =
      let line =
        text "strike: kill container "
        ++ (strike_label c ++ (text " id=" ++ (c.id ++ text " (SIGKILL)"))) in
      let (sent, client) = p.docker_api.kill_container c.id e.docker in
      (sent, record (log p info line e) { docker = client })

  -- What a strike's outcome changes.
  unfoldable pub settle : Action → Container → Strike → ChaosEngine p → ChaosEngine p
  settle action c sent e =
      let of_target = action_name action ++ (text " target=" ++ strike_label c) in
      if sent.ok
      then log p info
          (text "strike ok: action="
            ++ (of_target ++ (text " http=" ++ to_string sent.http_status)))
          (record e {
            counters = record (e.counters) { strikes = bump e.counters.strikes };
            run_budget_used = e.run_budget_used + 1;
          })
      else if sent.http_status == 404 || sent.http_status == 409
      then log p warn
          (text "strike skipped: action="
            ++ (of_target
                ++ (text " http="
                    ++ (to_string sent.http_status ++ (text " reason=" ++ sent.err)))))
          e
      else log p error
          (text "strike failed: action="
            ++ (of_target
                ++ (text " http="
                    ++ ((if ltb 0 sent.http_status then to_string sent.http_status else text "none")
                        ++ (text " reason=" ++ sent.err)))))
          (record e { counters = record (e.counters) { errors = bump e.counters.errors } })

  -- The loop's body behind shutdown guard #3.
  unfoldable pub strike : MatchedContainer → ChaosEngine p → ChaosEngine p
  strike m e =
      let action = (rule_at e.cfg.targets m.rule_index).action in
      if e.dry_run
      then log p warn
          (text "Dry-run: would " ++ (action_name action ++ (text " " ++ strike_label m.container)))
          e
      else settle action m.container (send action m.container e).0 (send action m.container e).1

  unfoldable pub execute_strikes : List MatchedContainer → ChaosEngine p → ChaosEngine p
  execute_strikes [] e = e
  execute_strikes (m ∷ ms) e =
      let rest = execute_strikes ms (strike m (look p e)) in
      if stopping p e
      then log p warn (text "shutdown requested mid-sweep: remaining strike(s) cancelled")
          (look p e)
      else rest

  -- One INFO and one DEBUG line for each armed container.
  unfoldable pub log_matches : List MatchedContainer → ChaosEngine p → ChaosEngine p
  log_matches [] e = e
  log_matches (m ∷ ms) e =
      let rule = rule_at e.cfg.targets m.rule_index in
      log_matches ms (
        log p debug
          (text "matched rule: '"
            ++ (rule.name_match
                ++ (text "' -> "
                    ++ (action_name rule.action
                        ++ (text " (targets["
                            ++ (to_string m.rule_index ++ (text "]) id=" ++ m.container.id)))))))
          (log p info (text "Matched container " ++ display_name m.container) e))

  unfoldable pub log_quiet_tick : ℕ → ChaosEngine p → ChaosEngine p
  log_quiet_tick running_count e =
      log p info
        (text "tick: "
          ++ (to_string running_count
              ++ (text " running container(s), no match for "
                  ++ (to_string (length e.cfg.targets) ++ text " rule(s)"))))
        e

  -- The WARN line of a binding budget.
  unfoldable pub log_budget :
      List MatchedContainer → List MatchedContainer → ChaosEngine p → ChaosEngine p
  log_budget selected matched e =
      if ltb (length selected) (length matched)
      then log p warn
          (text "cycle budget: "
            ++ (to_string (length matched - length selected)
                ++ (text " of "
                    ++ (to_string (length matched)
                        ++ (text " armed target(s) held back (max_actions_per_cycle="
                            ++ (show_int e.cfg.max_actions_per_cycle
                                ++ (text ", run budget "
                                    ++ (to_string e.run_budget_used
                                        ++ (text "/"
                                            ++ ((if ltb_ℤ (pos 0) e.cfg.max_actions_per_run
                                                  then show_int e.cfg.max_actions_per_run
                                                  else text "unlimited")
                                                ++ text ")"))))))))))
          e
      else e

  -- The blast-radius cap and the sweep, once the gate has fired.
  unfoldable pub sweep : List MatchedContainer → ChaosEngine p → ChaosEngine p
  sweep matched e =
      let selected =
        action_budget matched e.cfg.max_actions_per_cycle e.cfg.max_actions_per_run
          (pos e.run_budget_used) in
      execute_strikes selected (log_budget selected matched e)

  -- From shutdown guard #2 on.
  unfoldable pub roll_and_strike : List MatchedContainer → ChaosEngine p → ChaosEngine p
  roll_and_strike matched e =
      if stopping p e
      then log p warn
          (text "shutdown requested mid-cycle: "
            ++ (to_string (length matched) ++ text " armed target(s) released without strikes"))
          (look p e)
      else if e.discover_only
      then look p e
      else let rolled = should_strike (look p e) in
        if rolled.0 then sweep matched rolled.1 else rolled.1

  -- Everything behind a discovery that succeeded.
  unfoldable pub act_on : List Container → ChaosEngine p → ChaosEngine p
  act_on running e =
      let matched = match_containers running e.cfg.targets in
      if is_empty matched
      then log_quiet_tick (length running) e
      else roll_and_strike matched (log_matches matched e)

  -- `tick` from the answer to the listing on: false if discovery failed.
  unfoldable pub discover : Result (List Container) → ChaosEngine p → Bool × ChaosEngine p
  discover (err message) e = (
    false,
    log p error (text "discovery failed: " ++ message)
        (record e { counters = record (e.counters) { errors = bump e.counters.errors } }),
  )
  discover (ok running) e = (
    true,
    act_on running (
        log p debug
          (text "tick: " ++ (to_string (length running) ++ text " running container(s) discovered"))
          e),
  )

  unfoldable pub tick : ChaosEngine p → Bool × ChaosEngine p
  tick e =
      if stopping p e
      then (
        true,
        log p debug (text "shutdown in progress: cycle skipped before discovery") (look p e),
      )
      else (let (listing, client) = p.docker_api.list_containers e.docker in
          discover listing (record (look p e) { docker = client }))
