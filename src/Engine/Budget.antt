-- ===== src/Engine/Budget.antt =====
-- The budget in use, under one tick and under any number of ticks of src/engine.cpp.
use Prim.Native.Nat.{max}
use chaos_forger.Prelude.{
  ℕ, zero, suc, ◌+◌, ◌-◌, ◌≤◌, ◌<◌, ◌≡◌, refl, ◌∙◌, List, ap, length, arith, ℤ, pos, pos_part,
  negsuc,
}
use chaos_forger.Docker.Api.{Container}
use chaos_forger.Discovery.{MatchedContainer}
use chaos_forger.Chaos.Budget.{action_budget}
use chaos_forger.Chaos.Budget.Bounds.{length-action_budget_limited, length-action_budget_unlimited}
use chaos_forger.Engine.State.{Platform, ChaosEngine, look}
use chaos_forger.Engine.Tick.{sweep, roll_and_strike, act_on, tick}
use chaos_forger.Engine.Steps.{roll_and_strike_cases, act_on_cases, tick_cases}
use chaos_forger.Engine.Frame.{
  Within, Within-after, look-Within, should_strike-Within, execute_strikes-Within,
  log_matches-Within, log_budget-Within,
}

-- The cycle's cap as the budget reads it.
abbrev pub cycle_cap : ℤ → ℕ
cycle_cap c = max 1 (pos_part c)

length-action_budget-le :
    (ms : List MatchedContainer) (c r : ℤ) (u : ℕ)
    → length (action_budget ms c r (pos u)) ≤ cycle_cap c
length-action_budget-le ms c (pos zero) u =
    omega (arith, length-action_budget_unlimited ms c (pos 0) (pos u) (omega arith))
length-action_budget-le ms c (pos (suc r)) u =
    omega (arith, length-action_budget_limited ms c (suc r) u (omega arith))
length-action_budget-le ms c (negsuc r) u =
    omega (arith, length-action_budget_unlimited ms c (negsuc r) (pos u) (omega arith))

module _ (p : Platform) where
  -- What the run's budget leaves, if there is one.
  pub record Kept (e f : ChaosEngine p) : Type 0 where
    pub within : Within p (cycle_cap e.cfg.max_actions_per_cycle) e f
    pub run_kept :
        (r : ℕ)
        → 0 < r
        → e.cfg.max_actions_per_run ≡ pos r
        → e.run_budget_used ≤ r
        → f.run_budget_used ≤ r

  unspent : {e f : ChaosEngine p} → Within p 0 e f → Kept e f
  unspent w = record { within = ground arith; run_kept = λ r h k u. omega arith }

  after : {e f g : ChaosEngine p} → Within p 0 e f → Kept f g → Kept e g
  after w k = record {
    within = record {
      cfg_kept = k.within.cfg_kept ∙ w.cfg_kept;
      dry_run_kept = k.within.dry_run_kept ∙ w.dry_run_kept;
      discover_only_kept = k.within.discover_only_kept ∙ w.discover_only_kept;
      used_ge = omega arith;
      used_le = omega (arith, ap (λ c. cycle_cap c.max_actions_per_cycle) w.cfg_kept);
    };
    run_kept =
        λ r h q u. k.run_kept r h (ap (λ c. c.max_actions_per_run) w.cfg_kept ∙ q) (omega arith);
  }

  strikes-Kept :
      {e f : ChaosEngine p} (n : ℕ)
      → n ≤ cycle_cap e.cfg.max_actions_per_cycle
      → ((r : ℕ) → 0 < r → e.cfg.max_actions_per_run ≡ pos r → n ≤ r - e.run_budget_used)
      → Within p n e f
      → Kept e f
  strikes-Kept n cap left w = record {
    within = record {
      cfg_kept = w.cfg_kept;
      dry_run_kept = w.dry_run_kept;
      discover_only_kept = w.discover_only_kept;
      used_ge = w.used_ge;
      used_le = omega arith;
    };
    run_kept = λ r h q u. omega (arith, left r h q);
  }

  sweep-Kept : (ms : List MatchedContainer) (e : ChaosEngine p) → Kept e (sweep p ms e)
  unfolding sweep
  sweep-Kept ms e =
      let c = e.cfg.max_actions_per_cycle in
      let u = e.run_budget_used in
      let selected = action_budget ms c e.cfg.max_actions_per_run (pos u) in
      strikes-Kept (length selected) (length-action_budget-le ms c e.cfg.max_actions_per_run u)
        (λ r h q. rw q (omega (arith, length-action_budget_limited ms c r u h)))
        (Within-after p (length selected) (log_budget-Within p selected ms e)
          (execute_strikes-Within p selected _))

  roll_and_strike-Kept :
      (ms : List MatchedContainer) (e : ChaosEngine p) → Kept e (roll_and_strike p ms e)
  roll_and_strike-Kept ms e =
      roll_and_strike_cases p (Kept e) ms e (λ _ _ _. unspent (ground arith))
        (λ _ _. unspent (ground arith))
        (λ _ _.
          let rolled = Within-after p 0 (look-Within p e) (should_strike-Within p (look p e)) in
          (λ _. after rolled (sweep-Kept ms _), λ _. unspent rolled))

  act_on-Kept : (running : List Container) (e : ChaosEngine p) → Kept e (act_on p running e)
  act_on-Kept running e = act_on_cases p (Kept e) running e (
    (λ _ _ _. unspent (ground arith)),
    after (log_matches-Within p _ e) (roll_and_strike-Kept _ _),
  )

  tick-Kept : (e : ChaosEngine p) → Kept e (tick p e).1
  tick-Kept e =
      tick_cases p (Kept e) e (λ _ _ _. unspent (ground arith))
        (λ _. (
          (λ _ _ _ _. unspent (ground arith)),
          λ running _ _ _. after (ground arith) (act_on-Kept running _),
        ))

  unfoldable pub ticks : ℕ → ChaosEngine p → ChaosEngine p
  ticks zero e = e
  ticks (suc n) e = (tick p (ticks n e)).1

  -- One tick adds at most the cycle's cap to the budget in use, and changes no setting.
  pub tick-Frame :
      (e : ChaosEngine p)
      → let f = (tick p e).1 in
        (f.cfg ≡ e.cfg)
        × (f.dry_run ≡ e.dry_run)
        × (e.run_budget_used ≤ f.run_budget_used)
        × (f.run_budget_used ≤ e.run_budget_used + cycle_cap e.cfg.max_actions_per_cycle)
  tick-Frame e = let w = (tick-Kept e).within in (w.cfg_kept, w.dry_run_kept, w.used_ge, w.used_le)

  pub ticks-cfg : (n : ℕ) (e : ChaosEngine p) → (ticks n e).cfg ≡ e.cfg
  unfolding ticks
  ticks-cfg zero e = refl
  ticks-cfg (suc n) e = (tick-Kept (ticks n e)).within.cfg_kept ∙ ticks-cfg n e

  -- The budget in use stays within a positive run budget.
  pub ticks-budget_used :
      (n r : ℕ) (e : ChaosEngine p)
      → 0 < r
      → e.cfg.max_actions_per_run ≡ pos r
      → e.run_budget_used ≤ r
      → (ticks n e).run_budget_used ≤ r
  unfolding ticks
  ticks-budget_used zero r e h q u = u
  ticks-budget_used (suc n) r e h q u =
      (tick-Kept (ticks n e)).run_kept r h (ap (λ c. c.max_actions_per_run) (ticks-cfg n e) ∙ q)
        (ticks-budget_used n r e h q u)
