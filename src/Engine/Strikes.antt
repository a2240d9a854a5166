-- ===== src/Engine/Strikes.antt =====
-- The budget of a run of src/engine.cpp against the strikes that the client has really made.
use chaos_forger.Prelude.{
  ℕ, zero, suc, ◌+◌, ◌≤◌, ◌<◌, ◌≡◌, refl, List, [], ◌∷◌, if◌then◌else◌, if_cases, ltb, length,
  arith, pos,
}
use chaos_forger.Config.{Action, stop, kill}
use chaos_forger.Docker.Api.{Container, Strike, IDockerClient}
use chaos_forger.Discovery.{MatchedContainer}
use chaos_forger.Engine.State.{Platform, ChaosEngine, look}
use chaos_forger.Engine.Tick.{
  should_strike, send, settle, strike, execute_strikes, log_matches, log_budget, sweep,
  roll_and_strike, tick,
}
use chaos_forger.Engine.Steps.{
  strike_cases, execute_strikes_cases, roll_and_strike_cases, act_on_cases, tick_cases,
}
use chaos_forger.Engine.Budget.{ticks, cycle_cap, tick-Frame, ticks-budget_used}

-- A client, and the number of stops and kills that have succeeded on it.
pub record Counted (d : IDockerClient) : Type 0 where
  pub client : d.Client
  pub made : ℕ

abbrev count : {d : IDockerClient} → Strike × d.Client → ℕ → Strike × Counted d
count (sent, c) n = (sent, record { client = c; made = if sent.ok then suc n else n })

-- The same platform, whose client counts the strikes that succeed.
abbrev pub counting : Platform → Platform
counting p =
    let d = p.docker_api in
    record {
      double = p.double;
      random = p.random;
      docker_api = record {
        Client = Counted d;
        list_containers = λ c.
            let (answer, s) = d.list_containers c.client in
            (answer, record { client = s; made = c.made });
        stop_container = λ id t c. count {d = d} (d.stop_container id t c.client) c.made;
        kill_container = λ id c. count {d = d} (d.kill_container id c.client) c.made;
        ping = λ c.
            let (answer, s) = d.ping c.client in (answer, record { client = s; made = c.made });
      };
    }

module _ (p : Platform) where
  abbrev q : Platform
  q = counting p

  -- What the budget in use has grown by is the number of successful strikes between.
  record Settled (e f : ChaosEngine q) : Type 0 where
    same_growth : f.docker.made + e.run_budget_used ≡ e.docker.made + f.run_budget_used

  Settled-trans : {e f g : ChaosEngine q} → Settled e f → Settled f g → Settled e g
  Settled-trans a b = record { same_growth = omega (arith, a.same_growth, b.same_growth) }

  should_strike-Settled : (e : ChaosEngine q) → Settled e (should_strike q e).1
  unfolding should_strike
  should_strike-Settled e = ground arith

  log_matches-Settled :
      (ms : List MatchedContainer) (e : ChaosEngine q) → Settled e (log_matches q ms e)
  unfolding log_matches
  log_matches-Settled [] e = record { same_growth = refl }
  log_matches-Settled (m ∷ ms) e =
      Settled-trans (record { same_growth = refl }) (log_matches-Settled ms _)

  log_budget-Settled :
      (s ms : List MatchedContainer) (e : ChaosEngine q) → Settled e (log_budget q s ms e)
  unfolding log_budget
  log_budget-Settled s ms e =
      if_cases (Settled e) (ltb (length s) (length ms)) (λ _. record { same_growth = refl })
        (λ _. record { same_growth = refl })

  settle-Settled :
      (a : Action) (c : Container) (e : ChaosEngine q)
      → let sent = send q a c e in Settled e (settle q a c sent.0 sent.1)
  unfolding send settle
  settle-Settled stop c e = ground arith
  settle-Settled kill c e = ground arith

  execute_strikes-Settled :
      (ms : List MatchedContainer) (e : ChaosEngine q) → Settled e (execute_strikes q ms e)
  execute_strikes-Settled [] e = unfold execute_strikes in record { same_growth = refl }
  execute_strikes-Settled (m ∷ ms) e =
      execute_strikes_cases q (Settled e) m ms e (λ _ _ _. record { same_growth = refl })
        (λ _.
          let struck : Settled e (strike q m (look q e)) =
            strike_cases q (Settled e) m (look q e) (λ _ _ _. record { same_growth = refl })
              (λ _.
                Settled-trans (record { same_growth = refl })
                  (settle-Settled _ m.container (look q e))) in
          Settled-trans struck (execute_strikes-Settled ms _))

  roll_and_strike-Settled :
      (ms : List MatchedContainer) (e : ChaosEngine q) → Settled e (roll_and_strike q ms e)
  unfolding sweep
  roll_and_strike-Settled ms e =
      roll_and_strike_cases q (Settled e) ms e (λ _ _ _. record { same_growth = refl })
        (λ _ _. record { same_growth = refl })
        (λ _ _.
          let looked : Settled e (look q e) = record { same_growth = refl } in
          let rolled = Settled-trans looked (should_strike-Settled (look q e)) in
          (
            λ _.
                Settled-trans rolled
                  (Settled-trans (log_budget-Settled _ ms _) (execute_strikes-Settled _ _)),
            λ _. rolled,
          ))

  tick-Settled : (e : ChaosEngine q) → Settled e (tick q e).1
  tick-Settled e =
      tick_cases q (Settled e) e (λ _ _ _. record { same_growth = refl })
        (λ _. (
          (λ _ _ _ _. record { same_growth = refl }),
          λ running _ _ _. act_on_cases q (Settled e) running _ (
            (λ _ _ _. record { same_growth = refl }),
            Settled-trans (record { same_growth = refl })
                (Settled-trans (log_matches-Settled _ _) (roll_and_strike-Settled _ _)),
          ),
        ))

  ticks-Settled : (n : ℕ) (e : ChaosEngine q) → Settled e (ticks q n e)
  unfolding ticks
  ticks-Settled zero e = record { same_growth = refl }
  ticks-Settled (suc n) e = Settled-trans (ticks-Settled n e) (tick-Settled (ticks q n e))

  -- With a run budget that is positive, and an engine whose budget in use is no less than the
  -- strikes that have succeeded, the stops and kills that succeed on the client never exceed the
  -- budget, however many ticks are made and whatever the client answers and the dice say.
  pub ticks_run_budget :
      (n r : ℕ) (e : ChaosEngine (counting p))
      → 0 < r
      → e.cfg.max_actions_per_run ≡ pos r
      → e.run_budget_used ≤ r
      → e.docker.made ≤ e.run_budget_used
      → (ticks (counting p) n e).docker.made ≤ r
  ticks_run_budget n r e h limit used made =
      omega (arith, (ticks-Settled n e).same_growth, ticks-budget_used q n r e h limit used)

  -- In one tick at most `max_actions_per_cycle` stops and kills (at least one is allowed) succeed on
  -- the client, and no setting is changed.
  pub tick-cycle_cap :
      (e : ChaosEngine (counting p))
      → let f = (tick (counting p) e).1 in
        (f.cfg ≡ e.cfg)
        × (f.dry_run ≡ e.dry_run)
        × (e.docker.made ≤ f.docker.made)
        × (f.docker.made ≤ e.docker.made + cycle_cap e.cfg.max_actions_per_cycle)
  tick-cycle_cap e =
      let (cfg_kept, dry_run_kept, more, less) = tick-Frame q e in
      let grown = (tick-Settled e).same_growth in (cfg_kept, dry_run_kept, omega arith, omega arith)
