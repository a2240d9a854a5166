-- ===== src/Tests/EngineWitnesses.antt =====
-- The theorems about the engine, applied to the engines of Tests/Example.
use chaos_forger.Prelude.{◌≤◌, ◌≡◌, refl, false, none, List, [], ◌∷◌, take, arith, Bytes}
use chaos_forger.Discovery.{MatchedContainer}
use chaos_forger.Shutdown.{initial}
use chaos_forger.Engine.State.{ChaosEngine, construct}
use chaos_forger.Engine.Tick.{tick, execute_strikes}
use chaos_forger.Engine.Budget.{ticks}
use chaos_forger.Engine.Strikes.{counting, ticks_run_budget, tick-cycle_cap}
use chaos_forger.Engine.Passive.{ticks-Passive, Passive, by_probability}
use chaos_forger.Engine.Interrupt.{execute_strikes_interrupted, Alike, on, quiet, after_looks}
use chaos_forger.Chaos.Roller.{set_probability}
use chaos_forger.Tests.Example.{
  platform, settings, armed_engine, calm_engine, counter-RandomLaws, container,
}

-- The armed engine over the client that counts.
unfoldable counted_engine : ChaosEngine (counting platform)
unfolding construct
counted_engine =
    construct (counting platform) (settings 100 false) false none 5
      (record { client = []; made = 0 }) initial []

ticks_run_budget_example : (ticks (counting platform) 4 counted_engine).docker.made ≤ 3
unfolding counted_engine construct
ticks_run_budget_example =
    ticks_run_budget platform 4 3 counted_engine (omega arith) refl (omega arith) (omega arith)

tick-cycle_cap_example :
    let struck = (tick (counting platform) counted_engine).1 in
    (struck.cfg ≡ counted_engine.cfg)
    × (struck.dry_run ≡ false)
    × (0 ≤ struck.docker.made)
    × (struck.docker.made ≤ 2)
unfolding counted_engine construct
tick-cycle_cap_example = tick-cycle_cap platform counted_engine

-- Nothing has been struck.
abbrev Untouched : List Bytes → Type 0
Untouched struck = struck ≡ []

calm : Passive platform calm_engine
unfolding set_probability calm_engine construct
calm = by_probability refl refl

ticks-Passive_example :
    Untouched (ticks platform 4 calm_engine).docker
    × ((ticks platform 4 calm_engine).counters.strikes ≡ 0)
    × ((ticks platform 4 calm_engine).run_budget_used ≡ 0)
    × Passive platform (ticks platform 4 calm_engine)
unfolding calm_engine construct
ticks-Passive_example =
    ticks-Passive platform counter-RandomLaws Untouched (λ c h. h) 4 calm_engine calm refl

abbrev armed : List MatchedContainer
armed =
    record { container = container b'1' (b'w' ∷ []); rule_index = 0 }
    ∷ record { container = container b'2' (b'd' ∷ []); rule_index = 1 }
    ∷ []

execute_strikes_interrupted_example :
    Alike platform
      (execute_strikes platform (take 1 armed) (on platform (quiet 1) armed_engine))
      (execute_strikes platform armed (on platform (after_looks 1 []) armed_engine))
unfolding armed_engine construct
execute_strikes_interrupted_example =
    execute_strikes_interrupted platform 1 [] armed armed_engine refl
