-- ===== src/Engine/State.antt =====
-- The engine with what it reads and changes outside itself: the Docker client, the shutdown state
-- that the signal listener shares, and the log.
use chaos_forger.Prelude.{ℕ, Bool, List, [], ◌∷◌, ◌++◌, Option, none, some, Bytes}
use chaos_forger.Double.{Double, Random}
use chaos_forger.Log.{LogLevel}
use chaos_forger.Shutdown.{ShutdownState, observe}
use chaos_forger.Config.{Config}
use chaos_forger.Docker.Api.{IDockerClient}
use chaos_forger.Chaos.Roller.{ChaosRoller, seeded, set_probability}

-- What the engine is built over: floating point, the generator, and a Docker client.
pub record Platform : Type 1 where
  pub double : Double
  pub random : Random double
  pub docker_api : IDockerClient

pub record Counters : Type 0 where
  pub rolls : ℕ
  pub strikes : ℕ
  pub errors : ℕ

module _ (p : Platform) where
  -- The fields of `ChaosEngine` (`Deps::discover_only` included), then the world around it:
  -- `arrivals` tells, for each coming look at the shutdown flag, whether a signal has been
  -- recorded since the last one; `logged` are the calls of the log macros, oldest first.
  pub record ChaosEngine : Type 0 where
    pub cfg : Config p.double
    pub discover_only : Bool
    pub dry_run : Bool
    pub roller : ChaosRoller p.double p.random
    pub forced_roll : Option Bool
    pub counters : Counters
    pub run_budget_used : ℕ
    pub docker : p.docker_api.Client
    pub shutdown : ShutdownState
    pub arrivals : List Bool
    pub logged : List (LogLevel × Bytes)

  -- `dry_run_override_.value_or(cfg_.dry_run)`.
  abbrev value_or : Option Bool → Bool → Bool
  value_or none d = d
  value_or (some b) d = b

  -- The constructor, in a given world.
  unfoldable pub construct :
      Config p.double
      → Bool
      → Option Bool
      → p.random.State
      → p.docker_api.Client
      → ShutdownState
      → List Bool
      → ChaosEngine
  construct cfg discover_only dry_run_override seed docker shutdown arrivals = record {
    cfg = cfg;
    discover_only = discover_only;
    dry_run = value_or dry_run_override cfg.dry_run;
    roller =
        set_probability p.double p.random cfg.chaos_probability (seeded p.double p.random seed);
    forced_roll = none;
    counters = record { rolls = 0; strikes = 0; errors = 0 };
    run_budget_used = 0;
    docker = docker;
    shutdown = shutdown;
    arrivals = arrivals;
    logged = [];
  }

  unfoldable pub force_next_roll : Bool → ChaosEngine → ChaosEngine
  force_next_roll fires e = record e { forced_roll = some fires }

  -- `LOG_DEBUG`, `LOG_INFO`, `LOG_WARN` and `LOG_ERROR`.
  abbrev pub log : LogLevel → Bytes → ChaosEngine → ChaosEngine
  log lvl msg e = record e { logged = e.logged ++ ((lvl, msg) ∷ []) }

  -- `deps_.shutdown->stop_requested()`: the flag, and the world after the look at it.
  abbrev pub look : ChaosEngine → ChaosEngine
  look e = record e {
    shutdown = (observe e.arrivals e.shutdown).0;
    arrivals = (observe e.arrivals e.shutdown).1;
  }

  abbrev pub stopping : ChaosEngine → Bool
  stopping e = (observe e.arrivals e.shutdown).0.state
