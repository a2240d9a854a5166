-- ===== src/Main/Run.antt =====
-- `main` of main.cpp behind its arguments: start-up, the one tick or the scheduler, and the exit.
pub mod Induction
pub mod Passive
pub mod Refusal
use chaos_forger.Prelude.{
  ℕ, Bool, true, false, not, ◌||◌, ◌&&◌, List, [], ◌∷◌, ◌++◌, map, Option, none, some, Bytes, text,
  to_string, show_int, if◌then◌else◌, ltb_ℤ, pos, Result, ok, err, length,
}
use chaos_forger.Double.{Double}
use chaos_forger.Log.{LogLevel, debug, info, warn, error, Written}
use chaos_forger.Shutdown.{StopReason, signal, not_requested, internal, initial, stop_reason_name}
use chaos_forger.Config.{Config, TargetRule, action_name}
use chaos_forger.Config.Validate.{default_config}
use chaos_forger.Config.Load.{load_config}
use chaos_forger.Docker.Paths.{docker_api_version}
use chaos_forger.Startup.{log_level_from_env, apply_log_level}
use chaos_forger.Engine.State.{Platform, ChaosEngine, construct}
use chaos_forger.Engine.Tick.{tick}
use chaos_forger.Main.Args.{
  Options, Stop, usage, printed_version, missing_value, unknown_argument, exit_code, Parsed,
  proceed, leave, parse_args, defaults,
}
use chaos_forger.Main.Usage.{printed_at}
use chaos_forger.Main.Scheduler.{Round, run_until_shutdown}
use chaos_forger.Main.Report.{
  Lines, Environment, failure, socket_errors, rule_lines, banner, safety_lines, farewell,
}

module _ (p : Platform) where
  -- `printed` is what did not go through the log; `docker` is the client at the exit, if one was
  -- made.
  pub record Exit : Type 0 where
    pub code : ℕ
    pub logged : Lines
    pub printed : List Written
    pub docker : Option p.docker_api.Client

  abbrev pub refuse : Lines → Option p.docker_api.Client → Exit
  refuse lines docker = record { code = 1; logged = lines; printed = []; docker = docker }

  abbrev warn_all : List Bytes → Lines
  warn_all = map (λ line. (warn, line))

  unfoldable pub left_at_arguments : Environment p → Stop → Exit
  unfolding printed_at
  left_at_arguments env why = record {
    code = exit_code why;
    logged = elim why [
      | missing_value ↦ failure (text "--config requires a value")
      | unknown_argument arg ↦ failure (text "unknown argument '" ++ (arg ++ text "'"))
      | _ ↦ []
    ];
    printed = printed_at env.version env.argv0 why;
    docker = none;
  }

  -- The log level that counts, with whether it is the variable's.
  unfoldable pub choose_level : Option Bytes → Config p.double → Result (Config p.double × Bool)
  choose_level none cfg = elim (apply_log_level cfg.log_level) [
    | err e ↦ err (text "configuration error: " ++ e)
    | ok _ ↦ ok (cfg, false)
  ]
  choose_level (some lvl) cfg = elim (apply_log_level lvl) [
    | err e ↦ err (text "configuration error: Chaos_Forger_LOG_LEVEL: " ++ e)
    | ok _ ↦ ok (record cfg { log_level = lvl }, true)
  ]

  -- `std::optional<bool>(true)` with the flag.
  abbrev pub override : Options → Option Bool
  override o = if o.dry_run_flag then some true else none

  -- One tick, or the scheduler. Without the scheduler no listener runs, so no signal arrives.
  abbrev pub one_shot : Options → Bool
  one_shot o = o.once || o.discover_flag

  unfoldable pub main_loop : Environment p → Options → ChaosEngine p → ChaosEngine p
  main_loop env o e =
      if one_shot o then (tick p e).1 else (run_until_shutdown p env.started env.rounds e).engine

  -- From a client that has answered the ping on.
  unfoldable pub serve :
      Environment p → Options → Config p.double → Bool → Lines → p.docker_api.Client → Exit
  unfolding main_loop
  serve env o cfg level_from_env lines docker =
      let engine =
        construct p cfg o.discover_flag (override o) env.seed docker initial
          (if one_shot o then [] else env.arrivals) in
      let greeted = record engine {
        logged = lines ++ (banner p env o cfg level_from_env ++ safety_lines p o engine);
      } in
      let ended = main_loop env o greeted in
      record {
        code = 0;
        logged = ended.logged ++ farewell p env ended;
        printed = [];
        docker = some ended.docker;
      }

  unfoldable pub after_ping :
      Environment p
      → Options
      → Config p.double
      → Bool
      → Lines
      → Result (Unit {0}) × p.docker_api.Client
      → Exit
  unfolding serve
  after_ping env o cfg level_from_env lines (err e, docker) =
      refuse (lines ++ failure (text "docker engine unreachable: " ++ e)) (some docker)
  after_ping env o cfg level_from_env lines (ok _, docker) =
      serve env o cfg level_from_env (lines ++ (info, text "Connected to Docker") ∷ []) docker

  unfoldable pub after_signals :
      Environment p → Options → Config p.double → Bool → Lines → Result (Unit {0}) → Exit
  unfolding after_ping
  after_signals env o cfg level_from_env lines (err e) =
      refuse (lines ++ failure (text "startup error: " ++ e)) none
  after_signals env o cfg level_from_env lines (ok _) =
      after_ping env o cfg level_from_env
        (lines ++ ((info, text "Chaos_Forger starting") ∷ (info, text "Connecting to Docker") ∷ []))
        (p.docker_api.ping (env.client_for cfg.docker_socket))

  unfoldable pub after_socket :
      Environment p → Options → Config p.double → Bool → Lines → Lines → Exit
  unfolding after_signals
  after_socket env o cfg level_from_env lines [] =
      after_signals env o cfg level_from_env lines env.block_signals
  after_socket env o cfg level_from_env lines (line ∷ more) = refuse (lines ++ line ∷ more) none

  unfoldable pub after_level :
      Environment p → Options → Lines → Result (Config p.double × Bool) → Exit
  unfolding after_socket socket_errors
  after_level env o lines (err e) = refuse (lines ++ failure e) none
  after_level env o lines (ok (cfg, level_from_env)) =
      after_socket env o cfg level_from_env lines
        (socket_errors p cfg.docker_socket (env.stat cfg.docker_socket))

  unfoldable pub after_load : Environment p → Options → Result (Config p.double × List Bytes) → Exit
  unfolding after_level choose_level
  after_load env o (err e) = refuse (failure (text "configuration error: " ++ e)) none
  after_load env o (ok (cfg, warnings)) = after_level env o (warn_all warnings) (
      choose_level (log_level_from_env env.level_variable)
        (record cfg { dry_run = o.dry_run_flag || cfg.dry_run }))

  unfoldable pub after_arguments : Environment p → Parsed → Exit
  unfolding after_load left_at_arguments
  after_arguments env (leave why) = left_at_arguments env why
  after_arguments env (proceed o) = after_load env o (
      load_config p.double o.config_path (env.open_file o.config_path)
        (default_config p.double env.default_probability))

  unfoldable pub main : Environment p → List Bytes → Exit
  unfolding after_arguments
  main env args = after_arguments env (parse_args args defaults)
