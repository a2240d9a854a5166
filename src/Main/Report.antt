-- ===== src/Main/Report.antt =====
-- What `main` of main.cpp finds, and the lines that it logs.
use chaos_forger.Prelude.{
  ℕ, Bool, true, false, not, ◌&&◌, List, [], ◌∷◌, ◌++◌, Option, Bytes, text, to_string, show_int,
  if◌then◌else◌, ltb_ℤ, pos, Result, ok, err, length,
}
use chaos_forger.Log.{LogLevel, debug, info, warn, error}
use chaos_forger.Shutdown.{signal, stop_reason_name}
use chaos_forger.Config.{Config, TargetRule, action_name}
use chaos_forger.Docker.Paths.{docker_api_version}
use chaos_forger.Engine.State.{Platform, ChaosEngine}
use chaos_forger.Main.Args.{Options}
use chaos_forger.Main.Scheduler.{Round}

abbrev pub Lines : Type 0
Lines = List (LogLevel × Bytes)

abbrev pub failure : Bytes → Lines
failure message = (error, message) ∷ []

module _ (p : Platform) where
  -- What the program finds: the files, the variable for the log level, the kind of a path (the
  -- text of `strerror`, or whether it is a socket), whether the signals can be blocked, the client
  -- for a socket, the random seed, the literal 0.3, what `Chaos_Forger_VERSION` and `argv[0]` are, when signals
  -- arrive, and the rounds of the scheduler. `by_sigint` tells which signal the listener takes.
  pub record Environment : Type 0 where
    pub open_file : Bytes → Result Bytes
    pub level_variable : Option Bytes
    pub stat : Bytes → Result Bool
    pub block_signals : Result (Unit {0})
    pub client_for : Bytes → p.docker_api.Client
    pub seed : p.random.State
    pub default_probability : p.double.Carrier
    pub version : Bytes
    pub argv0 : Bytes
    pub arrivals : List Bool
    pub started : ℕ
    pub rounds : List Round
    pub by_sigint : Bool

  unfoldable pub socket_errors : Bytes → Result Bool → Lines
  socket_errors path (ok true) = []
  socket_errors path (ok false) =
      failure (text "'" ++ (path ++ text "' exists but is not a socket"))
  socket_errors path (err e) =
      (error, text "docker socket not found at '" ++ (path ++ (text "': " ++ e)))
      ∷ failure (text "is the Docker daemon running? (WSL2: sudo service docker start)")

  unfoldable pub rule_lines : List TargetRule → Lines
  rule_lines [] = []
  rule_lines (rule ∷ rules) =
      (
        info,
        text "  rule: name~='" ++ (rule.name_match ++ (text "' -> " ++ action_name rule.action)),
      )
      ∷ rule_lines rules

  -- The lines of a start that has succeeded, up to the first tick.
  unfoldable pub banner : Environment → Options → Config p.double → Bool → Lines
  banner env o cfg level_from_env =
      (
        info,
        text "Chaos_Forger "
            ++ (env.version
                ++ (text ": config='"
                    ++ (o.config_path
                        ++ (text "' socket='"
                            ++ (cfg.docker_socket
                                ++ (text "' api="
                                    ++ (docker_api_version
                                        ++ (text " interval="
                                            ++ (show_int cfg.interval_seconds
                                                ++ (text "s chaos_probability="
                                                    ++ (p.double.fixed2 cfg.chaos_probability
                                                        ++ (text " targets="
                                                            ++ (to_string (length cfg.targets)
                                                            ++ (text " log="
                                                            ++ (cfg.log_level
                                                            ++ (if level_from_env
                                                            then text " (env)"
                                                            else text " (config)")))))))))))))))),
      )
      ∷ rule_lines cfg.targets

  unfoldable pub safety_lines : Options → ChaosEngine p → Lines
  safety_lines o e =
      if not o.discover_flag && not e.dry_run
      then (
        warn,
        text "SAFETY: LIVE CHAOS MODE - matching containers WILL be stopped or killed. probability="
            ++ (p.double.fixed2 e.cfg.chaos_probability
                ++ (text " max/cycle="
                    ++ (show_int e.cfg.max_actions_per_cycle
                        ++ (if ltb_ℤ (pos 0) e.cfg.max_actions_per_run
                            then text " max/run=" ++ show_int e.cfg.max_actions_per_run
                            else text " max/run=unlimited")))),
      )
        ∷ (
          warn,
          text "SAFETY: if this is not intentional, stop now (Ctrl+C) and set \"dry_run\": true in "
              ++ o.config_path,
        )
        ∷ []
      else if not o.discover_flag
      then (info, text "safety: dry-run mode - no strikes will be issued") ∷ []
      else []

  unfoldable pub farewell : Environment → ChaosEngine p → Lines
  farewell env e =
      elim e.shutdown.reason [
        | signal ↦
            (
              info,
              text "Shutdown requested (signal "
                  ++ ((if env.by_sigint then text "SIGINT" else text "SIGTERM") ++ text ")"),
            )
            ∷ []
        | _ ↦ []
      ]
      ++ ((debug, text "Docker connections closed")
          ∷ (
            info,
            text "Chaos_Forger stopped | rolls="
                ++ (to_string e.counters.rolls
                    ++ (text " strikes="
                        ++ (to_string e.counters.strikes
                            ++ (text " errors="
                                ++ (to_string e.counters.errors
                                    ++ (text " | reason="
                                        ++ stop_reason_name e.shutdown.reason)))))),
          )
          ∷ [])
