-- ===== src/Main/Run/Induction.antt =====
-- What holds of the engine under the scheduler, and of the client at the exits of `main`, once it
-- holds at the start and every step keeps it.
use chaos_forger.Prelude.{
  ℕ, ◌≡◌, refl, Bool, List, [], ◌∷◌, Option, none, some, Bytes, if_cases, if◌then◌else◌, leb,
  Result, ok, err,
}
use chaos_forger.Config.{Config}
use chaos_forger.Shutdown.{ShutdownState, initial}
use chaos_forger.Engine.State.{Platform, ChaosEngine, construct, look, stopping}
use chaos_forger.Engine.Tick.{tick}
use chaos_forger.Main.Args.{Options, Parsed, proceed, leave, parse_args, defaults}
use chaos_forger.Main.Scheduler.{Round, Schedule, due, wait, round, rounds, run_until_shutdown}
use chaos_forger.Main.Report.{Environment, Lines}
use chaos_forger.Main.Run.{
  left_at_arguments, override, one_shot, main_loop, serve, after_ping, after_signals, after_socket,
  after_level, after_load, after_arguments, main,
}

-- What holds of the client, if there is one.
abbrev pub Of {ℓ} : {A : Type ℓ} → (A → Type 0) → Option A → Type 0
Of P none = Unit
Of P (some x) = P x

module _ (p : Platform) (Q : ChaosEngine p → Type 0) where
  -- What a tick keeps, and what the world and the log do not matter to.
  pub record IsKept : Type 0 where
    pub by_tick : (e : ChaosEngine p) → Q e → Q (tick p e).1
    pub by_world :
        (e : ChaosEngine p) (sh : ShutdownState) (bs : List Bool) (l : Lines)
        → Q e
        → Q (record e { shutdown = sh; arrivals = bs; logged = l })

  module _ (kept : IsKept) where
    abbrev InSchedule : Schedule p → Type 0
    InSchedule s = Q s.engine

    round-InSchedule : (r : Round) (s : Schedule p) → InSchedule s → InSchedule (round p r s)
    unfolding round due wait
    round-InSchedule r s h =
        if_cases InSchedule (leb s.next_tick r.now) (λ _. kept.by_tick s.engine h)
          (λ _. kept.by_world s.engine _ _ _ h)

    rounds-InSchedule :
        (rs : List Round) (s : Schedule p) → InSchedule s → InSchedule (rounds p rs s)
    unfolding rounds
    rounds-InSchedule [] s h = h
    rounds-InSchedule (r ∷ rs) s h =
        let looked = kept.by_world s.engine _ _ _ h in
        if_cases InSchedule (stopping p s.engine) (λ _. looked)
          (λ _.
            rounds-InSchedule rs _
              (round-InSchedule r (record s { engine = look p s.engine }) looked))

    run_until_shutdown-InSchedule :
        (started : ℕ) (rs : List Round) (e : ChaosEngine p)
        → Q e
        → InSchedule (run_until_shutdown p started rs e)
    unfolding run_until_shutdown
    run_until_shutdown-InSchedule started rs e h =
        if_cases InSchedule (stopping p e) (λ _. kept.by_world e _ _ _ h)
          (λ _. rounds-InSchedule rs _ (kept.by_world e _ _ _ h))

    main_loop-kept :
        (env : Environment p) (o : Options) (e : ChaosEngine p) → Q e → Q (main_loop p env o e)
    unfolding main_loop
    main_loop-kept env o e h =
        if_cases Q (one_shot p o) (λ _. kept.by_tick e h)
          (λ _. run_until_shutdown-InSchedule env.started env.rounds e h)

    -- From the engine as it is constructed to the client at the exit.
    pub serve-Of :
        (P : p.docker_api.Client → Type 0)
        → ((e : ChaosEngine p) → Q e → P e.docker)
        → (env : Environment p) (o : Options) (cfg : Config p.double) (b : Bool) (lines : Lines)
          (docker : p.docker_api.Client)
        → Q (construct p cfg o.discover_flag (override p o) env.seed docker initial [])
        → Of P (serve p env o cfg b lines docker).docker
    unfolding serve construct
    serve-Of P of_client env o cfg b lines docker h = of_client _ (
        main_loop-kept env o _ (
          kept.by_world (construct p cfg o.discover_flag (override p o) env.seed docker initial [])
            _ (if one_shot p o then [] else env.arrivals) _ h))

module _ (p : Platform) (P : p.docker_api.Client → Type 0) (env : Environment p)
    (by_ping : (c : p.docker_api.Client) → P c → P (p.docker_api.ping c).1)
    (fresh : (path : Bytes) → P (env.client_for path)) where
  -- The part of a run that follows the ping.
  abbrev Serves : Options → Type 0
  Serves o =
      (cfg : Config p.double) (b : Bool) (lines : Lines) (docker : p.docker_api.Client)
      → P docker
      → Of P (serve p env o cfg b lines docker).docker

  module _ (o : Options) (served : Serves o) where
    after_ping-Of :
        (cfg : Config p.double) (b : Bool) (lines : Lines)
        (answer : Result (Unit {0}) × p.docker_api.Client)
        → P answer.1
        → Of P (after_ping p env o cfg b lines answer).docker
    unfolding after_ping
    after_ping-Of cfg b lines (err e, docker) h = h
    after_ping-Of cfg b lines (ok _, docker) h = served cfg b _ docker h

    after_signals-Of :
        (cfg : Config p.double) (b : Bool) (lines : Lines) (blocked : Result (Unit {0}))
        → Of P (after_signals p env o cfg b lines blocked).docker
    unfolding after_signals
    after_signals-Of cfg b lines (err e) = tt
    after_signals-Of cfg b lines (ok _) =
        after_ping-Of cfg b _ _ (by_ping _ (fresh cfg.docker_socket))

    after_socket-Of :
        (cfg : Config p.double) (b : Bool) (lines errors : Lines)
        → Of P (after_socket p env o cfg b lines errors).docker
    unfolding after_socket
    after_socket-Of cfg b lines [] = after_signals-Of cfg b lines env.block_signals
    after_socket-Of cfg b lines (line ∷ more) = tt

    after_level-Of :
        (lines : Lines) (chosen : Result (Config p.double × Bool))
        → Of P (after_level p env o lines chosen).docker
    unfolding after_level
    after_level-Of lines (err e) = tt
    after_level-Of lines (ok (cfg, b)) = after_socket-Of cfg b lines _

    after_load-Of :
        (loaded : Result (Config p.double × List Bytes)) → Of P (after_load p env o loaded).docker
    unfolding after_load
    after_load-Of (err e) = tt
    after_load-Of (ok (cfg, warnings)) = after_level-Of _ _

  after_arguments-Of :
      (parsed : Parsed)
      → ((o : Options) → parsed ≡ proceed o → Serves o)
      → Of P (after_arguments p env parsed).docker
  unfolding after_arguments left_at_arguments
  after_arguments-Of (leave why) served = tt
  after_arguments-Of (proceed o) served = after_load-Of o (served o refl) _

  -- To the client at the exit of `main`, from each accepted command line's run behind the ping.
  pub main-Of :
      (args : List Bytes)
      → ((o : Options) → parse_args args defaults ≡ proceed o → Serves o)
      → Of P (main p env args).docker
  unfolding main
  main-Of args served = after_arguments-Of (parse_args args defaults) served
