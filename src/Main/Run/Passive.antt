-- ===== src/Main/Run/Passive.antt =====
-- The options with which the program touches no container.
use chaos_forger.Prelude.{refl, subst, Bool, List, [], inl, inr, Bytes}
use chaos_forger.Double.{RandomLaws}
use chaos_forger.Config.{Config}
use chaos_forger.Shutdown.{ShutdownState, initial}
use chaos_forger.Engine.State.{Platform, ChaosEngine, construct}
use chaos_forger.Engine.Tick.{tick}
use chaos_forger.Engine.Passive.{
  Passive, by_dry_run, by_discovery, by_probability, tick-keeps_client,
}
use chaos_forger.Main.Args.{Options, parse_args, defaults}
use chaos_forger.Main.Args.Given.{
  HasHarmlessOption, IsHarmless, ParsedHarmless, parse_args-HasHarmlessOption,
}
use chaos_forger.Main.Report.{Environment, Lines}
use chaos_forger.Main.Run.Induction.{Of, IsKept, serve-Of, main-Of}
use chaos_forger.Main.Run.{override, main}

module _ (p : Platform) (laws : RandomLaws p.random) (P : p.docker_api.Client → Type 0)
    (after_list : (c : p.docker_api.Client) → P c → P (p.docker_api.list_containers c).1) where
  -- A passive engine whose client is as it should be.
  abbrev Calm : ChaosEngine p → Type 0
  Calm e = Passive p e × P e.docker

  tick-Calm : (e : ChaosEngine p) → Calm e → Calm (tick p e).1
  tick-Calm e h =
      let (c, _, _, passive) = tick-keeps_client p laws P after_list e h.0 h.1 in (passive, c)

  Calm-world :
      (e : ChaosEngine p) (sh : ShutdownState) (bs : List Bool) (l : Lines)
      → Calm e
      → Calm (record e { shutdown = sh; arrivals = bs; logged = l })
  Calm-world e sh bs l (by_dry_run h, c) = (by_dry_run h, c)
  Calm-world e sh bs l (by_discovery h, c) = (by_discovery h, c)
  Calm-world e sh bs l (by_probability h k, c) = (by_probability h k, c)

  Calm-IsKept : IsKept p Calm
  Calm-IsKept = record { by_tick = tick-Calm; by_world = Calm-world }

construct-Passive :
    (p : Platform) (o : Options)
    → IsHarmless o
    → (cfg : Config p.double) (seed : p.random.State) (docker : p.docker_api.Client)
      (bs : List Bool)
    → Passive p (construct p cfg o.discover_flag (override p o) seed docker initial bs)
unfolding construct
construct-Passive p o (inl h) cfg seed docker bs = by_dry_run (rw (h) refl)
construct-Passive p o (inr h) cfg seed docker bs = by_discovery h

-- Over a generator that behaves as its laws say, with `--dry-run`, `-n`, `--discover` or `-d`
-- anywhere among the arguments, other than as the value of `--config`, and whatever the other
-- arguments and the configuration file say, the program makes no call of the Docker client but the ping and the listing, in one tick or
-- under the scheduler, up to any exit: what holds of each new client and is preserved by these two
-- holds of the client at the exit, if one was made.
pub main-Harmless :
    (p : Platform) (laws : RandomLaws p.random) (P : p.docker_api.Client → Type 0)
    (env : Environment p) (args : List Bytes)
    → ((c : p.docker_api.Client) → P c → P (p.docker_api.list_containers c).1)
    → ((c : p.docker_api.Client) → P c → P (p.docker_api.ping c).1)
    → ((path : Bytes) → P (env.client_for path))
    → HasHarmlessOption args
    → Of P (main p env args).docker
unfolding construct
main-Harmless p laws P env args after_list after_ping_call fresh given =
    main-Of p P env after_ping_call fresh args (λ o' parsed' cfg b lines docker h.
      let harmless : ParsedHarmless (parse_args args defaults) =
        parse_args-HasHarmlessOption args defaults given in
      serve-Of p (Calm p laws P after_list) (Calm-IsKept p laws P after_list) P (λ e calm. calm.1)
        env o' cfg b lines docker
        (construct-Passive p o' (subst ParsedHarmless parsed' harmless) cfg env.seed docker [], h))
