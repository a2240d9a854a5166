-- ===== src/Main/Scheduler.antt =====
-- `run_until_shutdown` of main.cpp. Each round of the loop takes what it reads of the clock, in
-- nanoseconds, and the requests that other threads make while it waits. The list of the rounds is
-- as much of the run as is looked at.
pub mod Rate
use chaos_forger.Prelude.{
  ℕ, ◌+◌, ◌*◌, Bool, true, false, List, [], ◌∷◌, ◌++◌, Bytes, text, leb, if◌then◌else◌, ℤ, pos_part,
  show_int,
}
use chaos_forger.Log.{info}
use chaos_forger.Shutdown.{StopReason, wait_for_stop}
use chaos_forger.Engine.State.{Platform, ChaosEngine, log, look, stopping}
use chaos_forger.Engine.Tick.{tick}

pub record Round : Type 0 where
  -- the readings at the test, behind the tick, and at the reset behind a stall
  pub now : ℕ
  pub behind : ℕ
  pub reset : ℕ
  pub requests : List StopReason

abbrev pub second : ℕ
second = 1000000000

module _ (p : Platform) where
  -- The engine, `next_tick`, and the readings at which ticks were made, the first one first.
  pub record Schedule : Type 0 where
    pub engine : ChaosEngine p
    pub next_tick : ℕ
    pub ticked : List ℕ

  abbrev pub interval : ChaosEngine p → ℕ
  interval e = pos_part e.cfg.interval_seconds * second

  -- A tick that is due, and the time of the next one.
  unfoldable pub due : Round → Schedule → Schedule
  due r s =
      let next = s.next_tick + interval s.engine in
      record {
        engine = (tick p s.engine).1;
        next_tick = if leb next r.behind then r.reset else next;
        ticked = s.ticked ++ r.now ∷ [];
      }

  unfoldable pub wait : Round → Schedule → Schedule
  wait r s = record s {
    engine = record (s.engine) { shutdown = (wait_for_stop r.requests s.engine.shutdown).0 };
  }

  -- A round that has found no request to stop.
  unfoldable pub round : Round → Schedule → Schedule
  unfolding due wait
  round r s = if leb s.next_tick r.now then due r s else wait r s

  unfoldable pub rounds : List Round → Schedule → Schedule
  unfolding round
  rounds [] s = s
  rounds (r ∷ rs) s =
      let looked = record s { engine = look p s.engine } in
      let more = rounds rs (round r looked) in if stopping p s.engine then looked else more

  unfoldable pub mode : ChaosEngine p → Bytes
  mode e =
      if e.discover_only
      then text ", DISCOVERY-ONLY MODE (no dice, no strikes)"
      else if e.dry_run
      then text ", DRY-RUN MODE (no strikes will be issued)"
      else text ", *** LIVE MODE: real stop/kill against " ++ (e.cfg.docker_socket ++ text " ***")

  -- `started` is the reading at which the first tick is due.
  unfoldable pub run_until_shutdown : ℕ → List Round → ChaosEngine p → Schedule
  unfolding rounds mode
  run_until_shutdown started rs e =
      let line =
        text "Scheduler started: interval="
        ++ (show_int e.cfg.interval_seconds
            ++ (text "s, chaos_probability="
                ++ (p.double.fixed2 e.cfg.chaos_probability ++ mode e))) in
      let first : Schedule = record {
        engine = log p info line (look p e);
        next_tick = started;
        ticked = [];
      } in
      let all = rounds rs first in
      if stopping p e then record { engine = look p e; next_tick = started; ticked = [] } else all
