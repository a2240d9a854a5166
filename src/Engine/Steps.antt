-- ===== src/Engine/Steps.antt =====
-- The operations of the tick by cases, for proofs that keep them shut. A predicate of the engine
-- that does not look at the log holds after a step if it holds of each outcome.
use chaos_forger.Prelude.{
  ◌≡◌, refl, Bool, true, false, List, [], ◌∷◌, Bytes, is_empty, Result, ok, err, if_cases, arith,
}
use chaos_forger.Docker.Api.{Container}
use chaos_forger.Log.{LogLevel}
use chaos_forger.Discovery.{MatchedContainer, match_containers}
use chaos_forger.Chaos.Roller.{bump}
use chaos_forger.Engine.State.{Platform, ChaosEngine, log, look, stopping}
use chaos_forger.Engine.Tick.{
  rule_at, should_strike, send, settle, strike, execute_strikes, log_matches, log_quiet_tick, sweep,
  roll_and_strike, act_on, discover, tick,
}

module _ (p : Platform) where
  -- The client's answer to the listing, and the engine once the client has changed.
  abbrev pub listing : ChaosEngine p → Result (List Container)
  listing e = (p.docker_api.list_containers e.docker).0

  abbrev pub listed : ChaosEngine p → ChaosEngine p
  listed e = record (look p e) { docker = (p.docker_api.list_containers e.docker).1 }

  abbrev pub count_error : ChaosEngine p → ChaosEngine p
  count_error e = record e { counters = record (e.counters) { errors = bump e.counters.errors } }

  abbrev pub action_of : MatchedContainer → ChaosEngine p → chaos_forger.Config.Action
  action_of m e = (rule_at e.cfg.targets m.rule_index).action

  -- A step whose outcome is logged.
  abbrev Logged {ℓ} : (ChaosEngine p → Type ℓ) → ChaosEngine p → Type ℓ
  Logged P e = (lvl : LogLevel) (line : Bytes) → P (log p lvl line e)

  module _ {ℓ} (P : ChaosEngine p → Type ℓ) where
    pub strike_cases :
        (m : MatchedContainer) (e : ChaosEngine p)
        → (e.dry_run ≡ true → Logged P e)
        → (e.dry_run ≡ false
            → let sent = send p (action_of m e) m.container e in
              P (settle p (action_of m e) m.container sent.0 sent.1))
        → P (strike p m e)
    unfolding strike
    strike_cases m e dry live = if_cases P e.dry_run (λ h. dry h _ _) live

    pub execute_strikes_cases :
        (m : MatchedContainer) (ms : List MatchedContainer) (e : ChaosEngine p)
        → (stopping p e ≡ true → Logged P (look p e))
        → (stopping p e ≡ false → P (execute_strikes p ms (strike p m (look p e))))
        → P (execute_strikes p (m ∷ ms) e)
    unfolding execute_strikes
    execute_strikes_cases m ms e stop go = if_cases P (stopping p e) (λ h. stop h _ _) go

    pub roll_and_strike_cases :
        (ms : List MatchedContainer) (e : ChaosEngine p)
        → (stopping p e ≡ true → Logged P (look p e))
        → (stopping p e ≡ false → e.discover_only ≡ true → P (look p e))
        → (let rolled = should_strike p (look p e) in
            stopping p e ≡ false
            → e.discover_only ≡ false
            → (rolled.0 ≡ true → P (sweep p ms rolled.1)) × (rolled.0 ≡ false → P rolled.1))
        → P (roll_and_strike p ms e)
    unfolding roll_and_strike
    roll_and_strike_cases ms e stop only rolled =
        if_cases P (stopping p e) (λ h. stop h _ _)
          (λ h.
            if_cases P e.discover_only (only h)
              (λ k. if_cases P (should_strike p (look p e)).0 (rolled h k).0 (rolled h k).1))

    pub act_on_cases :
        (running : List Container) (e : ChaosEngine p)
        → (let ms = match_containers running e.cfg.targets in
            (ms ≡ [] → Logged P e) × P (roll_and_strike p ms (log_matches p ms e)))
        → P (act_on p running e)
    unfolding act_on log_quiet_tick
    act_on_cases running e h =
        if_cases P (is_empty (match_containers running e.cfg.targets)) (λ k. h.0 (ground arith) _ _)
          (λ _. h.1)

    -- A tick ends at guard #1, or with a failed listing, or acts on the containers listed.
    pub tick_cases :
        (e : ChaosEngine p)
        → (stopping p e ≡ true → Logged P (look p e))
        → (stopping p e ≡ false
            → ((message : Bytes) → listing e ≡ err message → Logged P (count_error (listed e)))
              × ((running : List Container)
                  → listing e ≡ ok running
                  → (lvl : LogLevel) (line : Bytes)
                  → P (act_on p running (log p lvl line (listed e)))))
        → P (tick p e).1
    unfolding tick discover
    tick_cases e stop go =
        if_cases (λ (r : Bool × ChaosEngine p). P r.1) (stopping p e) (λ h. stop h _ _)
          (λ h. go_on (listing e) (go h).0 (go h).1)
      where
        go_on :
            (r : Result (List Container))
            → ((message : Bytes) → r ≡ err message → Logged P (count_error (listed e)))
            → ((running : List Container)
                → r ≡ ok running
                → (lvl : LogLevel) (line : Bytes)
                → P (act_on p running (log p lvl line (listed e))))
            → P (discover p r (listed e)).1
        go_on (err message) failed found = failed message refl _ _
        go_on (ok running) failed found = found running refl _ _
