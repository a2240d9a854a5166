-- ===== src/Engine/ClientInvariant.antt =====
-- The client's state over a tick of src/engine.cpp: what its calls preserve.
use chaos_forger.Prelude.{◌≡◌, refl, sym, subst, List, [], ◌∷◌, Bytes, ℤ, arith}
use chaos_forger.Config.{Action, stop, kill}
use chaos_forger.Docker.Api.{Container, Strike, IDockerClient}
use chaos_forger.Discovery.{MatchedContainer}
use chaos_forger.Engine.State.{Platform, ChaosEngine}
use chaos_forger.Engine.Tick.{
  should_strike, send, settle, strike, execute_strikes, log_matches, log_budget, sweep,
  roll_and_strike, act_on, tick,
}
use chaos_forger.Engine.Steps.{
  strike_cases, execute_strikes_cases, roll_and_strike_cases, act_on_cases, tick_cases,
}

-- A property of the client that each call of the engine preserves.
pub record IsKept (api : IDockerClient) (P : api.Client → Type 0) : Type 0 where
  pub by_list : (c : api.Client) → P c → P (api.list_containers c).1
  pub by_stop : (id : Bytes) (t : ℤ) (c : api.Client) → P c → P (api.stop_container id t c).1
  pub by_kill : (id : Bytes) (c : api.Client) → P c → P (api.kill_container id c).1
  pub by_ping : (c : api.Client) → P c → P (api.ping c).1

module _ (p : Platform) (P : p.docker_api.Client → Type 0) (kept : IsKept p.docker_api P) where
  abbrev Holds : ChaosEngine p → Type 0
  Holds e = P e.docker

  send-Holds : (a : Action) (c : Container) (e : ChaosEngine p) → Holds e → Holds (send p a c e).1
  unfolding send
  send-Holds stop c e h = kept.by_stop c.id e.cfg.stop_timeout_seconds e.docker h
  send-Holds kill c e h = kept.by_kill c.id e.docker h

  settle-docker :
      (a : Action) (c : Container) (sent : Strike) (e : ChaosEngine p)
      → (settle p a c sent e).docker ≡ e.docker
  unfolding settle
  settle-docker a c sent e = ground arith

  should_strike-docker : (e : ChaosEngine p) → (should_strike p e).1.docker ≡ e.docker
  unfolding should_strike
  should_strike-docker e = ground arith

  log_matches-docker :
      (ms : List MatchedContainer) (e : ChaosEngine p) → (log_matches p ms e).docker ≡ e.docker
  unfolding log_matches
  log_matches-docker [] e = refl
  log_matches-docker (m ∷ ms) e = log_matches-docker ms _

  log_budget-docker :
      (s ms : List MatchedContainer) (e : ChaosEngine p) → (log_budget p s ms e).docker ≡ e.docker
  unfolding log_budget
  log_budget-docker s ms e = ground arith

  strike-Holds : (m : MatchedContainer) (e : ChaosEngine p) → Holds e → Holds (strike p m e)
  strike-Holds m e h =
      strike_cases p Holds m e (λ _ _ _. h)
        (λ _. subst P (sym (settle-docker _ m.container _ _)) (send-Holds _ m.container e h))

  execute_strikes-Holds :
      (ms : List MatchedContainer) (e : ChaosEngine p) → Holds e → Holds (execute_strikes p ms e)
  execute_strikes-Holds [] e h = unfold execute_strikes in h
  execute_strikes-Holds (m ∷ ms) e h =
      execute_strikes_cases p Holds m ms e (λ _ _ _. h)
        (λ _. execute_strikes-Holds ms _ (strike-Holds m _ h))

  sweep-Holds : (ms : List MatchedContainer) (e : ChaosEngine p) → Holds e → Holds (sweep p ms e)
  unfolding sweep
  sweep-Holds ms e h = execute_strikes-Holds _ _ (subst P (sym (log_budget-docker _ ms e)) h)

  roll_and_strike-Holds :
      (ms : List MatchedContainer) (e : ChaosEngine p) → Holds e → Holds (roll_and_strike p ms e)
  roll_and_strike-Holds ms e h =
      roll_and_strike_cases p Holds ms e (λ _ _ _. h) (λ _ _. h)
        (λ _ _.
          let rolled = subst P (sym (should_strike-docker _)) h in
          ((λ _. sweep-Holds ms _ rolled), (λ _. rolled)))

  act_on-Holds :
      (running : List Container) (e : ChaosEngine p) → Holds e → Holds (act_on p running e)
  act_on-Holds running e h =
      act_on_cases p Holds running e
        ((λ _ _ _. h), roll_and_strike-Holds _ _ (subst P (sym (log_matches-docker _ e)) h))

  -- What every call of the engine preserves of the client still holds after a tick.
  pub tick-Holds : (e : ChaosEngine p) → Holds e → Holds (tick p e).1
  tick-Holds e h =
      let after = kept.by_list e.docker h in
      tick_cases p Holds e (λ _ _ _. h)
        (λ _. ((λ _ _ _ _. after), (λ running _ _ _. act_on-Holds running _ after)))
