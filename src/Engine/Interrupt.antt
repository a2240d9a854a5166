-- ===== src/Engine/Interrupt.antt =====
-- A signal that the listener records at any moment of a sweep.
use chaos_forger.Prelude.{
  ℕ, zero, suc, ◌≡◌, refl, ◌∙◌, Bool, true, false, List, [], ◌∷◌, take, arith, if-if, ap, ◌==◌,
  ◌||◌,
}
use chaos_forger.Config.{Action, stop, kill}
use chaos_forger.Docker.Api.{Container, Strike}
use chaos_forger.Shutdown.{observe}
use chaos_forger.Shutdown.Latch.{observe_signal}
use chaos_forger.Discovery.{MatchedContainer}
use chaos_forger.Engine.State.{Platform, ChaosEngine}
use chaos_forger.Engine.Tick.{send, settle, execute_strikes, strike}
use chaos_forger.Engine.Steps.{action_of, strike_cases, execute_strikes_cases}

-- The schedule on which the signal comes after `k` looks at the flag without one.
abbrev pub after_looks : ℕ → List Bool → List Bool
after_looks zero later = true ∷ later
after_looks (suc k) later = false ∷ after_looks k later

-- No signal for `k` looks.
abbrev pub quiet : ℕ → List Bool
quiet zero = []
quiet (suc k) = false ∷ quiet k

module _ (p : Platform) where
  -- The engine with another schedule.
  abbrev pub on : List Bool → ChaosEngine p → ChaosEngine p
  on schedule e = record e { arrivals = schedule }

  -- Two engines alike but for the log, the shutdown state and the schedule.
  pub record Alike (e f : ChaosEngine p) : Type 0 where
    pub cfg_alike : f.cfg ≡ e.cfg
    pub dry_run_alike : f.dry_run ≡ e.dry_run
    pub counters_alike : f.counters ≡ e.counters
    pub used_alike : f.run_budget_used ≡ e.run_budget_used
    pub client_alike : f.docker ≡ e.docker

  -- A strike neither looks at the schedule nor touches the shutdown state.
  send-on :
      (a : Action) (c : Container) (schedule : List Bool) (e : ChaosEngine p)
      → send p a c (on schedule e) ≡ ((send p a c e).0, on schedule (send p a c e).1)
  unfolding send
  send-on stop c schedule e = refl
  send-on kill c schedule e = refl

  settle-on :
      (a : Action) (c : Container) (sent : Strike) (schedule : List Bool) (e : ChaosEngine p)
      → settle p a c sent (on schedule e) ≡ on schedule (settle p a c sent e)
  unfolding settle
  settle-on a c sent schedule e =
      if-if (on schedule) sent.ok refl
        (if-if (on schedule) (sent.http_status == 404 || sent.http_status == 409) refl refl)

  strike-on :
      (m : MatchedContainer) (schedule : List Bool) (e : ChaosEngine p)
      → strike p m (on schedule e) ≡ on schedule (strike p m e)
  unfolding strike
  strike-on m schedule e = if-if (on schedule) e.dry_run refl (
      rw (send-on (action_of p m e) m.container schedule e)
        (settle-on (action_of p m e) m.container _ schedule _))

  send-shutdown :
      (a : Action) (c : Container) (e : ChaosEngine p) → (send p a c e).1.shutdown ≡ e.shutdown
  unfolding send
  send-shutdown stop c e = refl
  send-shutdown kill c e = refl

  settle-shutdown :
      (a : Action) (c : Container) (sent : Strike) (e : ChaosEngine p)
      → (settle p a c sent e).shutdown ≡ e.shutdown
  unfolding settle
  settle-shutdown a c sent e = ground arith

  strike-shutdown :
      (m : MatchedContainer) (e : ChaosEngine p) → (strike p m e).shutdown ≡ e.shutdown
  strike-shutdown m e =
      strike_cases p (λ f. f.shutdown ≡ e.shutdown) m e (λ _ _ _. refl)
        (λ _. settle-shutdown _ m.container _ _ ∙ send-shutdown _ m.container e)

  execute_strikes-next :
      (m : MatchedContainer) (ms : List MatchedContainer) (schedule : List Bool) (e : ChaosEngine p)
      → e.shutdown.state ≡ false
      → execute_strikes p (m ∷ ms) (on (false ∷ schedule) e)
        ≡ execute_strikes p ms (on schedule (strike p m e))
  unfolding execute_strikes observe
  execute_strikes-next m ms schedule e h =
      simp h (ap (execute_strikes p ms) (strike-on m schedule e))

  execute_strikes-stop :
      (ms : List MatchedContainer) (later : List Bool) (e : ChaosEngine p)
      → Alike (on [] e) (execute_strikes p ms (on (true ∷ later) e))
  execute_strikes-stop [] later e = unfold execute_strikes in ground arith
  execute_strikes-stop (m ∷ ms) later e =
      execute_strikes_cases p (Alike (on [] e)) m ms (on (true ∷ later) e) (λ _ _ _. ground arith)
        (λ going. cc (observe_signal later e.shutdown))

  -- A signal after `k` looks cuts the sweep to its first `k` strikes: the client and the counters
  -- are what they are when those `k` alone are made.
  pub execute_strikes_interrupted :
      (k : ℕ) (later : List Bool) (ms : List MatchedContainer) (e : ChaosEngine p)
      → e.shutdown.state ≡ false
      → Alike
          (execute_strikes p (take k ms) (on (quiet k) e))
          (execute_strikes p ms (on (after_looks k later) e))
  execute_strikes_interrupted zero later ms e h =
      unfold execute_strikes in execute_strikes-stop ms later e
  execute_strikes_interrupted (suc k) later [] e h = unfold execute_strikes in ground arith
  execute_strikes_interrupted (suc k) later (m ∷ ms) e h =
      rw
        (
          execute_strikes-next m (take k ms) (quiet k) e h,
          execute_strikes-next m ms (after_looks k later) e h,
        )
        (execute_strikes_interrupted k later ms (strike p m e)
          (ap (λ s. s.state) (strike-shutdown m e) ∙ h))
