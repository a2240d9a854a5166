-- ===== src/Engine/Passive.antt =====
-- The modes in which no container is ever touched.
use chaos_forger.Prelude.{
  ℕ, zero, suc, ◌≡◌, refl, ◌∙◌, sym, Bool, true, false, List, [], ◌∷◌, ◌⊎◌, inl, inr, Bytes, arith,
  subst, none, if_cases, ltb, length,
}
use chaos_forger.Docker.Api.{Container}
use chaos_forger.Discovery.{MatchedContainer}
use chaos_forger.Log.{LogLevel}
use chaos_forger.Shutdown.{ShutdownState}
use chaos_forger.Double.{RandomLaws}
use chaos_forger.Chaos.Roller.{roll}
use chaos_forger.Engine.State.{Platform, ChaosEngine, look}
use chaos_forger.Engine.Tick.{
  should_strike, execute_strikes, log_matches, log_budget, strike, sweep, roll_and_strike, act_on,
  tick,
}
use chaos_forger.Engine.Steps.{
  listed, strike_cases, execute_strikes_cases, roll_and_strike_cases, act_on_cases, tick_cases,
}
use chaos_forger.Engine.Budget.{ticks}

module _ (p : Platform) where
  -- The second engine has sent nothing since the first: the client, the strike count and the
  -- budget in use are the first one's, and so is all that makes an engine passive.
  pub record Idle (e f : ChaosEngine p) : Type 0 where
    pub client_kept : f.docker ≡ e.docker
    pub strikes_kept : f.counters.strikes ≡ e.counters.strikes
    pub used_kept : f.run_budget_used ≡ e.run_budget_used
    pub dry_run_kept : f.dry_run ≡ e.dry_run
    pub discover_only_kept : f.discover_only ≡ e.discover_only
    pub probability_kept : f.roller.probability ≡ e.roller.probability
    pub unforced_kept : e.forced_roll ≡ none → f.forced_roll ≡ none

  Idle-trans : {e f g : ChaosEngine p} → Idle e f → Idle f g → Idle e g
  Idle-trans a b = record {
    client_kept = b.client_kept ∙ a.client_kept;
    strikes_kept = b.strikes_kept ∙ a.strikes_kept;
    used_kept = b.used_kept ∙ a.used_kept;
    dry_run_kept = b.dry_run_kept ∙ a.dry_run_kept;
    discover_only_kept = b.discover_only_kept ∙ a.discover_only_kept;
    probability_kept = b.probability_kept ∙ a.probability_kept;
    unforced_kept = λ h. b.unforced_kept (a.unforced_kept h);
  }

  -- A change of the log, of the shutdown state and of the other counters is none here.
  Idle-log :
      (e : ChaosEngine p) (s : ShutdownState) (bs : List Bool) (rolls errors : ℕ)
      (l : List (LogLevel × Bytes))
      → Idle e (record e {
        shutdown = s;
        arrivals = bs;
        counters = record { rolls = rolls; strikes = e.counters.strikes; errors = errors };
        logged = l;
      })
  Idle-log e s bs rolls errors l = record {
    client_kept = refl;
    strikes_kept = refl;
    used_kept = refl;
    dry_run_kept = refl;
    discover_only_kept = refl;
    probability_kept = refl;
    unforced_kept = λ h. h;
  }

  should_strike-Idle : (e : ChaosEngine p) → Idle e (should_strike p e).1
  unfolding should_strike roll
  should_strike-Idle e = ground arith

  log_matches-Idle : (ms : List MatchedContainer) (e : ChaosEngine p) → Idle e (log_matches p ms e)
  unfolding log_matches
  log_matches-Idle [] e = Idle-log e _ _ _ _ _
  log_matches-Idle (m ∷ ms) e = Idle-trans (Idle-log e _ _ _ _ _) (log_matches-Idle ms _)

  log_budget-Idle :
      (s ms : List MatchedContainer) (e : ChaosEngine p) → Idle e (log_budget p s ms e)
  unfolding log_budget
  log_budget-Idle s ms e =
      if_cases (Idle e) (ltb (length s) (length ms)) (λ _. Idle-log e _ _ _ _ _)
        (λ _. Idle-log e _ _ _ _ _)

  execute_strikes-dry :
      (ms : List MatchedContainer) (e : ChaosEngine p)
      → e.dry_run ≡ true
      → Idle e (execute_strikes p ms e)
  execute_strikes-dry [] e d = unfold execute_strikes in Idle-log e _ _ _ _ _
  execute_strikes-dry (m ∷ ms) e d =
      execute_strikes_cases p (Idle e) m ms e (λ _ _ _. Idle-log e _ _ _ _ _)
        (λ _.
          let struck : Idle e (strike p m (look p e)) =
            strike_cases p (Idle e) m (look p e) (λ _ _ _. Idle-log e _ _ _ _ _) (λ live. cc) in
          Idle-trans struck (execute_strikes-dry ms _ (struck.dry_run_kept ∙ d)))

  sweep-dry :
      (ms : List MatchedContainer) (e : ChaosEngine p) → e.dry_run ≡ true → Idle e (sweep p ms e)
  unfolding sweep
  sweep-dry ms e d =
      let logged = log_budget-Idle _ ms e in
      Idle-trans logged (execute_strikes-dry _ _ (logged.dry_run_kept ∙ d))

  -- Dry-run mode, discovery mode, or a probability of 0.0 with no forced roll.
  pub data Passive (e : ChaosEngine p) : Type 0 where
    by_dry_run : e.dry_run ≡ true → Passive e
    by_discovery : e.discover_only ≡ true → Passive e
    by_probability : e.roller.probability ≡ p.double.zero → e.forced_roll ≡ none → Passive e

  Idle-Passive : {e f : ChaosEngine p} → Idle e f → Passive e → Passive f
  Idle-Passive i (by_dry_run h) = by_dry_run (i.dry_run_kept ∙ h)
  Idle-Passive i (by_discovery h) = by_discovery (i.discover_only_kept ∙ h)
  Idle-Passive i (by_probability h k) = by_probability (i.probability_kept ∙ h) (i.unforced_kept k)

  module _ (laws : RandomLaws p.random) where
    -- With probability 0.0 the gate does not open.
    should_strike_never :
        (e : ChaosEngine p)
        → e.roller.probability ≡ p.double.zero
        → e.forced_roll ≡ none
        → (should_strike p e).0 ≡ false
    unfolding should_strike roll
    should_strike_never e h k = ground (arith, laws.not-lt-zero e.roller.rng)

    sweep-Passive :
        (ms : List MatchedContainer) (e : ChaosEngine p)
        → Passive e
        → e.discover_only ≡ false
        → (should_strike p e).0 ≡ true
        → Idle e (sweep p ms (should_strike p e).1)
    sweep-Passive ms e (by_dry_run h) _ _ =
        let rolled = should_strike-Idle e in
        Idle-trans rolled (sweep-dry ms _ (rolled.dry_run_kept ∙ h))
    sweep-Passive ms e (by_discovery h) only _ = cc
    sweep-Passive ms e (by_probability h k) _ fires = cc (should_strike_never e h k)

    roll_and_strike-Passive :
        (ms : List MatchedContainer) (e : ChaosEngine p)
        → Passive e
        → Idle e (roll_and_strike p ms e)
    roll_and_strike-Passive ms e h =
        roll_and_strike_cases p (Idle e) ms e (λ _ _ _. Idle-log e _ _ _ _ _)
          (λ _ _. Idle-log e _ _ _ _ _)
          (λ _ only. (
            (λ fires.
                Idle-trans (look-Idle e)
                  (sweep-Passive ms (look p e) (Idle-Passive (look-Idle e) h) only fires)),
            λ _. Idle-trans (look-Idle e) (should_strike-Idle (look p e)),
          ))
      where
        look-Idle : (e : ChaosEngine p) → Idle e (look p e)
        look-Idle e = Idle-log e _ _ _ _ _

    act_on-Passive :
        (running : List Container) (e : ChaosEngine p) → Passive e → Idle e (act_on p running e)
    act_on-Passive running e h = act_on_cases p (Idle e) running e (
      (λ _ _ _. Idle-log e _ _ _ _ _),
      (let logged = log_matches-Idle _ e in
          Idle-trans logged (roll_and_strike-Passive _ _ (Idle-Passive logged h))),
    )

    listed-Passive : (e : ChaosEngine p) → Passive e → Passive (listed p e)
    listed-Passive e (by_dry_run h) = by_dry_run h
    listed-Passive e (by_discovery h) = by_discovery h
    listed-Passive e (by_probability h k) = by_probability h k

    -- A passive tick does nothing to the client but list, if that, and stays passive.
    tick-Passive :
        (e : ChaosEngine p) → Passive e → (Idle e (tick p e).1) ⊎ (Idle (listed p e) (tick p e).1)
    tick-Passive e h =
        tick_cases p (λ f. (Idle e f) ⊎ (Idle (listed p e) f)) e
          (λ _ _ _. inl (Idle-log e _ _ _ _ _))
          (λ _. (
            (λ _ _ _ _. inr (Idle-log (listed p e) _ _ _ _ _)),
            λ running _ lvl line.
                let logged = Idle-log (listed p e) _ _ _ _ _ in
                inr (
                  Idle-trans logged
                    (act_on-Passive running _ (Idle-Passive logged (listed-Passive e h)))),
          ))

    pub tick-keeps_client {ℓ} :
        (P : p.docker_api.Client → Type ℓ)
        → ((c : p.docker_api.Client) → P c → P (p.docker_api.list_containers c).1)
        → (e : ChaosEngine p) → Passive e
        → P e.docker
        → P (tick p e).1.docker
          × ((tick p e).1.counters.strikes ≡ e.counters.strikes)
          × ((tick p e).1.run_budget_used ≡ e.run_budget_used)
          × Passive (tick p e).1
    tick-keeps_client P closed e h c = elim (tick-Passive e h) [
      | inl i ↦ (subst P (sym i.client_kept) c, i.strikes_kept, i.used_kept, Idle-Passive i h)
      | inr i ↦ (
        subst P (sym i.client_kept) (closed e.docker c),
        i.strikes_kept,
        i.used_kept,
        Idle-Passive i (listed-Passive e h),
      )
    ]

    -- In dry-run mode, in discovery mode, and with a probability of 0.0 whose roll is not forced,
    -- no number of ticks strikes a container: of the client's calls only the listing is made, so
    -- that whatever the listing preserves of the client and its daemon still holds; the strikes
    -- counted and the budget in use stay.
    pub ticks-Passive {ℓ} :
        (P : p.docker_api.Client → Type ℓ)
        → ((c : p.docker_api.Client) → P c → P (p.docker_api.list_containers c).1)
        → (n : ℕ) (e : ChaosEngine p) → Passive e
        → P e.docker
        → P (ticks p n e).docker
          × ((ticks p n e).counters.strikes ≡ e.counters.strikes)
          × ((ticks p n e).run_budget_used ≡ e.run_budget_used)
          × Passive (ticks p n e)
    unfolding ticks
    ticks-Passive P closed zero e h c = (c, refl, refl, h)
    ticks-Passive P closed (suc n) e h c =
        let (c', s, u, h') = ticks-Passive P closed n e h c in
        let (c'', s', u', h'') = tick-keeps_client P closed (ticks p n e) h' c' in
        (c'', s' ∙ s, u' ∙ u, h'')
