-- ===== src/Engine/Frame.antt =====
-- What no part of a tick changes, and how much a strike adds to the budget in use.
use chaos_forger.Prelude.{ℕ, suc, ◌+◌, ◌≤◌, ◌≡◌, refl, ◌∙◌, List, [], ◌∷◌, length, arith}
use chaos_forger.Config.{Action, stop, kill}
use chaos_forger.Docker.Api.{Container, Strike}
use chaos_forger.Discovery.{MatchedContainer}
use chaos_forger.Engine.State.{Platform, ChaosEngine, look}
use chaos_forger.Engine.Steps.{strike_cases, execute_strikes_cases}
use chaos_forger.Engine.Tick.{
  should_strike, send, settle, strike, execute_strikes, log_matches, log_budget,
}

module _ (p : Platform) where
  -- The second engine has the settings of the first, and its budget in use is at most
  -- `n` more.
  pub record Within (n : ℕ) (e f : ChaosEngine p) : Type 0 where
    pub cfg_kept : f.cfg ≡ e.cfg
    pub dry_run_kept : f.dry_run ≡ e.dry_run
    pub discover_only_kept : f.discover_only ≡ e.discover_only
    pub used_ge : e.run_budget_used ≤ f.run_budget_used
    pub used_le : f.run_budget_used ≤ e.run_budget_used + n

  pub Within-trans :
      {e f g : ChaosEngine p} (m n : ℕ) → Within m e f → Within n f g → Within (m + n) e g
  Within-trans m n a b = record {
    cfg_kept = b.cfg_kept ∙ a.cfg_kept;
    dry_run_kept = b.dry_run_kept ∙ a.dry_run_kept;
    discover_only_kept = b.discover_only_kept ∙ a.discover_only_kept;
    used_ge = omega arith;
    used_le = omega arith;
  }

  -- Steps that strike nothing may come first.
  pub Within-after : {e f g : ChaosEngine p} (n : ℕ) → Within 0 e f → Within n f g → Within n e g
  Within-after n a b = record {
    cfg_kept = b.cfg_kept ∙ a.cfg_kept;
    dry_run_kept = b.dry_run_kept ∙ a.dry_run_kept;
    discover_only_kept = b.discover_only_kept ∙ a.discover_only_kept;
    used_ge = omega arith;
    used_le = omega arith;
  }

  pub look-Within : (e : ChaosEngine p) → Within 0 e (look p e)
  look-Within e = ground arith

  pub should_strike-Within : (e : ChaosEngine p) → Within 0 e (should_strike p e).1
  unfolding should_strike
  should_strike-Within e = ground arith

  send-Within : (a : Action) (c : Container) (e : ChaosEngine p) → Within 0 e (send p a c e).1
  unfolding send
  send-Within stop c e = ground arith
  send-Within kill c e = ground arith

  settle-Within :
      (a : Action) (c : Container) (sent : Strike) (e : ChaosEngine p)
      → Within 1 e (settle p a c sent e)
  unfolding settle
  settle-Within a c sent e = ground arith

  pub strike-Within : (m : MatchedContainer) (e : ChaosEngine p) → Within 1 e (strike p m e)
  strike-Within m e =
      strike_cases p (Within 1 e) m e (λ _ _ _. ground arith)
        (λ _. Within-trans 0 1 (send-Within _ m.container e) (settle-Within _ m.container _ _))

  pub execute_strikes-Within :
      (ms : List MatchedContainer) (e : ChaosEngine p)
      → Within (length ms) e (execute_strikes p ms e)
  unfolding execute_strikes
  execute_strikes-Within [] e = ground arith
  execute_strikes-Within (m ∷ ms) e =
      execute_strikes_cases p (Within (length (m ∷ ms)) e) m ms e (λ _ _ _. ground arith)
        (λ _. weaken (
          Within-trans 0 (1 + length ms) (look-Within e) (
            Within-trans 1 (length ms) (strike-Within m (look p e)) (execute_strikes-Within ms _))))
    where
      weaken : {f : ChaosEngine p} → Within (0 + (1 + length ms)) e f → Within (suc (length ms)) e f
      weaken w = ground arith

  pub log_matches-Within :
      (ms : List MatchedContainer) (e : ChaosEngine p) → Within 0 e (log_matches p ms e)
  unfolding log_matches
  log_matches-Within [] e = ground arith
  log_matches-Within (m ∷ ms) e =
      Within-trans 0 0
        (record {
          cfg_kept = refl;
          dry_run_kept = refl;
          discover_only_kept = refl;
          used_ge = omega arith;
          used_le = omega arith;
        })
        (log_matches-Within ms _)

  pub log_budget-Within :
      (s ms : List MatchedContainer) (e : ChaosEngine p) → Within 0 e (log_budget p s ms e)
  unfolding log_budget
  log_budget-Within s ms e = ground arith
