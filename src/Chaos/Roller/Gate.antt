-- ===== src/Chaos/Roller/Gate.antt =====
-- The documented contract of the probability gate, under the laws of Double.antt.
use chaos_forger.Prelude.{◌≡◌, true, false, inl, inr, ◌⊎◌, arith}
use chaos_forger.Double.{Double, DoubleLaws, Random, RandomLaws}
use chaos_forger.Chaos.Roller.{ChaosRoller, set_probability, roll}

module _ (d : Double) (random : Random d) (laws : DoubleLaws d) where
  open d use {Carrier, lt, isnan, zero, one}

  -- Any value is clamped into [0.0, 1.0], and a NaN to 0.0.
  pub set_probability_range :
      (p : Carrier) (r : ChaosRoller d random)
      → let q = (set_probability d random p r).probability in
        (lt q zero ≡ false) × (lt one q ≡ false) × (isnan q ≡ false)
  unfolding set_probability
  set_probability_range p r = ground (
    arith,
    laws.lt-irrefl zero,
    laws.lt-irrefl one,
    laws.not-one-lt-zero,
    laws.zero-not_nan,
    laws.one-not_nan,
  )

  -- With a probability of 0.0, or a NaN, no roll fires.
  pub roll_never :
      RandomLaws random
      → (p : Carrier) (r : ChaosRoller d random) → (p ≡ zero) ⊎ (isnan p ≡ true)
      → (roll d random (set_probability d random p r)).0 ≡ false
  unfolding set_probability roll
  roll_never gen p r (inl e) =
      ground (arith, gen.not-lt-zero r.rng, laws.lt-irrefl zero, laws.not-one-lt-zero)
  roll_never gen p r (inr e) = ground (arith, gen.not-lt-zero r.rng)

  -- With a probability of 1.0 every roll fires.
  pub roll_always :
      RandomLaws random
      → (p : Carrier) (r : ChaosRoller d random) → p ≡ one
      → (roll d random (set_probability d random p r)).0 ≡ true
  unfolding set_probability roll
  roll_always gen p r e =
      ground (arith, gen.lt-one r.rng, laws.lt-irrefl one, laws.not-one-lt-zero, laws.one-not_nan)
