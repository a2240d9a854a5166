-- ===== src/Chaos/Roller.antt =====
-- `ChaosRoller` of src/chaos.cpp, over the `double` and the generator of Double.antt.
pub mod Gate
use chaos_forger.Prelude.{ℕ, ◌+◌, ◌%◌, ◌^◌, Bool, if◌then◌else◌}
use chaos_forger.Double.{Double, Random}

-- `++n` on an `unsigned long long`.
abbrev pub bump : ℕ → ℕ
bump n = (n + 1) % 2 ^ 64

module _ (d : Double) (random : Random d) where
  open d use {Carrier, lt, isnan, zero, one}

  pub record ChaosRoller : Type 0 where
    pub probability : Carrier
    pub rolls : ℕ
    pub rng : random.State

  -- The constructors: the seed is the generator's first state.
  abbrev pub seeded : random.State → ChaosRoller
  seeded seed = record { probability = zero; rolls = 0; rng = seed }

  unfoldable pub set_probability : Carrier → ChaosRoller → ChaosRoller
  set_probability p r =
      if isnan p
      then record r { probability = zero }
      else let at_least = if lt p zero then zero else p in
        record r { probability = if lt one at_least then one else at_least }

  -- The decision, the value of `*rolled`, and the roller afterwards.
  unfoldable pub roll : ChaosRoller → Bool × Carrier × ChaosRoller
  roll r =
      let (value, rng) = random.uniform r.rng in
      (lt value r.probability, value, record r { rolls = bump r.rolls; rng = rng })
