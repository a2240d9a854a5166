-- ===== src/Double.antt =====
-- IEEE `double`, which the language supplies: the operations that the program applies to such
-- values, as a parameter. The model never computes a `double` itself.
use chaos_forger.Prelude.{◌≡◌, ◌<◌, Bool, true, false, Bytes, ℕ, ltb, ℤ, pos, Option}

pub record Double : Type 1 where
  pub Carrier : Type 0
  -- `a < b`
  pub lt : Carrier → Carrier → Bool
  pub isnan : Carrier → Bool
  -- the literals 0.0 and 1.0
  pub zero : Carrier
  pub one : Carrier
  -- `v == std::floor(v)`, and `std::isfinite(v)`
  pub is_integral : Carrier → Bool
  pub isfinite : Carrier → Bool
  -- the literal of a whole number, and the cast to an integer type
  pub literal : ℕ → Carrier
  pub to_integer : Carrier → ℤ
  -- `std::stod`, `none` where it throws
  pub stod : Bytes → Option Carrier
  -- `os << v`
  pub general : Carrier → Bytes
  -- `os << std::fixed << std::setprecision(2) << v`
  pub fixed2 : Carrier → Bytes

-- What the code relies on: comparison of a value with itself, and the literals.
pub record DoubleLaws (d : Double) : Type 0 where
  pub lt-irrefl : (a : d.Carrier) → d.lt a a ≡ false
  pub not-one-lt-zero : d.lt d.one d.zero ≡ false
  pub zero-not_nan : d.isnan d.zero ≡ false
  pub one-not_nan : d.isnan d.one ≡ false

-- The literals below 2^31 are exact, and so is the cast of a whole number between two of them:
-- it compares with such literals as the number does that it is cast to. (-0.0 is cast to 0.)
pub record CastLaws (d : Double) : Type 0 where
  pub to_integer-between :
      (a b : ℕ) (v : d.Carrier)
      → a < 2147483648
      → b < 2147483648
      → d.is_integral v ≡ true
      → d.lt v (d.literal a) ≡ false
      → d.lt (d.literal b) v ≡ false
      → (n : ℕ) × (d.to_integer v ≡ pos n)
        × ((k : ℕ)
            → k < 2147483648
            → (d.lt v (d.literal k) ≡ ltb n k) × (d.lt (d.literal k) v ≡ ltb k n))

-- `std::mt19937_64` under `std::uniform_real_distribution<double>(0.0, 1.0)`.
pub record Random (d : Double) : Type 1 where
  pub State : Type 0
  pub uniform : State → d.Carrier × State

-- The distribution yields values of [0, 1).
pub record RandomLaws {d : Double} (r : Random d) : Type 0 where
  pub not-lt-zero : (s : r.State) → d.lt (r.uniform s).0 d.zero ≡ false
  pub lt-one : (s : r.State) → d.lt (r.uniform s).0 d.one ≡ true
