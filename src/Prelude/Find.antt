-- ===== src/Prelude/Find.antt =====
-- What `std::string::find` returns: the first position at which the pattern occurs.
use Prim.Native.Nat.{ℕ, suc, ◌+◌, ◌≤◌}
use mathlib.Core.Path.{◌≡◌, ap}
use mathlib.Core.Logic.{inl, inr}
use mathlib.Core.Bool.{true, false}
use mathlib.Core.List.{[], ◌∷◌, ◌++◌}
use mathlib.Core.Option.{Option, none, some}
use mathlib.Core.Option
use native.Mathlib.Omega.{arith}
use chaos_forger.Prelude.Tests.{Bool-cases, Option-cases}
use chaos_forger.Prelude.Lists.{length, length-append}
use chaos_forger.Prelude.Text.{Bytes, has_prefix, find?, has_prefix_self, split_of_has_prefix}

pub find?_at_start : (s p : Bytes) → has_prefix s p ≡ true → find? s p ≡ some 0
unfolding find?
find?_at_start [] p h = rw h
find?_at_start (x ∷ s) p h = rw h

pub find?-cons :
    (x : ℕ) (s p : Bytes)
    → has_prefix (x ∷ s) p ≡ false
    → find? (x ∷ s) p ≡ Option.map suc (find? s p)
unfolding find?
find?-cons x s p h = rw h

-- The search succeeds where the pattern occurs, at that position or before it.
pub find?-append : (b p a : Bytes) → (i : ℕ) × (find? (b ++ (p ++ a)) p ≡ some i) × (i ≤ length b)
find?-append [] p a = (0, find?_at_start (p ++ a) p (has_prefix_self p a), omega arith)
find?-append (x ∷ b) p a = elim (Bool-cases (has_prefix (x ∷ (b ++ (p ++ a))) p)) [
  | inl here ↦ (0, find?_at_start _ p here, omega arith)
  | inr away ↦
      let (i, found, le) = find?-append b p a in
      (suc i, rw (find?-cons x _ p away, found), omega arith)
]

-- What the search returns is an occurrence.
pub find?_sound :
    (s p : Bytes) (i : ℕ)
    → find? s p ≡ some i
    → (b : Bytes) × (a : Bytes) × (s ≡ b ++ (p ++ a)) × (length b ≡ i)
unfolding find?
find?_sound [] p i h = elim (Bool-cases (has_prefix [] p)) [
  | inl here ↦ let (r, e) = split_of_has_prefix [] p here in ([], r, e, ground arith)
  | inr away ↦ absurd (ground arith)
]
find?_sound (x ∷ s) p i h = elim (Bool-cases (has_prefix (x ∷ s) p)) [
  | inl here ↦ let (r, e) = split_of_has_prefix (x ∷ s) p here in ([], r, e, ground arith)
  | inr away ↦ elim (Option-cases (find? s p)) [
    | inl missing ↦ absurd (ground arith)
    | inr (j, found) ↦
        let (b, a, e, le) = find?_sound s p j found in (x ∷ b, a, ap (◌∷◌ x) e, ground arith)
  ]
]

-- An occurrence fits into the text.
pub find?-fits : (s p : Bytes) (i : ℕ) → find? s p ≡ some i → i + length p ≤ length s
find?-fits s p i h =
    let (b, a, split, at_i) = find?_sound s p i h in
    omega (arith, ap length split, length-append b (p ++ a), length-append p a)
