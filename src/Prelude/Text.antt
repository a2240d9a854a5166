-- ===== src/Prelude/Text.antt =====
-- `std::string` as the list of its bytes: the operations of the standard library that the
-- program uses. `npos` is `none`. Literals are ASCII and are kept shut by `text`.
use Prim.Native.Nat.{ℕ, zero, suc, ◌+◌, ◌/◌, ◌%◌}
use Prim.Native.Char.{code}
use Prim.Native.String.{String}
use mathlib.Core.Path.{◌≡◌, refl}
use mathlib.Core.Logic.{◌↔◌, inl, inr}
use mathlib.Core.Bool.{Bool, true, false, ◌&&◌, ◌||◌}
use mathlib.Core.List.{List, [], ◌∷◌, ◌++◌}
use mathlib.Core.Option.{Option, none, some}
use mathlib.Core.Option
use native.Mathlib.Omega.{arith}
use chaos_forger.Prelude.Tests.{ltb, leb, ◌==◌, if◌then◌else◌, Bool-cases}
use chaos_forger.Prelude.Lists.{take, drop, All}

abbrev pub Bytes : Type 0
Bytes = List ℕ

unfoldable pub text : String → Bytes
text String.[] = []
text (String.◌∷◌ c s) = code c ∷ text s

-- The C string of `s.c_str()`: the bytes before the first NUL.
unfoldable pub c_str : Bytes → Bytes
c_str [] = []
c_str (c ∷ cs) = if c == 0 then [] else c ∷ c_str cs

-- `operator==` on strings.
unfoldable pub same : Bytes → Bytes → Bool
same [] [] = true
same (x ∷ xs) (y ∷ ys) = x == y && same xs ys
same _ _ = false

-- `s.compare(0, p.size(), p) == 0`.
unfoldable pub has_prefix : Bytes → Bytes → Bool
has_prefix s [] = true
has_prefix [] (y ∷ ys) = false
has_prefix (x ∷ xs) (y ∷ ys) = x == y && has_prefix xs ys

-- `s.find(p)`: the first position at which `p` occurs.
unfoldable pub find? : Bytes → Bytes → Option ℕ
find? [] p = if has_prefix [] p then some 0 else none
find? (x ∷ xs) p = if has_prefix (x ∷ xs) p then some 0 else Option.map suc (find? xs p)

-- `s.find(p, from)`.
unfoldable pub find_from? : Bytes → Bytes → ℕ → Option ℕ
unfolding find?
find_from? s p from = Option.map (λ i. from + i) (find? (drop from s) p)

-- `s.substr(from, count)` for `from <= s.size()`.
abbrev pub substr : Bytes → ℕ → ℕ → Bytes
substr s from count = take count (drop from s)

abbrev pub is_empty {ℓ} : {A : Type ℓ} → List A → Bool
is_empty [] = true
is_empty (_ ∷ _) = false

abbrev pub within : ℕ → ℕ → ℕ → Bool
within lo hi c = leb lo c && leb c hi

-- `std::isdigit`, `std::isxdigit` and `std::tolower` in the C locale.
abbrev pub is_digit : ℕ → Bool
is_digit = within b'0' b'9'

abbrev pub is_xdigit : ℕ → Bool
is_xdigit c = within b'0' b'9' c || within b'a' b'f' c || within b'A' b'F' c

abbrev pub tolower : ℕ → ℕ
tolower c = if within b'A' b'Z' c then c + 32 else c

unfoldable pub digits_onto : ℕ → ℕ → Bytes → Bytes
digits_onto zero n acc = acc
digits_onto (suc fuel) n acc =
    let shown = (b'0' + n % 10) ∷ acc in
    let more = digits_onto fuel (n / 10) shown in if ltb n 10 then shown else more

-- `std::to_string` of an unsigned number; one unit of fuel for each digit is enough.
unfoldable pub to_string : ℕ → Bytes
unfolding digits_onto
to_string n = digits_onto (suc n) n []

pub same_iff : (a b : Bytes) → (same a b ≡ true) ↔ (a ≡ b)
unfolding same
same_iff [] [] = ground arith
same_iff [] (y ∷ b) = ground arith
same_iff (x ∷ a) [] = ground arith
same_iff (x ∷ a) (y ∷ b) = ground (arith, same_iff a b)

pub has_prefix_self : (p r : Bytes) → has_prefix (p ++ r) p ≡ true
unfolding has_prefix
has_prefix_self [] r = refl
has_prefix_self (x ∷ p) r = ground (arith, has_prefix_self p r)

pub split_of_has_prefix : (s p : Bytes) → has_prefix s p ≡ true → (r : Bytes) × (s ≡ p ++ r)
unfolding has_prefix
split_of_has_prefix s [] h = (s, refl)
split_of_has_prefix [] (y ∷ p) h = cc
split_of_has_prefix (x ∷ s) (y ∷ p) h =
    let (r, e) = split_of_has_prefix s p (ground arith) in (r, ground arith)

digits_onto-digits :
    (fuel n : ℕ) (acc : Bytes)
    → All (λ c. is_digit c ≡ true) acc
    → All (λ c. is_digit c ≡ true) (digits_onto fuel n acc)
unfolding digits_onto
digits_onto-digits zero n acc h = h
digits_onto-digits (suc fuel) n acc h =
    let shown : All (λ c. is_digit c ≡ true) ((b'0' + n % 10) ∷ acc) = (ground arith, h) in
    elim (Bool-cases (ltb n 10)) [
      | inl last ↦ rw last shown
      | inr more ↦ rw more (digits_onto-digits fuel (n / 10) _ shown)
    ]

pub to_string-digits : (n : ℕ) → All (λ c. is_digit c ≡ true) (to_string n)
unfolding to_string
to_string-digits n = digits_onto-digits (suc n) n [] tt
