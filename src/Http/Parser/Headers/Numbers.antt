-- ===== src/Http/Parser/Headers/Numbers.antt =====
-- `std::strtoull` as the parser calls it, in base 10 with a check of the end pointer and in base 16
-- on hexadecimal digits.
use chaos_forger.Prelude.{
  ℕ, ◌+◌, ◌-◌, ◌*◌, ◌%◌, ◌^◌, Bool, ◌||◌, [], ◌∷◌, Option, none, some, Bytes, ltb, ◌==◌, within,
  is_digit, if◌then◌else◌,
}

abbrev pub word : ℕ
word = 2 ^ 64

-- `std::isspace` in the C locale.
abbrev is_space : ℕ → Bool
is_space c = c == b' ' || within 9 13 c

unfoldable pub skip_space : Bytes → Bytes
skip_space [] = []
skip_space (c ∷ cs) = let rest = skip_space cs in if is_space c then rest else c ∷ cs

-- The value of a text of digits only; `none` if another byte stands in it.
unfoldable pub digits_value : Bytes → ℕ → Option ℕ
digits_value [] acc = some acc
digits_value (c ∷ cs) acc =
    let rest = digits_value cs (acc * 10 + (c - b'0')) in if is_digit c then rest else none

-- One digit at least, and nothing behind the digits.
unfoldable pub all_digits : Bytes → Option ℕ
all_digits [] = none
all_digits (c ∷ cs) = digits_value (c ∷ cs) 0

-- Out of range the result is ULLONG_MAX, with either sign; a value in range is negated modulo 2^64.
abbrev clip : ℕ → ℕ
clip n = if ltb n word then n else word - 1

abbrev negated : ℕ → ℕ
negated n = if ltb n word then (word - n) % word else word - 1

abbrev sign : Bytes → Option ℕ
sign [] = none
sign (c ∷ cs) =
    if c == b'-'
    then elim (all_digits cs) [ none ↦ none | some n ↦ some (negated n) ]
    else elim (all_digits (if c == b'+' then cs else c ∷ cs)) [
      | none ↦ none
      | some n ↦ some (clip n)
    ]

-- `none` where no digit was read or the end pointer does not stand at the terminating NUL.
unfoldable pub strtoull : Bytes → Option ℕ
strtoull s = sign (skip_space s)

abbrev hex_digit : ℕ → ℕ
hex_digit c =
    if is_digit c then c - b'0' else if within b'a' b'f' c then c - b'a' + 10 else c - b'A' + 10

-- Base 16 on at most 16 hexadecimal digits: no overflow.
unfoldable pub hex_value : Bytes → ℕ → ℕ
hex_value [] acc = acc
hex_value (c ∷ cs) acc = hex_value cs (acc * 16 + hex_digit c)
