-- ===== src/Http/Parser/RoundTrip/Decimal.antt =====
-- `strtoull` in base 10 against `std::to_string`.
use chaos_forger.Prelude.{
  ℕ, zero, suc, ◌+◌, ◌/◌, ◌%◌, ◌^◌, ◌<◌, ◌≡◌, refl, ◌∙◌, Bool-cases, inl, inr, true, false, [], ◌∷◌,
  some, Bytes, ltb, lt→ltb, ◌==◌, digits_onto, to_string, is_digit, is_empty, All, to_string-digits,
  c_str, arith,
}
use chaos_forger.Http.Parser.Headers.{trim_front, trim_back}
use chaos_forger.Http.Parser.Headers.Numbers.{digits_value, strtoull, skip_space, all_digits, word}

digits_value-digits_onto :
    (fuel n : ℕ) (acc : Bytes)
    → n < fuel
    → digits_value (digits_onto fuel n acc) 0 ≡ digits_value acc n
unfolding digits_onto digits_value
digits_value-digits_onto zero n acc h = absurd (omega arith)
digits_value-digits_onto (suc fuel) n acc h = elim (Bool-cases (ltb n 10)) [
  | inl last ↦ ground arith
  | inr more ↦
      rw more (
        digits_value-digits_onto fuel (n / 10) ((b'0' + n % 10) ∷ acc) (ground arith)
        ∙ ground arith)
]

pub digits_value-to_string : (n : ℕ) → digits_value (to_string n) 0 ≡ some n
unfolding to_string digits_value
digits_value-to_string n = digits_value-digits_onto (suc n) n [] (omega arith)

abbrev AllDigits : Bytes → Type 0
AllDigits = All (λ c. is_digit c ≡ true)

c_str-digits : (bs : Bytes) → AllDigits bs → c_str bs ≡ bs
unfolding c_str
c_str-digits [] h = refl
c_str-digits (c ∷ cs) h = ground (arith, c_str-digits cs h.1)

skip_space-digits : (bs : Bytes) → AllDigits bs → skip_space bs ≡ bs
unfolding skip_space
skip_space-digits [] h = refl
skip_space-digits (c ∷ cs) h = ground arith

trim_front-digits : (bs : Bytes) → AllDigits bs → trim_front bs ≡ bs
unfolding trim_front
trim_front-digits [] h = refl
trim_front-digits (c ∷ cs) h = ground arith

trim_back-digits : (bs : Bytes) → AllDigits bs → trim_back bs ≡ bs
unfolding trim_back
trim_back-digits [] h = refl
trim_back-digits (c ∷ cs) h = ground (arith, trim_back-digits cs h.1)

-- White space is trimmed, and digits are none.
pub trimmed-to_string : (n : ℕ) → trim_back (trim_front (to_string n)) ≡ to_string n
trimmed-to_string n =
    rw (trim_front-digits _ (to_string-digits n)) (trim_back-digits _ (to_string-digits n))

-- The digits that `to_string` writes are read back.
strtoull-digits :
    (bs : Bytes) (n : ℕ)
    → AllDigits bs
    → digits_value bs 0 ≡ some n
    → is_empty bs ≡ false
    → n < 2 ^ 64
    → strtoull (c_str bs) ≡ some n
unfolding strtoull all_digits
strtoull-digits [] n h e k b = absurd (ground arith)
strtoull-digits (c ∷ cs) n h e k b =
    let minus : (c == b'-') ≡ false = ground arith in
    let plus : (c == b'+') ≡ false = ground arith in
    let fits : ltb n word ≡ true = lt→ltb n word b in
    rw (c_str-digits (c ∷ cs) h, strtoull, skip_space-digits (c ∷ cs) h, minus, plus, e, fits) refl

digits_onto-not_empty :
    (fuel n : ℕ) (acc : Bytes) → is_empty acc ≡ false → is_empty (digits_onto fuel n acc) ≡ false
unfolding digits_onto
digits_onto-not_empty zero n acc h = h
digits_onto-not_empty (suc fuel) n acc h =
    ground (arith, digits_onto-not_empty fuel (n / 10) ((b'0' + n % 10) ∷ acc) refl)

to_string-not_empty : (n : ℕ) → is_empty (to_string n) ≡ false
unfolding to_string digits_onto
to_string-not_empty n = elim (Bool-cases (ltb n 10)) [
  | inl last ↦ rw last refl
  | inr more ↦ rw more (digits_onto-not_empty n (n / 10) _ refl)
]

-- A number below 2^64 that `to_string` writes is read back.
pub strtoull-to_string : (n : ℕ) → n < 2 ^ 64 → strtoull (c_str (to_string n)) ≡ some n
strtoull-to_string n b =
    strtoull-digits (to_string n) n (to_string-digits n) (digits_value-to_string n)
      (to_string-not_empty n) b
