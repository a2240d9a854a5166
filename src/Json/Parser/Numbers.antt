-- ===== src/Json/Parser/Numbers.antt =====
-- `parse_number` of src/json.cpp on numerals.
use chaos_forger.Prelude.{
  ℕ, ◌+◌, ◌-◌, ◌≡◌, refl, sym, ap, ◌∙◌, Bool, true, false, ◌||◌, [], ◌∷◌, ◌++◌, append_assoc,
  append-nil, some, Bytes, length, length-append, take, drop, is_digit, All, ◌==◌, if◌then◌else◌,
  arith,
}
use chaos_forger.Double.{Double}
use chaos_forger.Json.{number}
use chaos_forger.Json.Cursor.{Cursor, parsed, starts}
use chaos_forger.Json.Strings.RoundTrip.{at, at-eq}
use chaos_forger.Json.Parser.{
  digits, sign, skip_digits, fraction, exponent, number_between, parse_number,
}
use chaos_forger.Json.Parser.Writer.{Numeral, signed, fraction_onto, spell_onto, IsDigit, IsNumeral}

-- No character with which a numeral could go on.
abbrev pub goes_on : ℕ → Bool
goes_on c = is_digit c || (c == b'.' || (c == b'e' || c == b'E'))

abbrev pub Delimited : Bytes → Type 0
Delimited [] = Unit
Delimited (c ∷ cs) = goes_on c ≡ false

digits-append : (ds rest : Bytes) → All IsDigit ds → digits (ds ++ rest) ≡ length ds + digits rest
unfolding digits
digits-append [] rest h = omega arith
digits-append (x ∷ xs) rest (h, hs) = rw (h) (omega (arith, digits-append xs rest hs))

digits-Delimited : (rest : Bytes) → Delimited rest → digits rest ≡ 0
unfolding digits
digits-Delimited [] h = refl
digits-Delimited (c ∷ cs) h = ground arith

pub drop-append : (xs ys : Bytes) → drop (length xs) (xs ++ ys) ≡ ys
drop-append [] ys = refl
drop-append (x ∷ xs) ys = drop-append xs ys

take-append : (xs ys : Bytes) → take (length xs) (xs ++ ys) ≡ xs
take-append [] ys = refl
take-append (x ∷ xs) ys = ap (◌∷◌ x) (take-append xs ys)

-- Digits in front of a text that does not begin with one are skipped.
skip_digits-append :
    (ds rest : Bytes) (pos : ℕ) (message : Bytes)
    → All IsDigit ds
    → digits rest ≡ 0
    → skip_digits (at (ds ++ rest) pos message) ≡ at rest (pos + length ds) message
unfolding skip_digits
skip_digits-append ds rest pos message h k =
    let count : digits (ds ++ rest) ≡ length ds = omega (arith, digits-append ds rest h) in
    ap (λ n. at (drop n (ds ++ rest)) (pos + n) message) count
    ∙ ap (λ r. at r (pos + length ds) message) (drop-append ds rest)

sign-signed :
    (negative : Bool) (x : ℕ) (xs : Bytes) (pos : ℕ) (message : Bytes)
    → IsDigit x
    → sign (at (signed negative (x ∷ xs)) pos message)
      ≡ at (x ∷ xs) (pos + (if negative then 1 else 0)) message
unfolding sign starts
sign-signed true x xs pos message h = refl
sign-signed false x xs pos message h =
    let unsigned : ((x == b'-') || (x == b'+')) ≡ false = ground arith in
    rw (unsigned) (at-eq (x ∷ xs) message (omega arith))

fraction-fraction_onto :
    (decimals tail : Bytes) (pos : ℕ) (message : Bytes)
    → All IsDigit decimals
    → Delimited tail
    → fraction (at (fraction_onto decimals tail) pos message)
      ≡ at tail (pos + length (fraction_onto decimals [])) message
unfolding fraction starts
fraction-fraction_onto [] [] pos message h k = at-eq [] message (omega arith)
fraction-fraction_onto [] (c ∷ cs) pos message h k =
    let pointless : (c == b'.') ≡ false = ground arith in
    rw (pointless) (at-eq (c ∷ cs) message (omega arith))
fraction-fraction_onto (x ∷ xs) tail pos message h k =
    skip_digits-append (x ∷ xs) tail (pos + 1) message h (digits-Delimited tail k)
    ∙ at-eq tail message (omega (arith, length-append (x ∷ xs) []))

exponent-Delimited :
    (tail : Bytes) (pos : ℕ) (message : Bytes)
    → Delimited tail
    → exponent (at tail pos message) ≡ at tail pos message
unfolding exponent starts
exponent-Delimited [] pos message h = refl
exponent-Delimited (c ∷ cs) pos message h = ground arith

-- The numeral's length.
abbrev width : Bool → Bytes → Bytes → ℕ
width negative whole decimals =
    (if negative then 1 else 0) + length whole + length (fraction_onto decimals [])

length-signed :
    (negative : Bool) (rest : Bytes)
    → length (signed negative rest) ≡ (if negative then 1 else 0) + length rest
length-signed true rest = omega arith
length-signed false rest = omega arith

signed-append :
    (negative : Bool) (rest tail : Bytes)
    → signed negative rest ++ tail ≡ signed negative (rest ++ tail)
signed-append true rest tail = refl
signed-append false rest tail = refl

fraction_onto-append :
    (decimals tail : Bytes) → fraction_onto decimals [] ++ tail ≡ fraction_onto decimals tail
fraction_onto-append [] tail = refl
fraction_onto-append (x ∷ xs) tail = rw (append-nil xs) refl

abbrev numeral_of : Bool → Bytes → Bytes → Numeral
numeral_of negative whole decimals = record {
  negative = negative;
  whole = whole;
  decimals = decimals;
}

spell_onto-append :
    (negative : Bool) (whole decimals tail : Bytes)
    → spell_onto (numeral_of negative whole decimals) [] ++ tail
      ≡ spell_onto (numeral_of negative whole decimals) tail
spell_onto-append negative whole decimals tail =
    signed-append negative _ tail
    ∙ ap (signed negative) (
        append_assoc whole (fraction_onto decimals []) tail
        ∙ ap (λ z. whole ++ z) (fraction_onto-append decimals tail))

length-spell_onto :
    (negative : Bool) (whole decimals : Bytes)
    → length (spell_onto (numeral_of negative whole decimals) []) ≡ width negative whole decimals
length-spell_onto negative whole decimals = omega (
  arith,
  length-signed negative (whole ++ fraction_onto decimals []),
  length-append whole (fraction_onto decimals []),
)

-- What lies between the two positions is the numeral.
take-spelled :
    (negative : Bool) (whole decimals tail : Bytes) (pos : ℕ)
    → take
        (pos + width negative whole decimals - pos)
        (spell_onto (numeral_of negative whole decimals) tail)
      ≡ spell_onto (numeral_of negative whole decimals) []
take-spelled negative whole decimals tail pos =
    let spelled = spell_onto (numeral_of negative whole decimals) [] in
    let count : pos + width negative whole decimals - pos ≡ length spelled =
      omega (arith, length-spell_onto negative whole decimals) in
    ap (λ n. take n (spell_onto (numeral_of negative whole decimals) tail)) count
    ∙ ap (take (length spelled)) (sym (spell_onto-append negative whole decimals tail))
    ∙ take-append spelled tail

digits-fraction_onto :
    (decimals tail : Bytes) → Delimited tail → digits (fraction_onto decimals tail) ≡ 0
digits-fraction_onto [] tail h = digits-Delimited tail h
digits-fraction_onto (x ∷ xs) tail h = unfold digits in refl

module _ (d : Double) where
  number_between-parsed :
      (c whole last : Cursor) (v : d.Carrier)
      → (digits whole.rest == 0) ≡ false
      → d.stod (take (last.pos - c.pos) c.rest) ≡ some v
      → number_between d c whole last ≡ parsed (number v) last
  unfolding number_between
  number_between-parsed c whole last v some_digit value = rw (some_digit, value) refl

  parse_number-parsed :
      (c whole last : Cursor) (v : d.Carrier)
      → sign c ≡ whole
      → exponent (fraction (skip_digits whole)) ≡ last
      → (digits whole.rest == 0) ≡ false
      → d.stod (take (last.pos - c.pos) c.rest) ≡ some v
      → parse_number d c ≡ parsed (number v) last
  unfolding parse_number
  parse_number-parsed c whole last v h k some_digit value =
      ap (λ w. number_between d c w (exponent (fraction (skip_digits w)))) h
      ∙ ap (number_between d c whole) k
      ∙ number_between-parsed c whole last v some_digit value

  parse_number-digits :
      (negative : Bool) (whole decimals : Bytes) (v : d.Carrier) (tail : Bytes) (pos : ℕ)
      (message : Bytes)
      → IsNumeral (numeral_of negative whole decimals)
      → d.stod (spell_onto (numeral_of negative whole decimals) []) ≡ some v
      → Delimited tail
      → parse_number d (at (spell_onto (numeral_of negative whole decimals) tail) pos message)
        ≡ parsed (number v) (at tail (pos + width negative whole decimals) message)
  parse_number-digits negative [] decimals v tail pos message h value k = absurd (cc h.0)
  parse_number-digits negative (x ∷ xs) decimals v tail pos message (_, h, hs) value k =
      let behind = fraction_onto decimals tail in
      let skip : ℕ = if negative then 1 else 0 in
      parse_number-parsed _ (at ((x ∷ xs) ++ behind) (pos + skip) message) _ v
        (sign-signed negative x (xs ++ behind) pos message h.0)
        (ap (λ c. exponent (fraction c))
            (skip_digits-append (x ∷ xs) behind (pos + skip) message h
              (digits-fraction_onto decimals tail k))
          ∙ ap exponent (fraction-fraction_onto decimals tail _ message hs k)
          ∙ exponent-Delimited tail _ message k
          ∙ at-eq tail message (omega arith))
        (ground (arith, digits-append (x ∷ xs) behind h))
        (ap d.stod (take-spelled negative (x ∷ xs) decimals tail pos) ∙ value)

  -- A numeral is read back, and the text behind it is left.
  pub parse_number-spell_onto :
      (n : Numeral) (v : d.Carrier) (tail : Bytes) (pos : ℕ) (message : Bytes)
      → IsNumeral n
      → d.stod (spell_onto n []) ≡ some v
      → Delimited tail
      → (q : ℕ) × (parse_number d (at (spell_onto n tail) pos message)
          ≡ parsed (number v) (at tail q message))
  parse_number-spell_onto n v tail pos message h value k =
      (_, parse_number-digits n.negative n.whole n.decimals v tail pos message h value k)
