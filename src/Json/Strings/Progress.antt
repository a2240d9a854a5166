-- ===== src/Json/Strings/Progress.antt =====
-- `parse_string` of src/json.cpp and the bytes that its rounds spend.
use chaos_forger.Prelude.{
  ℕ, zero, suc, ◌+◌, ◌*◌, ◌≤◌, ◌<◌, ◌≡◌, refl, ap, true, [], ◌∷◌, Bytes, length, drop, length-drop,
  has_prefix, if_cases, within, ltb, ◌&&◌, ◌==◌, not, Option-cases, inl, inr, arith,
}
use chaos_forger.Json.Cursor.{
  Cursor, Parse, parsed, failed, out_of_fuel, ◌>>=◌, advance, skip_ws, blanks, starts,
}
use chaos_forger.Json.Strings.{
  quote, backslash, hex_digit, hex_loop, parse_hex4, low_surrogate, surrogate_pair, simple_escape,
  Round, stop, again, unicode_escape, escape, escaped, character, string_round, string_loop,
  parse_string,
}

abbrev pub left : Cursor → ℕ
left c = length c.rest

-- The result is one of the code, and less than `n` bytes are left behind an output.
abbrev pub Spends {ℓ} : {A : Type ℓ} → ℕ → Parse A → Type 0
Spends n (parsed a c) = left c < n
Spends n (failed c) = Unit
Spends n out_of_fuel = ⊥

pub Spends-bind {ℓ κ} :
    {A : Type ℓ} {B : Type κ} (n k : ℕ) (m : Parse A) (next : A → Cursor → Parse B)
    → Spends n m
    → ((a : A) (c : Cursor) → left c < n → Spends k (next a c))
    → Spends k (m >>= next)
Spends-bind n k (parsed a c) next h then_ = then_ a c h
Spends-bind n k (failed c) next h then_ = tt
Spends-bind n k out_of_fuel next h then_ = h

pub Spends-more {ℓ} : {A : Type ℓ} (n k : ℕ) (m : Parse A) → n ≤ k → Spends n m → Spends k m
Spends-more n k (parsed a c) le h = omega arith
Spends-more n k (failed c) le h = tt
Spends-more n k out_of_fuel le h = h

pub left-skip_ws : (c : Cursor) → left (skip_ws c) ≤ left c
unfolding skip_ws
left-skip_ws c = omega (arith, length-drop (blanks c.rest) c.rest)

hex_loop-Spends : (xs : Bytes) (out : ℕ) (c : Cursor) → Spends (suc (left c)) (hex_loop xs out c)
unfolding hex_loop
hex_loop-Spends [] out c = omega arith
hex_loop-Spends (x ∷ xs) out c = elim (Option-cases (hex_digit x)) [
  | inl e ↦ rw (e, Spends) tt
  | inr (digit, e) ↦
      let fewer : suc (left (advance 1 c)) ≤ suc (left c) = omega (arith, length-drop 1 c.rest) in
      rw (e, Spends)
        (Spends-more _ (suc (left c)) (hex_loop xs (out * 16 + digit) (advance 1 c)) fewer
          (hex_loop-Spends xs _ (advance 1 c)))
]

parse_hex4-Spends : (c : Cursor) → Spends (suc (left c)) (parse_hex4 c)
unfolding parse_hex4
parse_hex4-Spends c =
    if_cases (Spends (suc (left c))) (ltb (length c.rest) 4) (λ _. tt) (λ _. hex_loop-Spends _ 0 c)

low_surrogate-le :
    (cp : ℕ) (c : Cursor) (r : Parse ℕ)
    → Spends (suc (left c)) r
    → left (low_surrogate cp c r).1 ≤ left c
unfolding low_surrogate
low_surrogate-le cp c (parsed low d) h = ground arith
low_surrogate-le cp c (failed d) h = omega arith
low_surrogate-le cp c out_of_fuel h = omega arith

surrogate_pair-le : (cp : ℕ) (c : Cursor) → left (surrogate_pair cp c).1 ≤ left c
unfolding surrogate_pair
surrogate_pair-le cp c =
    if_cases (λ (r : ℕ × Cursor). left r.1 ≤ left c)
      (within 0xD800 0xDBFF cp && has_prefix c.rest (backslash ∷ b'u' ∷ []))
      (λ _.
        let fewer : left (advance 2 c) ≤ left c = omega (arith, length-drop 2 c.rest) in
        low_surrogate-le cp c (parse_hex4 (advance 2 c)) (
          Spends-more _ _ (parse_hex4 (advance 2 c)) (omega arith)
            (parse_hex4-Spends (advance 2 c))))
      (λ _. omega arith)

-- A round that goes on leaves less than `n` bytes.
abbrev RoundSpends : ℕ → Round → Type 0
RoundSpends n (stop r) = Spends n r
RoundSpends n (again out c) = left c < n

RoundSpends-more : (n k : ℕ) (r : Round) → n ≤ k → RoundSpends n r → RoundSpends k r
RoundSpends-more n k (stop r) le h = Spends-more n k r le h
RoundSpends-more n k (again out c) le h = omega arith

unicode_escape-Spends :
    (out : Bytes) (n : ℕ) (r : Parse ℕ) → Spends n r → RoundSpends n (unicode_escape out r)
unfolding unicode_escape
unicode_escape-Spends out n (parsed cp c) h = omega (arith, surrogate_pair-le cp c)
unicode_escape-Spends out n (failed c) h = tt
unicode_escape-Spends out n out_of_fuel h = h

escape-Spends : (esc : ℕ) (out : Bytes) (c : Cursor) → RoundSpends (suc (left c)) (escape esc out c)
unfolding escape
escape-Spends esc out c = elim (Option-cases (simple_escape esc)) [
  | inl e ↦
      rw (e, RoundSpends)
        (if_cases (RoundSpends (suc (left c))) (esc == b'u')
          (λ _. unicode_escape-Spends out _ (parse_hex4 c) (parse_hex4-Spends c)) (λ _. tt))
  | inr (b, e) ↦ rw (e, RoundSpends) (omega arith)
]

escaped-Spends :
    (out : Bytes) (c : Cursor) (cs : Bytes)
    → c.rest ≡ cs
    → RoundSpends (suc (left c)) (escaped out c cs)
unfolding escaped
escaped-Spends out c [] e = tt
escaped-Spends out c (esc ∷ cs) e =
    RoundSpends-more (suc (left (advance 1 c))) (suc (left c)) (escape esc out (advance 1 c))
      (omega (arith, length-drop 1 c.rest)) (escape-Spends esc out (advance 1 c))

character-Spends :
    (ch : ℕ) (out : Bytes) (c : Cursor) → RoundSpends (suc (left c)) (character ch out c)
unfolding character
character-Spends ch out c =
    if_cases (RoundSpends (suc (left c))) (ch == quote) (λ _. omega arith)
      (λ _.
        if_cases (RoundSpends (suc (left c))) (not (ch == backslash)) (λ _. omega arith)
          (λ _. escaped-Spends out c c.rest refl))

string_round-Spends :
    (out : Bytes) (c : Cursor) (cs : Bytes)
    → c.rest ≡ cs
    → RoundSpends (left c) (string_round out c cs)
unfolding string_round
string_round-Spends out c [] e = tt
string_round-Spends out c (ch ∷ cs) e =
    RoundSpends-more (suc (left (advance 1 c))) (left c) (character ch out (advance 1 c))
      (omega (arith, length-drop 1 c.rest, ap length e)) (character-Spends ch out (advance 1 c))

string_loop-Spends :
    (fuel : ℕ) (out : Bytes) (c : Cursor) → left c < fuel → Spends (left c) (string_loop fuel out c)
unfolding string_loop
string_loop-Spends zero out c h = absurd (omega arith)
string_loop-Spends (suc fuel) out c h =
    go (string_round out c c.rest) (string_round-Spends out c c.rest refl) (string_loop-Spends fuel)
  where
    go :
        (r : Round)
        → RoundSpends (left c) r
        → ((more : Bytes) (d : Cursor) → left d < fuel → Spends (left d) (string_loop fuel more d))
        → Spends (left c) (elim r [ stop x ↦ x | again more d ↦ string_loop fuel more d ])
    go (stop x) k ih = k
    go (again more d) k ih =
        Spends-more (left d) (left c) (string_loop fuel more d) (omega arith)
          (ih more d (omega arith))

pub left-advance_one : (ch : ℕ) (c : Cursor) → starts ch c.rest ≡ true → left (advance 1 c) < left c
unfolding starts
left-advance_one ch c h = by_rest c.rest h
  where
    by_rest : (cs : Bytes) → starts ch cs ≡ true → length (drop 1 cs) < length cs
    by_rest [] k = cc
    by_rest (x ∷ cs) k = omega (arith, length-drop 1 (x ∷ cs))

pub parse_string-Spends : (c : Cursor) → Spends (left c) (parse_string c)
unfolding parse_string
parse_string-Spends c =
    if_cases (Spends (left c)) (starts quote c.rest)
      (λ h.
        let less = left-advance_one quote c h in
        Spends-more _ _ (string_loop (length c.rest) [] (advance 1 c)) (omega arith)
          (string_loop-Spends (length c.rest) [] (advance 1 c) less))
      (λ _. tt)
