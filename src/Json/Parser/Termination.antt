-- ===== src/Json/Parser/Termination.antt =====
-- The loops of the JSON parser of src/json.cpp and the bytes that their rounds spend.
use chaos_forger.Prelude.{
  ℕ, zero, suc, ◌≤◌, ◌<◌, ◌≡◌, ◌≢◌, subst, true, false, [], ◌∷◌, Option, none, some, Bytes, text,
  length, drop, length-drop, has_prefix, if_cases, ◌||◌, ◌==◌, arith,
}
use chaos_forger.Double.{Double}
use chaos_forger.Json.{Json, Members, number, end}
use chaos_forger.Json.Cursor.{Cursor, parsed, failed, out_of_fuel, fail, advance, skip_ws, starts}
use chaos_forger.Json.Strings.{quote, parse_string}
use chaos_forger.Json.Strings.Progress.{
  left, Spends, Spends-bind, Spends-more, left-skip_ws, left-advance_one, parse_string-Spends,
}
use chaos_forger.Json.Parser.{
  digits, sign, skip_digits, fraction, exponent, parse_literal, number_between, parse_number,
  insert, Values, array_loop, elements, parse_array, parse_member, object_loop, members_of,
  parse_object, dispatch, parse_value, start, parse_head,
}

digits-le : (cs : Bytes) → digits cs ≤ length cs
unfolding digits
digits-le [] = omega arith
digits-le (c ∷ cs) = ground (arith, digits-le cs)

left-advance : (n : ℕ) (c : Cursor) → left (advance n c) ≤ left c
left-advance n c = omega (arith, length-drop n c.rest)

left-sign : (c : Cursor) → left (sign c) ≤ left c
unfolding sign
left-sign c =
    if_cases (λ d. left d ≤ left c) (starts b'-' c.rest || starts b'+' c.rest)
      (λ _. left-advance 1 c) (λ _. omega arith)

left-skip_digits : (c : Cursor) → left (skip_digits c) ≤ left c
unfolding skip_digits
left-skip_digits c = left-advance (digits c.rest) c

left-fraction : (c : Cursor) → left (fraction c) ≤ left c
unfolding fraction
left-fraction c =
    if_cases (λ d. left d ≤ left c) (starts b'.' c.rest)
      (λ _. omega (arith, left-skip_digits (advance 1 c), left-advance 1 c)) (λ _. omega arith)

left-exponent : (c : Cursor) → left (exponent c) ≤ left c
unfolding exponent
left-exponent c =
    if_cases (λ d. left d ≤ left c) (starts b'e' c.rest || starts b'E' c.rest)
      (λ _.
        omega
          (arith, left-skip_digits (sign (advance 1 c)), left-sign (advance 1 c), left-advance 1 c))
      (λ _. omega arith)

left-number :
    (c : Cursor)
    → (digits (sign c).rest == 0) ≡ false
    → left (exponent (fraction (skip_digits (sign c)))) < left c
unfolding skip_digits
left-number c some_digit =
    let whole = sign c in
    let after : left (advance (digits whole.rest) whole) < left whole =
      ground (arith, length-drop (digits whole.rest) whole.rest, digits-le whole.rest) in
    omega (
      arith,
      after,
      left-exponent (fraction (skip_digits whole)),
      left-fraction (skip_digits whole),
      left-sign c,
    )

module _ (d : Double) where
  abbrev Good : Values d → Type 0
  Good value = (c : Cursor) → Spends (left c) (value c)

  prefix_shortens :
      (cs lit : Bytes)
      → 0 < length lit
      → has_prefix cs lit ≡ true
      → length (drop (length lit) cs) < length cs
  unfolding has_prefix
  prefix_shortens cs [] some_byte h = absurd (omega arith)
  prefix_shortens [] (y ∷ lit) some_byte h = cc
  prefix_shortens (x ∷ cs) (y ∷ lit) some_byte h = omega (arith, length-drop (length lit) cs)

  parse_literal-Spends : (lit : Bytes) (v : Json d) → 0 < length lit → Good (parse_literal d lit v)
  unfolding parse_literal
  parse_literal-Spends lit v some_byte c =
      if_cases (Spends (left c)) (has_prefix c.rest lit)
        (λ h. prefix_shortens c.rest lit some_byte h) (λ _. tt)

  parse_number-Spends : Good (parse_number d)
  unfolding parse_number number_between
  parse_number-Spends c =
      if_cases (Spends (left c)) (digits (sign c).rest == 0) (λ _. tt)
        (λ h. by_value _ (d.stod _) (left-number c h))
    where
      by_value :
          (last : Cursor) (o : Option d.Carrier)
          → left last < left c
          → Spends {A = Json d} (left c) (elim o [
            | none ↦ failed (fail (text "number out of range") last)
            | some v ↦ parsed (number v) last
          ])
      by_value last none lt = tt
      by_value last (some v) lt = lt

  array_loop-Spends :
      (value : Values d)
      → Good value
      → (fuel : ℕ) (c : Cursor) → left c < fuel
      → Spends (left c) (array_loop d value fuel c)
  unfolding array_loop
  array_loop-Spends value good zero c h = absurd (omega arith)
  array_loop-Spends value good (suc fuel) c h =
      Spends-bind (left (skip_ws c)) (left c) (value (skip_ws c)) _ (good (skip_ws c))
        (λ element after near.
          let fewer : left (skip_ws after) < left c =
            omega (arith, left-skip_ws c, left-skip_ws after) in
          let behind = advance 1 (skip_ws after) in
          let le : left behind ≤ left (skip_ws after) = left-advance 1 (skip_ws after) in
          if_cases (Spends (left c)) (starts b',' (skip_ws after).rest)
            (λ _.
              Spends-bind (left behind) (left c) (array_loop d value fuel behind) _
                (array_loop-Spends value good fuel behind (omega arith))
                (λ items last lt. omega arith))
            (λ _.
              if_cases (Spends (left c)) (starts b']' (skip_ws after).rest) (λ _. omega arith)
                (λ _. tt)))

  parse_array-Spends : (value : Values d) → Good value → Good (parse_array d value)
  unfolding parse_array elements
  parse_array-Spends value good c =
      if_cases (Spends (left c)) (starts b'[' c.rest)
        (λ h.
          let inside = skip_ws (advance 1 c) in
          let less : left inside < left c =
            omega (arith, left-advance_one b'[' c h, left-skip_ws (advance 1 c)) in
          if_cases (Spends (left c)) (starts b']' inside.rest)
            (λ _. omega (arith, left-advance 1 inside))
            (λ _.
              Spends-bind (left inside) (left c) (array_loop d value (length c.rest) inside) _
                (array_loop-Spends value good (length c.rest) inside less)
                (λ items last lt. omega arith)))
        (λ _. tt)

  parse_member-Spends :
      (value : Values d) → Good value → (c : Cursor) → Spends (left c) (parse_member d value c)
  unfolding parse_member
  parse_member-Spends value good c =
      Spends-bind (left (skip_ws c)) (left c) (parse_string (skip_ws c)) _
        (parse_string-Spends (skip_ws c))
        (λ key after near.
          if_cases (Spends (left c)) (starts b':' (skip_ws after).rest)
            (λ _.
              let inner = skip_ws (advance 1 (skip_ws after)) in
              let le : left inner < left c = omega (
                arith,
                left-skip_ws (advance 1 (skip_ws after)),
                left-advance 1 (skip_ws after),
                left-skip_ws after,
                left-skip_ws c,
              ) in
              Spends-bind (left inner) (left c) (value inner) _ (good inner)
                (λ val last lt. omega arith))
            (λ _. tt))

  object_loop-Spends :
      (value : Values d)
      → Good value
      → (fuel : ℕ) (obj : Members d) (c : Cursor) → left c < fuel
      → Spends (left c) (object_loop d value fuel obj c)
  unfolding object_loop
  object_loop-Spends value good zero obj c h = absurd (omega arith)
  object_loop-Spends value good (suc fuel) obj c h =
      Spends-bind (left c) (left c) (parse_member d value c) _ (parse_member-Spends value good c)
        (λ entry after near.
          let behind = advance 1 (skip_ws after) in
          let le : left behind < left c =
            omega (arith, left-advance 1 (skip_ws after), left-skip_ws after) in
          let filled = insert d entry.0 entry.1 obj in
          if_cases (Spends (left c)) (starts b',' (skip_ws after).rest)
            (λ _.
              Spends-more (left behind) (left c) (object_loop d value fuel filled behind)
                (omega arith) (object_loop-Spends value good fuel filled behind (omega arith)))
            (λ _.
              if_cases (Spends (left c)) (starts b'}' (skip_ws after).rest) (λ _. le) (λ _. tt)))

  parse_object-Spends : (value : Values d) → Good value → Good (parse_object d value)
  unfolding parse_object members_of
  parse_object-Spends value good c =
      if_cases (Spends (left c)) (starts b'{' c.rest)
        (λ h.
          let inside = skip_ws (advance 1 c) in
          let less : left inside < left c =
            omega (arith, left-advance_one b'{' c h, left-skip_ws (advance 1 c)) in
          if_cases (Spends (left c)) (starts b'}' inside.rest)
            (λ _. omega (arith, left-advance 1 inside))
            (λ _.
              Spends-bind (left inside) (left c) (object_loop d value (length c.rest) end inside) _
                (object_loop-Spends value good (length c.rest) end inside less)
                (λ members last lt. omega arith)))
        (λ _. tt)

  words : (0 < length (text "true")) × (0 < length (text "false")) × (0 < length (text "null"))
  unfolding text
  words = omega arith

  dispatch-Spends : (value : Values d) → Good value → (cs : Bytes) → Good (dispatch d value cs)
  unfolding dispatch
  dispatch-Spends value good [] c = tt
  dispatch-Spends value good (ch ∷ cs) c =
      if_cases (Spends (left c)) (ch == b'{') (λ _. parse_object-Spends value good c)
        (λ _.
          if_cases (Spends (left c)) (ch == b'[') (λ _. parse_array-Spends value good c)
            (λ _.
              if_cases (Spends (left c)) (ch == quote)
                (λ _.
                  Spends-bind (left c) (left c) (parse_string c) _ (parse_string-Spends c)
                    (λ s last lt. lt))
                (λ _.
                  if_cases (Spends (left c)) (ch == b't') (λ _. parse_literal-Spends _ _ words.0 c)
                    (λ _.
                      if_cases (Spends (left c)) (ch == b'f')
                        (λ _. parse_literal-Spends _ _ words.1 c)
                        (λ _.
                          if_cases (Spends (left c)) (ch == b'n')
                            (λ _. parse_literal-Spends _ _ words.2 c)
                            (λ _. parse_number-Spends c))))))

  parse_value-Spends : (levels : ℕ) → Good (parse_value d levels)
  unfolding parse_value
  parse_value-Spends zero c = tt
  parse_value-Spends (suc levels) c =
      dispatch-Spends (parse_value d levels) (parse_value-Spends levels) c.rest c

  -- The parser ends with a value or with an error on every text: no loop of the model runs out of
  -- its fuel.
  pub parse_head-ne-out_of_fuel : (input : Bytes) → parse_head d input ≢ out_of_fuel
  unfolding parse_head
  parse_head-ne-out_of_fuel input e =
      subst (Spends (left (skip_ws (start d input)))) e
        (parse_value-Spends 65 (skip_ws (start d input)))
