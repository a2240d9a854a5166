-- ===== src/Json/Parser.antt =====
-- The values of `Parser` of src/json.cpp, and `JsonParser::parse`. The recursion goes down by the
-- levels of nesting that are left of 65; the loops over elements and members run on fuel.
pub mod Termination
pub mod Writer
pub mod Numbers
pub mod RoundTrip
use chaos_forger.Prelude.{
  ℕ, zero, suc, ◌+◌, ◌-◌, Bool, true, false, ◌||◌, [], ◌∷◌, ◌++◌, Option, none, some, Bytes, text,
  length, take, has_prefix, same, is_digit, is_empty, ltb, ◌==◌, to_string, if◌then◌else◌, Result,
  ok, err,
}
use chaos_forger.Double.{Double}
use chaos_forger.Json.{
  Json, Items, Members, null, boolean, number, string, array, object, nil, cons, end, member,
}
use chaos_forger.Json.Cursor.{
  Cursor, Parse, parsed, failed, out_of_fuel, ◌>>=◌, fail, advance, skip_ws, blanks, starts,
}
use chaos_forger.Json.Strings.{parse_string, quote}

-- How many digits the text starts with.
unfoldable pub digits : Bytes → ℕ
digits [] = 0
digits (c ∷ cs) = let more = digits cs in if is_digit c then suc more else 0

-- An optional sign.
unfoldable pub sign : Cursor → Cursor
unfolding starts
sign c = if starts b'-' c.rest || starts b'+' c.rest then advance 1 c else c

unfoldable pub skip_digits : Cursor → Cursor
unfolding digits
skip_digits c = advance (digits c.rest) c

unfoldable pub fraction : Cursor → Cursor
unfolding skip_digits starts
fraction c = if starts b'.' c.rest then skip_digits (advance 1 c) else c

unfoldable pub exponent : Cursor → Cursor
unfolding skip_digits sign starts
exponent c =
    if starts b'e' c.rest || starts b'E' c.rest then skip_digits (sign (advance 1 c)) else c

-- `operator<` of `std::string`: the order of the bytes.
unfoldable pub before : Bytes → Bytes → Bool
before [] [] = false
before [] (y ∷ ys) = true
before (x ∷ xs) [] = false
before (x ∷ xs) (y ∷ ys) =
    let rest = before xs ys in if ltb x y then true else if x == y then rest else false

module _ (d : Double) where
  unfoldable pub parse_literal : Bytes → Json d → Cursor → Parse (Json d)
  parse_literal lit result c =
      if has_prefix c.rest lit
      then parsed result (advance (length lit) c)
      else failed (fail (text "invalid literal") c)

  -- The numeral from `c` to `last`, whose digits begin at `whole`.
  unfoldable pub number_between : Cursor → Cursor → Cursor → Parse (Json d)
  number_between c whole last =
      if digits whole.rest == 0
      then failed (fail (text "invalid number") last)
      else elim (d.stod (take (last.pos - c.pos) c.rest)) [
        | none ↦ failed (fail (text "number out of range") last)
        | some v ↦ parsed (number v) last
      ]

  unfoldable pub parse_number : Cursor → Parse (Json d)
  unfolding sign skip_digits fraction exponent number_between
  parse_number c = number_between c (sign c) (exponent (fraction (skip_digits (sign c))))

  -- `obj[key] = val`.
  unfoldable pub insert : Bytes → Json d → Members d → Members d
  unfolding before
  insert key val end = member key val end
  insert key val (member name old rest) =
      let later = insert key val rest in
      if same key name
      then member name val rest
      else if before key name
      then member key val (member name old rest)
      else member name old later

  abbrev pub Values : Type 0
  Values = Cursor → Parse (Json d)

  -- The loop over the elements; what it collects is what it returns.
  unfoldable pub array_loop : Values → ℕ → Cursor → Parse (Items d)
  unfolding starts skip_ws
  array_loop value zero c = out_of_fuel
  array_loop value (suc fuel) c = value (skip_ws c) >>= (λ element after.
      let more =
        array_loop value fuel (advance 1 (skip_ws after))
        >>= (λ items last. parsed (cons element items) last) in
      if starts b',' (skip_ws after).rest
      then more
      else if starts b']' (skip_ws after).rest
      then parsed (cons element nil) (advance 1 (skip_ws after))
      else failed (fail (text "expected ',' or ']' in array") (skip_ws after)))

  -- Behind the bracket and the blanks.
  unfoldable pub elements : Values → ℕ → Cursor → Parse (Json d)
  unfolding array_loop starts
  elements value fuel inside =
      if starts b']' inside.rest
      then parsed (array nil) (advance 1 inside)
      else array_loop value fuel inside >>= (λ items last. parsed (array items) last)

  unfoldable pub parse_array : Values → Cursor → Parse (Json d)
  unfolding elements starts skip_ws
  parse_array value c =
      if starts b'[' c.rest
      then elements value (length c.rest) (skip_ws (advance 1 c))
      else failed (fail (text "expected '['") c)

  -- A key, its colon and its value.
  unfoldable pub parse_member : Values → Cursor → Parse (Bytes × Json d)
  unfolding starts skip_ws
  parse_member value c = parse_string (skip_ws c) >>= (λ key after.
      if starts b':' (skip_ws after).rest
      then value (skip_ws (advance 1 (skip_ws after))) >>= (λ val last. parsed (key, val) last)
      else failed (fail (text "expected ':' after object key") (skip_ws after)))

  -- The loop over the members; `obj` is the map so far.
  unfoldable pub object_loop : Values → ℕ → Members d → Cursor → Parse (Members d)
  unfolding parse_member insert starts skip_ws
  object_loop value zero obj c = out_of_fuel
  object_loop value (suc fuel) obj c = parse_member value c >>= (λ entry after.
      let filled = insert entry.0 entry.1 obj in
      let more = object_loop value fuel filled (advance 1 (skip_ws after)) in
      if starts b',' (skip_ws after).rest
      then more
      else if starts b'}' (skip_ws after).rest
      then parsed filled (advance 1 (skip_ws after))
      else failed (fail (text "expected ',' or '}' in object") (skip_ws after)))

  -- Behind the brace and the blanks.
  unfoldable pub members_of : Values → ℕ → Cursor → Parse (Json d)
  unfolding object_loop starts
  members_of value fuel inside =
      if starts b'}' inside.rest
      then parsed (object end) (advance 1 inside)
      else object_loop value fuel end inside >>= (λ members last. parsed (object members) last)

  unfoldable pub parse_object : Values → Cursor → Parse (Json d)
  unfolding members_of starts skip_ws
  parse_object value c =
      if starts b'{' c.rest
      then members_of value (length c.rest) (skip_ws (advance 1 c))
      else failed (fail (text "expected '{'") c)

  -- The switch over the first character; `value` parses what is nested.
  unfoldable pub dispatch : Values → Bytes → Cursor → Parse (Json d)
  unfolding parse_object parse_array parse_literal parse_number
  dispatch value [] c = failed (fail (text "unexpected end of input") c)
  dispatch value (ch ∷ _) c =
      if ch == b'{'
      then parse_object value c
      else if ch == b'['
      then parse_array value c
      else if ch == quote
      then parse_string c >>= (λ s last. parsed (string s) last)
      else if ch == b't'
      then parse_literal (text "true") (boolean true) c
      else if ch == b'f'
      then parse_literal (text "false") (boolean false) c
      else if ch == b'n'
      then parse_literal (text "null") null c
      else parse_number c

  -- `levels` is what is left of the 65 depths 0 to `kMaxDepth`.
  unfoldable pub parse_value : ℕ → Cursor → Parse (Json d)
  unfolding dispatch
  parse_value zero c = failed (fail (text "JSON nesting too deep") c)
  parse_value (suc levels) c = dispatch (parse_value levels) c.rest c

  abbrev pub start : Bytes → Cursor
  start input = record { rest = input; pos = 0; message = [] }

  -- The value at the head of the text.
  unfoldable pub parse_head : Bytes → Parse (Json d)
  unfolding parse_value skip_ws
  parse_head input = parse_value 65 (skip_ws (start input))

  unfoldable pub conclude : Parse (Json d) → Result (Json d)
  unfolding skip_ws
  conclude (failed c) = err c.message
  conclude out_of_fuel = err []
  conclude (parsed v c) =
      if is_empty (skip_ws c).rest
      then ok v
      else err (text "trailing characters after JSON value at offset " ++ to_string (skip_ws c).pos)

  unfoldable pub parse : Bytes → Result (Json d)
  unfolding parse_head conclude
  parse input = conclude (parse_head input)
