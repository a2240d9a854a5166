-- ===== src/Json/Parser/RoundTrip.antt =====
-- `JsonParser::parse` against the writer of Json/Parser/Writer.
pub mod Arrays
pub mod Order
pub mod Objects
pub mod Sizes
use chaos_forger.Prelude.{
  ℕ, zero, suc, ◌+◌, ◌-◌, ◌≡◌, ◌≤◌, ◌<◌, refl, sym, ap, ◌∙◌, has_prefix_self, subst, Bool, true,
  false, not, ◌||◌, List, [], ◌∷◌, ◌++◌, Option, none, some, Bytes, text, length, length-append,
  is_digit, is_empty, All, ◌==◌, Bool-cases, inl, inr, if◌then◌else◌, if_cases, arith, Result, ok,
  err,
}
use chaos_forger.Double.{Double}
use chaos_forger.Json.{
  Json, Items, Members, null, boolean, number, string, array, object, nil, cons, end, member,
}
use chaos_forger.Json.Cursor.{
  Cursor, Parse, parsed, ◌>>=◌, advance, starts, skip_ws, blanks, is_space,
}
use chaos_forger.Json.Strings.{quote, parse_string}
use chaos_forger.Json.Strings.RoundTrip.{at, at-eq, between_quotes, parse_string-between_quotes}
use chaos_forger.Json.Parser.{
  Values, array_loop, elements, parse_array, parse_member, object_loop, members_of, parse_object,
  dispatch, parse_value, parse_number, parse_literal, start, parse_head, conclude, parse, insert,
  before,
}
use chaos_forger.Json.Parser.Writer.{
  Numeral, signed, IsDigit, IsNumeral, spell_onto, fraction_onto, print_onto, items_onto,
  members_onto, print, After, Writable, WritableItems, WritableMembers,
}
use chaos_forger.Json.Parser.Numbers.{goes_on, Delimited, drop-append, parse_number-spell_onto}
use chaos_forger.Json.Parser.RoundTrip.Arrays.{
  Opens, skip_ws-Opens, starts-Opens, Reads, ReadsBack, print_onto-Opens, array_loop-Reads,
}
use chaos_forger.Json.Parser.RoundTrip.Order.{append, Precedes-end}
use chaos_forger.Json.Parser.RoundTrip.Objects.{member_onto, object_loop-Reads}
use chaos_forger.Json.Parser.RoundTrip.Sizes.{
  length-print_onto, length-items_onto, length-members_onto, length-quoted,
}

module _ (d : Double) where
  elements-Reads :
      (value : Values d) (fuel : ℕ) (bs tail : Bytes) (items : Items d) (pos : ℕ) (message : Bytes)
      → Opens bs
      → Reads items tail message (array_loop d value fuel (at bs pos message))
      → Reads (array items) tail message (elements d value fuel (at bs pos message))
  unfolding elements
  elements-Reads value fuel bs tail items pos message h (q, e) =
      rw (elements, (starts-Opens bs h).0, e) (q, refl)

  members_of-Reads :
      (value : Values d) (fuel : ℕ) (bs tail : Bytes) (members : Members d) (pos : ℕ)
      (message : Bytes)
      → Opens bs
      → Reads members tail message (object_loop d value fuel end (at bs pos message))
      → Reads (object members) tail message (members_of d value fuel (at bs pos message))
  unfolding members_of
  members_of-Reads value fuel bs tail members pos message h (q, e) =
      rw (members_of, (starts-Opens bs h).1, e) (q, refl)

  parse_literal-append :
      (word : Bytes) (v : Json d) (tail : Bytes) (pos : ℕ) (message : Bytes)
      → Reads v tail message (parse_literal d word v (at (word ++ tail) pos message))
  unfolding parse_literal
  parse_literal-append word v tail pos message =
      rw (has_prefix_self word tail)
        (_, ap (λ r. parsed v (at r (pos + length word) message)) (drop-append word tail))

module _ (d : Double) (numeral : d.Carrier → Numeral) where
  parse_array-Reads :
      (levels : ℕ) (value : Values d)
      → ReadsBack d numeral levels value
      → (x : Json d) (rest : Items d) (tail : Bytes) (pos : ℕ) (message : Bytes)
      → Writable d numeral levels x
      → WritableItems d numeral levels rest
      → Reads (array (cons x rest)) tail message (
          parse_array d value
            (at (b'[' ∷ print_onto d numeral x (items_onto d numeral rest tail)) pos message))
  unfolding parse_array starts
  parse_array-Reads levels value good x rest tail pos message w ws =
      let bs = print_onto d numeral x (items_onto d numeral rest tail) in
      let begins = print_onto-Opens d numeral levels x (items_onto d numeral rest tail) w in
      subst
        (λ inside.
          Reads (array (cons x rest)) tail message (elements d value (suc (length bs)) inside))
        (sym (skip_ws-Opens bs (pos + 1) message begins))
        (elements-Reads d value (suc (length bs)) bs tail (cons x rest) (pos + 1) message begins (
          array_loop-Reads d numeral levels value good (suc (length bs)) x rest tail (pos + 1)
            message
            (omega (
              arith,
              length-print_onto d numeral x (items_onto d numeral rest tail),
              length-items_onto d numeral rest tail,
            ))
            w ws))

  parse_object-Reads :
      (levels : ℕ) (value : Values d)
      → ReadsBack d numeral levels value
      → (name : Bytes) (v : Json d) (rest : Members d) (tail : Bytes) (pos : ℕ) (message : Bytes)
      → Writable d numeral levels v
      → After d name rest
      → WritableMembers d numeral levels rest
      → Reads (object (member name v rest)) tail message (
          parse_object d value (
            at
              (b'{' ∷ member_onto d numeral name v (members_onto d numeral rest tail))
              pos
              message))
  unfolding parse_object starts
  parse_object-Reads levels value good name v rest tail pos message w after ws =
      let bs = member_onto d numeral name v (members_onto d numeral rest tail) in
      subst
        (λ inside.
          Reads (object (member name v rest)) tail message
            (members_of d value (suc (length bs)) inside))
        (sym (skip_ws-Opens bs (pos + 1) message refl))
        (members_of-Reads d value (suc (length bs)) bs tail (member name v rest) (pos + 1) message
          refl
          (object_loop-Reads d numeral levels value good (suc (length bs)) end name v rest tail
            (pos + 1) message
            (omega (
              arith,
              length-quoted name (b':' ∷ print_onto d numeral v (members_onto d numeral rest tail)),
              length-print_onto d numeral v (members_onto d numeral rest tail),
              length-members_onto d numeral rest tail,
            ))
            w after ws (tt, Precedes-end d rest)))

  -- A numeral begins with a character that leads to `parse_number`.
  dispatch-signed :
      (value : Values d) (negative : Bool) (whole rest : Bytes) (c : Cursor)
      → is_empty whole ≡ false
      → All IsDigit whole
      → dispatch d value (signed negative (whole ++ rest)) c ≡ parse_number d c
  unfolding dispatch
  dispatch-signed value true whole rest c h k = refl
  dispatch-signed value false [] rest c h k = cc
  dispatch-signed value false (x ∷ xs) rest c h k =
      let brace : (x == b'{') ≡ false = ground (arith, k.0) in
      let bracket : (x == b'[') ≡ false = ground (arith, k.0) in
      let quoted : (x == quote) ≡ false = ground (arith, k.0) in
      let t : (x == b't') ≡ false = ground (arith, k.0) in
      let f : (x == b'f') ≡ false = ground (arith, k.0) in
      let n : (x == b'n') ≡ false = ground (arith, k.0) in rw (brace, bracket, quoted, t, f, n) refl

  abbrev as_string : Bytes → Cursor → Parse (Json d)
  as_string s last = parsed (string s) last

  parse_string-Reads :
      (s tail : Bytes) (pos : ℕ) (message : Bytes)
      → Reads
          (string s)
          tail
          message
          (parse_string (at (quote ∷ (between_quotes s ++ quote ∷ tail)) pos message) >>= as_string)
  parse_string-Reads s tail pos message =
      rw (parse_string-between_quotes s tail pos message) (_, refl)

  dispatch-Reads :
      (levels : ℕ) (value : Values d)
      → ReadsBack d numeral levels value
      → (v : Json d) (tail : Bytes) (pos : ℕ) (message : Bytes) → Writable d numeral (suc levels) v
      → Delimited tail
      → Reads v tail message (
          dispatch d value
            (print_onto d numeral v tail)
            (at (print_onto d numeral v tail) pos message))
  unfolding dispatch print_onto Writable text WritableItems parse_array elements parse_object
      members_of skip_ws blanks starts
  dispatch-Reads levels value good null tail pos message w k =
      parse_literal-append d (text "null") null tail pos message
  dispatch-Reads levels value good (boolean true) tail pos message w k =
      parse_literal-append d (text "true") (boolean true) tail pos message
  dispatch-Reads levels value good (boolean false) tail pos message w k =
      parse_literal-append d (text "false") (boolean false) tail pos message
  dispatch-Reads levels value good (number v) tail pos message (shaped, denotes) k =
      let n = numeral v in
      let (q, e) = parse_number-spell_onto d n v tail pos message shaped denotes k in
      (
        q,
        dispatch-signed value n.negative n.whole (fraction_onto n.decimals tail) _ shaped.0 shaped.1
            ∙ e,
      )
  dispatch-Reads levels value good (string s) tail pos message w k =
      parse_string-Reads s tail pos message
  dispatch-Reads levels value good (array nil) tail pos message w k = (_, refl)
  dispatch-Reads levels value good (array (cons x rest)) tail pos message w k =
      parse_array-Reads levels value good x rest tail pos message w.0 w.1
  dispatch-Reads levels value good (object end) tail pos message w k = (_, refl)
  dispatch-Reads levels value good (object (member name v rest)) tail pos message w k =
      parse_object-Reads levels value good name v rest tail pos message w.0 w.1 w.2

  parse_value-ReadsBack : (levels : ℕ) → ReadsBack d numeral levels (parse_value d levels)
  unfolding parse_value Writable
  parse_value-ReadsBack zero v tail pos message w k = absurd w
  parse_value-ReadsBack (suc levels) v tail pos message w k =
      dispatch-Reads levels (parse_value d levels) (parse_value-ReadsBack levels) v tail pos message
        w k

  parse_head-print :
      (v : Json d) → Writable d numeral 65 v → Reads v [] [] (parse_head d (print d numeral v))
  unfolding parse_head
  parse_head-print v w =
      let (q, e) = parse_value-ReadsBack 65 v [] 0 [] w tt in
      (q, ap (parse_value d 65) (skip_ws-Opens _ 0 [] (print_onto-Opens d numeral 65 v [] w)) ∙ e)

  -- Every value that is nested at most 65 levels deep, whose objects have their members in the
  -- order of their keys and each key once, and whose numbers are what the library's conversion
  -- makes of their numerals, is parsed from its text as it was.
  pub parse-print : (v : Json d) → Writable d numeral 65 v → parse d (print d numeral v) ≡ ok v
  unfolding parse conclude skip_ws blanks
  parse-print v w = let (q, e) = parse_head-print v w in ap (conclude d) e
