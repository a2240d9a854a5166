-- ===== src/Tests/JsonRuns.antt =====
-- Documents on which the JSON parser of src/json.cpp is run.
use chaos_forger.Prelude.{
  ◌≡◌, refl, Bytes, text, same, has_prefix, to_string, true, [], ◌∷◌, Result, ok, err,
}
use chaos_forger.Json.{Json, null, boolean, number, string, array, object, nil, cons, end, member}
use chaos_forger.Json.Cursor.{skip_ws, blanks, starts, fail}
use chaos_forger.Json.Strings.{parse_string, parse_hex4, hex_digit}
use chaos_forger.Json.Parser.{parse, parse_member, array_loop, object_loop}
use chaos_forger.Http.Parser.Headers.Numbers.{all_digits, digits_value}
use chaos_forger.Tests.Example.{hundredths}

run : Bytes → Result (Json hundredths)
unfolding parse parse_member parse_string parse_hex4 hex_digit array_loop object_loop skip_ws blanks
    starts fail same has_prefix all_digits digits_value to_string text
run input = parse hundredths input

nested :
    run (text " [1, {\"b\": null, \"a\": true}, []] ")
    ≡ ok (
        array (
          cons (number 100) (
            cons
              (object (member (text "a") (boolean true) (member (text "b") null end)))
              (cons (array nil) nil))))
unfolding run
nested = refl

pair : run (text "\"\\ud83d\\ude00\\n\"") ≡ ok (string (0xF0 ∷ 0x9F ∷ 0x98 ∷ 0x80 ∷ 10 ∷ []))
unfolding run
pair = refl

last_key_wins : run (text "{\"a\": 1, \"a\": 2}") ≡ ok (object (member (text "a") (number 200) end))
unfolding run
last_key_wins = refl

trailing : run (text "1 2") ≡ err (text "trailing characters after JSON value at offset 2")
unfolding run
trailing = refl

open_array : run (text "[1") ≡ err (text "expected ',' or ']' in array at offset 2")
unfolding run
open_array = refl

-- A pair whose second half is no escape fails when that escape is read on its own.
broken_pair : run (text "[\"\\ud800\\uzzzz\"]") ≡ err (text "invalid \\u escape at offset 11")
unfolding run
broken_pair = refl
