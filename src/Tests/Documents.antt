-- ===== src/Tests/Documents.antt =====
-- A configuration as a value and as a text, and what is stated of the JSON parser at such inputs.
use chaos_forger.Prelude.{◌≡◌, ◌≢◌, ◌/◌, refl, false, [], some, Bytes, text, to_string, ok, arith}
use chaos_forger.Json.{Json, boolean, number, string, array, object, nil, cons, end, member}
use chaos_forger.Json.Cursor.{out_of_fuel}
use chaos_forger.Json.Strings.{append_utf8}
use chaos_forger.Json.Strings.Utf8.{decode, decode-append_utf8}
use chaos_forger.Json.Parser.{parse, parse_head, before}
use chaos_forger.Json.Parser.Writer.{Numeral, print, Writable}
use chaos_forger.Json.Parser.RoundTrip.{parse-print}
use chaos_forger.Json.Parser.Termination.{parse_head-ne-out_of_fuel}
use chaos_forger.Http.Parser.Headers.Numbers.{all_digits, digits_value}
use chaos_forger.Tests.Example.{hundredths}

-- {"dry_run": false, "stop_timeout_seconds": 30, "targets": [{"action": "KILL", "name_match": " web "}]}
abbrev pub document : Json hundredths
document = object (
    member (text "dry_run") (boolean false) (
      member (text "stop_timeout_seconds") (number 3000) (
        member (text "targets")
          (array (
            cons
              (object (
                member (text "action") (string (text "KILL"))
                  (member (text "name_match") (string (text " web ")) end)))
              nil))
          end)))

abbrev pub whole_numeral : hundredths.Carrier → Numeral
whole_numeral v = record { negative = false; whole = to_string (v / 100); decimals = [] }

unfoldable pub document_text : Bytes
document_text = print hundredths whole_numeral document

document-Writable : Writable hundredths whole_numeral 65 document
unfolding Writable before text to_string all_digits digits_value
document-Writable = (
  tt,
  (refl, (refl, tt)),
  (
    ((refl, (refl, (refl, tt)), tt), refl),
    (refl, tt),
    (((tt, (refl, tt), (tt, tt, tt)), tt), tt, tt),
  ),
)

parse-print_example : parse hundredths (print hundredths whole_numeral document) ≡ ok document
parse-print_example = parse-print hundredths whole_numeral document document-Writable

pub parsed_back : parse hundredths document_text ≡ ok document
unfolding document_text
parsed_back = parse-print hundredths whole_numeral document document-Writable

parse_head-ne-out_of_fuel_example : parse_head hundredths (text "[1,") ≢ out_of_fuel
parse_head-ne-out_of_fuel_example = parse_head-ne-out_of_fuel hundredths (text "[1,")

decode-append_utf8_example : decode (append_utf8 0x1F600) ≡ some 0x1F600
decode-append_utf8_example = decode-append_utf8 0x1F600 (omega arith)
