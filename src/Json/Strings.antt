-- ===== src/Json/Strings.antt =====
-- `parse_string`, `parse_hex4` and `append_utf8` of src/json.cpp.
pub mod Progress
pub mod RoundTrip
pub mod Utf8
use chaos_forger.Prelude.{
  ℕ, zero, suc, ◌+◌, ◌-◌, ◌*◌, ◌/◌, ◌%◌, Bool, not, ◌&&◌, [], ◌∷◌, ◌++◌, Option, none, some, Bytes,
  text, length, take, has_prefix, ltb, ◌==◌, within, if◌then◌else◌,
}
use chaos_forger.Json.Cursor.{Cursor, Parse, parsed, failed, out_of_fuel, fail, advance, starts}

abbrev pub quote : ℕ
quote = b'"'

abbrev pub backslash : ℕ
backslash = b'\\'

unfoldable pub hex_digit : ℕ → Option ℕ
hex_digit c =
    if within b'0' b'9' c
    then some (c - b'0')
    else if within b'a' b'f' c
    then some (c - b'a' + 10)
    else if within b'A' b'F' c
    then some (c - b'A' + 10)
    else none

-- The loop over the digits. `out <<= 4; out |= digit` has no carry.
unfoldable pub hex_loop : Bytes → ℕ → Cursor → Parse ℕ
hex_loop [] out c = parsed out c
hex_loop (x ∷ xs) out c = elim (hex_digit x) [
  | none ↦ failed (fail (text "invalid \\u escape") (advance 1 c))
  | some digit ↦ hex_loop xs (out * 16 + digit) (advance 1 c)
]

unfoldable pub parse_hex4 : Cursor → Parse ℕ
unfolding hex_loop
parse_hex4 c =
    if ltb (length c.rest) 4
    then failed (fail (text "truncated \\u escape") c)
    else hex_loop (take 4 c.rest) 0 c

-- The bytes that are appended. The parts that `|` joins have no bit in common.
unfoldable pub append_utf8 : ℕ → Bytes
append_utf8 cp =
    if ltb cp 0x80
    then cp ∷ []
    else if ltb cp 0x800
    then (0xC0 + cp / 64) ∷ (0x80 + cp % 64) ∷ []
    else if ltb cp 0x10000
    then (0xE0 + cp / 4096) ∷ (0x80 + cp / 64 % 64) ∷ (0x80 + cp % 64) ∷ []
    else (0xF0 + cp / 262144)
      ∷ (0x80 + cp / 4096 % 64)
      ∷ (0x80 + cp / 64 % 64)
      ∷ (0x80 + cp % 64)
      ∷ []

-- The second half of a pair, as `parse_hex4` read it. `c` is where the first half ended: without
-- a second half the position is restored, the message is not.
unfoldable pub low_surrogate : ℕ → Cursor → Parse ℕ → ℕ × Cursor
low_surrogate cp c (parsed low d) =
    if within 0xDC00 0xDFFF low
    then (0x10000 + (cp - 0xD800) * 1024 + (low - 0xDC00), d)
    else (cp, record d { rest = c.rest; pos = c.pos })
low_surrogate cp c (failed d) = (cp, record d { rest = c.rest; pos = c.pos })
low_surrogate cp c out_of_fuel = (cp, c)

unfoldable pub surrogate_pair : ℕ → Cursor → ℕ × Cursor
unfolding low_surrogate parse_hex4
surrogate_pair cp c =
    if within 0xD800 0xDBFF cp && has_prefix c.rest (backslash ∷ b'u' ∷ [])
    then low_surrogate cp c (parse_hex4 (advance 2 c))
    else (cp, c)

-- The escapes of one character.
unfoldable pub simple_escape : ℕ → Option ℕ
simple_escape esc =
    if esc == quote
    then some quote
    else if esc == backslash
    then some backslash
    else if esc == b'/'
    then some b'/'
    else if esc == b'b'
    then some 8
    else if esc == b'f'
    then some 12
    else if esc == b'n'
    then some 10
    else if esc == b'r'
    then some 13
    else if esc == b't'
    then some 9
    else none

-- A round of the loop over the characters ends it, or goes on with what is collected.
pub data Round : Type 0 where
  stop : Parse Bytes → Round
  again : Bytes → Cursor → Round

unfoldable pub unicode_escape : Bytes → Parse ℕ → Round
unfolding surrogate_pair append_utf8
unicode_escape out (parsed cp c) =
    let (code, d) = surrogate_pair cp c in again (out ++ append_utf8 code) d
unicode_escape out (failed c) = stop (failed c)
unicode_escape out out_of_fuel = stop out_of_fuel

unfoldable pub escape : ℕ → Bytes → Cursor → Round
unfolding simple_escape unicode_escape parse_hex4
escape esc out c = elim (simple_escape esc) [
  | some b ↦ again (out ++ b ∷ []) c
  | none ↦
      if esc == b'u'
      then unicode_escape out (parse_hex4 c)
      else stop (failed (fail (text "invalid escape sequence") c))
]

-- `c` stands behind the backslash.
unfoldable pub escaped : Bytes → Cursor → Bytes → Round
unfolding escape
escaped out c [] = stop (failed (fail (text "unterminated string") c))
escaped out c (esc ∷ _) = escape esc out (advance 1 c)

-- `c` stands behind the character.
unfoldable pub character : ℕ → Bytes → Cursor → Round
unfolding escaped
character ch out c =
    if ch == quote
    then stop (parsed out c)
    else if not (ch == backslash)
    then again (out ++ ch ∷ []) c
    else escaped out c c.rest

unfoldable pub string_round : Bytes → Cursor → Bytes → Round
unfolding character
string_round out c [] = stop (failed (fail (text "unterminated string") c))
string_round out c (ch ∷ _) = character ch out (advance 1 c)

unfoldable pub string_loop : ℕ → Bytes → Cursor → Parse Bytes
unfolding string_round
string_loop zero out c = out_of_fuel
string_loop (suc fuel) out c = elim (string_round out c c.rest) [
  | stop r ↦ r
  | again more d ↦ string_loop fuel more d
]

unfoldable pub parse_string : Cursor → Parse Bytes
unfolding string_loop starts
parse_string c =
    if starts quote c.rest
    then string_loop (length c.rest) [] (advance 1 c)
    else failed (fail (text "expected string") c)
