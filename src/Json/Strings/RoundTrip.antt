-- ===== src/Json/Strings/RoundTrip.antt =====
-- `parse_string` of src/json.cpp on strings as a writer of JSON escapes them.
use chaos_forger.Prelude.{
  ℕ, zero, suc, ◌+◌, ◌≡◌, ◌<◌, ◌≤◌, refl, sym, ap, subst, ◌∙◌, false, [], ◌∷◌, ◌++◌, append_assoc,
  append-nil, Option, none, some, Option-cases, Bytes, length, length-append, ◌==◌, inl, inr,
  if◌then◌else◌, arith,
}
use chaos_forger.Json.Cursor.{Cursor, parsed, starts}
use chaos_forger.Json.Strings.{
  quote, backslash, simple_escape, escape, escaped, character, again, string_round, string_loop,
  parse_string,
}

-- The letter behind the backslash, for the characters that are escaped.
unfoldable pub short : ℕ → Option ℕ
short b =
    if b == quote
    then some quote
    else if b == backslash
    then some backslash
    else if b == 8
    then some b'b'
    else if b == 12
    then some b'f'
    else if b == 10
    then some b'n'
    else if b == 13
    then some b'r'
    else if b == 9
    then some b't'
    else none

abbrev pub printed : ℕ → Bytes
printed b = elim (short b) [ some e ↦ backslash ∷ e ∷ [] | none ↦ b ∷ [] ]

-- The text of a string between its quotes.
abbrev pub between_quotes : Bytes → Bytes
between_quotes [] = []
between_quotes (b ∷ bs) = printed b ++ between_quotes bs

abbrev pub at : Bytes → ℕ → Bytes → Cursor
at rest pos message = record { rest = rest; pos = pos; message = message }

simple_escape-short : (b e : ℕ) → short b ≡ some e → simple_escape e ≡ some b
unfolding short simple_escape
simple_escape-short b e h = ground arith

short-plain : (b : ℕ) → short b ≡ none → ((b == quote) ≡ false) × ((b == backslash) ≡ false)
unfolding short
short-plain b h = ground arith

pub at-eq :
    (rest : Bytes) {p q : ℕ} (message : Bytes) → p ≡ q → at rest p message ≡ at rest q message
at-eq rest message e = ap (λ p. at rest p message) e

plain_round :
    (b : ℕ) (out rest : Bytes) (pos : ℕ) (message : Bytes)
    → (b == quote) ≡ false
    → (b == backslash) ≡ false
    → string_round out (at (b ∷ rest) pos message) (b ∷ rest)
      ≡ again (out ++ b ∷ []) (at rest (pos + 1) message)
unfolding string_round character
plain_round b out rest pos message h k = rw (h, k) refl

escaped_round :
    (b e : ℕ) (out rest : Bytes) (pos : ℕ) (message : Bytes)
    → simple_escape e ≡ some b
    → string_round out (at (backslash ∷ e ∷ rest) pos message) (backslash ∷ e ∷ rest)
      ≡ again (out ++ b ∷ []) (at rest (pos + 2) message)
unfolding string_round character escaped escape
escaped_round b e out rest pos message h =
    rw (escaped, escape, h) (ap (again (out ++ b ∷ [])) (at-eq rest message (omega arith)))

printed_plain : (b : ℕ) → short b ≡ none → printed b ≡ b ∷ []
printed_plain b h = rw (printed, h) refl

printed-short : (b e : ℕ) → short b ≡ some e → printed b ≡ backslash ∷ e ∷ []
printed-short b e h = rw (printed, h) refl

printed_some : (b : ℕ) → 1 ≤ length (printed b)
printed_some b = elim (Option-cases (short b)) [
  | inl plain ↦ rw (length, printed, plain) (omega arith)
  | inr (e, h) ↦ rw (length, printed, h) (omega arith)
]

string_round-printed :
    (b : ℕ) (out rest : Bytes) (pos : ℕ) (message : Bytes)
    → string_round out (at (printed b ++ rest) pos message) (printed b ++ rest)
      ≡ again (out ++ b ∷ []) (at rest (pos + length (printed b)) message)
string_round-printed b out rest pos message = elim (Option-cases (short b)) [
  | inl plain ↦
      let (a, c) = short-plain b plain in
      subst Reads (sym (printed_plain b plain)) (plain_round b out rest pos message a c)
  | inr (e, h) ↦
      subst Reads (sym (printed-short b e h))
        (escaped_round b e out rest pos message (simple_escape-short b e h))
]
  where
    Reads : Bytes → Type 0
    Reads z =
        string_round out (at (z ++ rest) pos message) (z ++ rest)
        ≡ again (out ++ b ∷ []) (at rest (pos + length z) message)

string_loop-again :
    (fuel : ℕ) (out more : Bytes) (c d : Cursor)
    → string_round out c c.rest ≡ again more d
    → string_loop (suc fuel) out c ≡ string_loop fuel more d
unfolding string_loop
string_loop-again fuel out more c d h = rw (string_loop, h) refl

string_loop-between_quotes :
    (fuel : ℕ) (s out tail : Bytes) (pos : ℕ) (message : Bytes)
    → length s < fuel
    → string_loop fuel out (at (between_quotes s ++ quote ∷ tail) pos message)
      ≡ parsed (out ++ s) (at tail (pos + length (between_quotes s) + 1) message)
unfolding string_loop string_round character
string_loop-between_quotes zero s out tail pos message h = absurd (omega arith)
string_loop-between_quotes (suc fuel) [] out tail pos message h =
    rw (append-nil out) (ap (parsed out) (at-eq tail message (omega arith)))
string_loop-between_quotes (suc fuel) (b ∷ bs) out tail pos message h =
    let rest = between_quotes bs ++ quote ∷ tail in
    ap (λ r. string_loop (suc fuel) out (at r pos message))
      (append_assoc (printed b) (between_quotes bs) (quote ∷ tail))
    ∙ string_loop-again fuel out _ (at (printed b ++ rest) pos message) _
        (string_round-printed b out rest pos message)
    ∙ string_loop-between_quotes fuel bs (out ++ b ∷ []) tail _ message (omega arith)
    ∙ ap
        (λ o.
          parsed o (at tail (pos + length (printed b) + length (between_quotes bs) + 1) message))
        (append_assoc out (b ∷ []) bs)
    ∙ ap (parsed (out ++ b ∷ bs))
        (at-eq tail message (omega (arith, length-append (printed b) (between_quotes bs))))

length-between_quotes : (s : Bytes) → length s ≤ length (between_quotes s)
length-between_quotes [] = omega arith
length-between_quotes (b ∷ bs) =
    omega (
      arith,
      length-append (printed b) (between_quotes bs),
      printed_some b,
      length-between_quotes bs,
    )

-- A string written with the short escapes of JSON and put between quotes is read back as it was,
-- and what follows it is left to read, whatever its bytes, at whatever position.
pub parse_string-between_quotes :
    (s tail : Bytes) (pos : ℕ) (message : Bytes)
    → parse_string (at (quote ∷ (between_quotes s ++ quote ∷ tail)) pos message)
      ≡ parsed s (at tail (pos + length (between_quotes s) + 2) message)
unfolding parse_string starts
parse_string-between_quotes s tail pos message =
    string_loop-between_quotes (suc (length (between_quotes s ++ quote ∷ tail))) s [] tail (pos + 1)
      message
      (omega (arith, length-between_quotes s, length-append (between_quotes s) (quote ∷ tail)))
    ∙ ap (parsed s) (at-eq tail message (omega arith))
