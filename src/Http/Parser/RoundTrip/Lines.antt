-- ===== src/Http/Parser/RoundTrip/Lines.antt =====
-- The lines that `first_line`, `header_block` and `lines` find in lines joined by line breaks.
use chaos_forger.Prelude.{
  ℕ, zero, suc, ◌+◌, ◌-◌, ◌%◌, ◌^◌, ◌≤◌, ◌<◌, ◌≡◌, refl, ap, ◌∙◌, false, List, [], ◌∷◌, ◌++◌,
  append_assoc, Bytes, length, length-append, All, take-append, drop-append_add, is_empty, arith,
}
use chaos_forger.Http.Parser.Fields.{Parser, crlf, blank_line, unframed}
use chaos_forger.Http.Parser.Headers.{first_line, header_block, lines, header_lines, parse_headers}
use chaos_forger.Http.Parser.RoundTrip.Blank.{NoBreak, IsLine, joined, find?_absent, find?_line}

first_line-eq : (line rest : Bytes) → NoBreak line → first_line (line ++ (crlf ++ rest)) ≡ line
unfolding first_line
first_line-eq line rest h =
    rw (first_line, find?_line line rest h) (take-append line (crlf ++ rest))

lines_line :
    (fuel : ℕ) (line rest : Bytes)
    → IsLine line
    → lines (suc fuel) (line ++ (crlf ++ rest)) ≡ line ∷ lines fuel rest
unfolding lines
lines_line fuel [] rest h = absurd (ground arith)
lines_line fuel (c ∷ cs) rest h =
    rw
      (
        lines,
        find?_line (c ∷ cs) rest h.0,
        take-append (c ∷ cs) (crlf ++ rest),
        drop-append_add (c ∷ cs) (crlf ++ rest) 2,
      )
      refl

last_line : (fuel : ℕ) (line : Bytes) → IsLine line → lines (suc fuel) line ≡ line ∷ []
unfolding lines
last_line fuel [] h = absurd (ground arith)
last_line fuel (c ∷ cs) h = rw (lines, find?_absent b'\r' (c ∷ cs) (b'\n' ∷ []) h.0) refl

lines-joined :
    (fuel : ℕ) (line : Bytes) (more : List Bytes)
    → IsLine line
    → All IsLine more
    → length (joined line more) ≤ fuel
    → lines fuel (joined line more) ≡ line ∷ more
lines-joined zero [] more h k le = absurd (ground arith)
lines-joined zero (c ∷ cs) [] h k le = absurd (omega arith)
lines-joined zero (c ∷ cs) (next ∷ more) h k le = absurd (omega arith)
lines-joined (suc fuel) line [] h k le = last_line fuel line h
lines-joined (suc fuel) line (next ∷ more) h k le = rw (lines_line fuel line (joined next more) h) (
    ap (◌∷◌ line) (
      lines-joined fuel next more k.0 k.1
        (omega (arith, length-append line (crlf ++ joined next more)))))

-- The header block, without the status line.
block-eq :
    (line next : Bytes) (more : List Bytes) (rest : Bytes)
    → NoBreak line
    → length (joined line (next ∷ more)) < 2 ^ 64
    → header_block
        (length (joined line (next ∷ more)))
        (joined line (next ∷ more) ++ (blank_line ++ rest))
      ≡ joined next more
unfolding header_block
block-eq line next more rest h small =
    let inner = joined next more in
    let behind : joined line (next ∷ more) ++ (blank_line ++ rest)
        ≡ line ++ (crlf ++ (inner ++ (blank_line ++ rest))) =
      append_assoc line (crlf ++ inner) (blank_line ++ rest) in
    let size : length (joined line (next ∷ more)) ≡ length line + (2 + length inner) =
      length-append line (crlf ++ inner) ∙ omega arith in
    let count : (length (joined line (next ∷ more)) + 2 ^ 64 - (length line + 2)) % 2 ^ 64
        ≡ length inner =
      omega (arith, size, small) in
    rw
      (
        behind,
        header_block,
        first_line-eq line (inner ++ (blank_line ++ rest)) h,
        drop-append_add line (crlf ++ (inner ++ (blank_line ++ rest))) 2,
        count,
      )
      (take-append inner (blank_line ++ rest))

pub first_line-joined :
    (line : Bytes) (more : List Bytes) (rest : Bytes)
    → NoBreak line
    → first_line (joined line more ++ (blank_line ++ rest)) ≡ line
first_line-joined line [] rest h = first_line-eq line (crlf ++ rest) h
first_line-joined line (next ∷ more) rest h =
    ap first_line (append_assoc line (crlf ++ joined next more) (blank_line ++ rest))
    ∙ first_line-eq line (joined next more ++ (blank_line ++ rest)) h

-- The fields read are the lines behind the first.
pub headers-joined :
    (line : Bytes) (more : List Bytes) (rest : Bytes) (p : Parser)
    → NoBreak line
    → All IsLine more
    → is_empty more ≡ false
    → p.buf ≡ joined line more ++ (blank_line ++ rest)
    → length (joined line more) < 2 ^ 64
    → parse_headers (length (joined line more)) p
      ≡ header_lines more (record p { framing = unframed })
unfolding parse_headers
headers-joined line [] rest p h k filled e small = absurd (ground arith)
headers-joined line (next ∷ more) rest p h k filled e small =
    let block : header_block (length (joined line (next ∷ more))) p.buf ≡ joined next more =
      ap (header_block (length (joined line (next ∷ more)))) e
      ∙ block-eq line next more rest h small in
    ap (λ b. header_lines (lines (length b) b) (record p { framing = unframed })) block
    ∙ ap (λ ls. header_lines ls (record p { framing = unframed }))
        (lines-joined (length (joined next more)) next more k.0 k.1 (omega arith))
