-- ===== src/Http/Parser/Headers.antt =====
-- `parse_status_line` and `parse_headers`.
pub mod Numbers
use chaos_forger.Prelude.{
  ℕ, zero, suc, ◌+◌, ◌-◌, ◌*◌, ◌%◌, ◌^◌, Bool, true, false, ◌||◌, ◌&&◌, not, List, [], ◌∷◌, ◌++◌,
  map, Option, none, some, Bytes, text, c_str, length, take, drop, find?, has_prefix, same, ltb,
  ◌==◌, is_digit, is_empty, tolower, if◌then◌else◌, to_string, substr,
}
use Numbers.{strtoull}
use chaos_forger.Http.Parser.Fields.{
  Parser, fail, crlf, unframed, by_content_length, chunked, is_chunked,
}

-- `buf_.substr(0, buf_.find("\r\n"))`.
unfoldable pub first_line : Bytes → Bytes
first_line buf = elim (find? buf crlf) [ none ↦ buf | some i ↦ take i buf ]

-- A quotation of at most 64 bytes, as the messages have it.
abbrev pub excerpt : Bytes → Bytes
excerpt line = take 64 line ++ text "'"

-- The three digits of the status code, and what follows them.
unfoldable pub status_code : Bytes → Option (ℕ × Bytes)
status_code (a ∷ b ∷ c ∷ rest) =
    if is_digit a && is_digit b && is_digit c
    then some ((a - b'0') * 100 + (b - b'0') * 10 + (c - b'0'), rest)
    else none
status_code _ = none

-- The end of the line behind the code.
unfoldable pub reason_phrase : Bytes → Option Bytes
reason_phrase [] = some []
reason_phrase (c ∷ rest) = if c == b' ' then some rest else none

unfoldable pub parse_reason : Bytes → Option Bytes → Parser → Bool × Parser
parse_reason line none p = fail (text "malformed status line: '" ++ excerpt line) p
parse_reason line (some reason) p =
    (true, record p { resp = record (p.resp) { status_text = reason } })

unfoldable pub parse_code : Bytes → Option (ℕ × Bytes) → Parser → Bool × Parser
unfolding parse_reason
parse_code line none p = fail (text "malformed status code in status line: '" ++ excerpt line) p
parse_code line (some (code, rest)) p =
    parse_reason line (reason_phrase rest) (record p { resp = record (p.resp) { status = code } })

unfoldable pub parse_status_line : Parser → Bool × Parser
parse_status_line p =
    let line = first_line p.buf in
    if not (has_prefix line (text "HTTP/"))
    then fail (text "malformed status line (missing HTTP/ prefix): '" ++ excerpt line) p
    else if not (has_prefix (drop 5 line) (text "1.0 "))
        && not (has_prefix (drop 5 line) (text "1.1 "))
    then fail (text "unsupported HTTP version in status line: '" ++ excerpt line) p
    else parse_code line (status_code (drop 9 line)) p

-- `headers`: the count is a `size_t`, and `substr` clips it to the end of the buffer.
unfoldable pub header_block : ℕ → Bytes → Bytes
header_block header_end buf =
    let first_line_end = length (first_line buf) in
    substr buf (first_line_end + 2) ((header_end + 2 ^ 64 - (first_line_end + 2)) % 2 ^ 64)

-- The lines that the `while` loop visits; each takes at least two bytes, so that one unit of fuel
-- for each byte is enough.
unfoldable pub lines : ℕ → Bytes → List Bytes
lines zero rest = []
lines (suc fuel) [] = []
lines (suc fuel) (c ∷ cs) = elim (find? (c ∷ cs) crlf) [
  | none ↦ (c ∷ cs) ∷ []
  | some eol ↦ take eol (c ∷ cs) ∷ lines fuel (drop (eol + 2) (c ∷ cs))
]

abbrev pub is_ows : ℕ → Bool
is_ows c = c == b' ' || c == b'\t'

unfoldable pub trim_front : Bytes → Bytes
trim_front [] = []
trim_front (c ∷ cs) = let rest = trim_front cs in if is_ows c then rest else c ∷ cs

unfoldable pub trim_back : Bytes → Bytes
trim_back [] = []
trim_back (c ∷ cs) = let rest = trim_back cs in if is_empty rest && is_ows c then [] else c ∷ rest

-- `ieq`.
unfoldable pub ieq : Bytes → Bytes → Bool
ieq a b = same (map tolower a) (map tolower b)

-- The `Content-Length` value, as `strtoull` read it.
unfoldable pub content_length_value : Bytes → Option ℕ → Parser → Bool × Parser
content_length_value value none p =
    fail (text "malformed Content-Length value: '" ++ excerpt value) p
content_length_value value (some v) p =
    if ltb p.limits.max_body_bytes v
    then fail (text "Content-Length " ++ (to_string v ++ text " exceeds limit")) p
    else (true, record p { framing = by_content_length; content_length = v })

unfoldable pub content_length_header : Bytes → Parser → Bool × Parser
unfolding content_length_value
content_length_header value p =
    if is_chunked p.framing
    then (true, p)
    else content_length_value value (strtoull (c_str value)) p

-- The position of "chunked" in the `Transfer-Encoding` value, if it stands there.
unfoldable pub transfer_coding : Option ℕ → Parser → Bool × Parser
transfer_coding none p = (true, p)
transfer_coding (some _) p = (true, record p { framing = chunked })

unfoldable pub transfer_encoding_header : Bytes → Parser → Bool × Parser
unfolding transfer_coding
transfer_encoding_header value p = transfer_coding (find? value (text "chunked")) p

-- One line of the header block, split at its colon.
unfoldable pub header_field : Bytes → Option ℕ → Parser → Bool × Parser
unfolding content_length_header transfer_encoding_header
header_field line none p = (true, p)
header_field line (some zero) p = (true, p)
header_field line (some (suc i)) p =
    let name = take (suc i) line in
    let value = trim_back (trim_front (drop (suc i + 1) line)) in
    if ieq name (text "content-length")
    then content_length_header value p
    else if ieq name (text "transfer-encoding")
    then transfer_encoding_header value p
    else (true, p)

unfoldable pub header_line : Bytes → Parser → Bool × Parser
unfolding header_field
header_line line p = header_field line (find? line (text ":")) p

unfoldable pub header_lines : List Bytes → Parser → Bool × Parser
header_lines [] p = (true, p)
header_lines (line ∷ more) p =
    let now = header_line line p in
    let later = header_lines more now.1 in if now.0 then later else now

unfoldable pub parse_headers : ℕ → Parser → Bool × Parser
parse_headers header_end p =
    let block = header_block header_end p.buf in
    header_lines (lines (length block) block) (record p { framing = unframed })
