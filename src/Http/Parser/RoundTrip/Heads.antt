-- ===== src/Http/Parser/RoundTrip/Heads.antt =====
-- What `parse_status_line` and `parse_headers` read of a response that is well formed.
use chaos_forger.Prelude.{
  suc, ◌+◌, ◌-◌, ◌*◌, ◌/◌, ◌%◌, ◌^◌, ◌≤◌, ◌<◌, ◌≡◌, refl, sym, ap, ◌∙◌, true, false, List, [], ◌∷◌,
  ◌++◌, map, some, Bytes, text, length, All, take-append, has_prefix, find?, find?_at_start,
  has_prefix_self, is_empty, ◌==◌, arith, is_digit, ltb, same, append-nil,
}
use chaos_forger.Http.Parser.Fields.{Parser, blank_line, by_content_length, chunked, unframed}
use chaos_forger.Http.Parser.Headers.{
  first_line, status_code, reason_phrase, parse_reason, parse_code, parse_status_line, trim_front,
  trim_back, ieq, content_length_value, content_length_header, header_field, header_line,
  header_lines, parse_headers, transfer_encoding_header, transfer_coding,
}
use chaos_forger.Http.Parser.RoundTrip.Blank.{find?_skips}
use chaos_forger.Http.Parser.RoundTrip.Chunked.{Chunk}
use chaos_forger.Http.Parser.RoundTrip.Decimal.{trimmed-to_string, strtoull-to_string}
use chaos_forger.Http.Parser.RoundTrip.Lines.{first_line-joined, headers-joined}
use chaos_forger.Http.Parser.RoundTrip.Written.{
  Content, plain, in_chunks, body_of, framing_line, Field, Response, status_text, field_line,
  length_line, field_lines, head, IsOther, WellFormed, field_lines-AllLines, status_text-IsLine,
}

-- The parser that has read the framing.
abbrev pub framed : Content → Parser → Parser
framed (plain body) p = record p { framing = by_content_length; content_length = length body }
framed (in_chunks cs) p = record p { framing = chunked }

-- The status line sets the code and the reason.
status_line-eq :
    (r : Response) (p : Parser)
    → WellFormed r
    → first_line p.buf ≡ status_text r
    → parse_status_line p
      ≡ (true, record p { resp = record (p.resp) { status = r.status; status_text = r.reason } })
unfolding parse_status_line has_prefix text status_code parse_code parse_reason reason_phrase
status_line-eq r p w e =
    let n = r.status in
    let a : is_digit (b'0' + n / 100) ≡ true = ground (arith, w.three_digits) in
    let b : is_digit (b'0' + n / 10 % 10) ≡ true = ground arith in
    let c : is_digit (b'0' + n % 10) ≡ true = ground arith in
    let value : (b'0' + n / 100 - b'0') * 100
          + (b'0' + n / 10 % 10 - b'0') * 10
          + (b'0' + n % 10 - b'0')
        ≡ n =
      omega (arith, w.three_digits) in
    rw (e, parse_status_line, a, b, c, value) refl

named-ignored :
    (name value : Bytes) (p : Parser)
    → is_empty name ≡ false
    → All (λ c. (c == b':') ≡ false) name
    → ieq name (text "content-length") ≡ false
    → ieq name (text "transfer-encoding") ≡ false
    → header_line (name ++ (text ": " ++ value)) p ≡ (true, p)
unfolding header_line header_field text
named-ignored [] value p filled h length_no coding_no = absurd (ground arith)
named-ignored (c ∷ cs) value p filled h length_no coding_no =
    let rest = b':' ∷ b' ' ∷ value in
    let found : find? (c ∷ cs ++ rest) (b':' ∷ []) ≡ some (suc (length cs)) =
      find?_skips b':' (c ∷ cs) rest [] 0 h
        (find?_at_start rest (b':' ∷ []) (has_prefix_self (b':' ∷ []) (b' ' ∷ value)))
      ∙ ap some (omega arith) in
    rw (header_line, found, header_field, take-append (c ∷ cs) rest, length_no, coding_no) refl

length-read :
    (body : Bytes) (p : Parser)
    → p.framing ≡ unframed
    → length body ≤ p.limits.max_body_bytes
    → length body < 2 ^ 64
    → header_line (length_line body) p ≡ (true, framed (plain body) p)
unfolding header_line text header_field find? has_prefix trim_front ieq same content_length_header
    content_length_value
length-read body p u le small =
    let allowed : ltb p.limits.max_body_bytes (length body) ≡ false = ground arith in
    rw
      (
        trimmed-to_string (length body),
        content_length_header,
        u,
        strtoull-to_string _ small,
        allowed,
      )
      refl

coding-read :
    (cs : List Chunk) (p : Parser)
    → header_line (framing_line (in_chunks cs)) p ≡ (true, framed (in_chunks cs) p)
unfolding header_line text header_field find? has_prefix trim_front trim_back ieq same
    transfer_encoding_header transfer_coding
coding-read cs p = refl

framing-read :
    (c : Content) (p : Parser)
    → p.framing ≡ unframed
    → length (body_of c) ≤ p.limits.max_body_bytes
    → length (body_of c) < 2 ^ 64
    → header_line (framing_line c) p ≡ (true, framed c p)
framing-read (plain body) p u le small = length-read body p u le small
framing-read (in_chunks cs) p u le small = coding-read cs p

fields-ignored :
    (fs : List Field) (more : List Bytes) (p : Parser)
    → All IsOther fs
    → header_lines (map field_line fs ++ more) p ≡ header_lines more p
unfolding header_lines
fields-ignored [] more p h = refl
fields-ignored (f ∷ fs) more p ((filled, _, colons, _, no_length, no_coding), h) =
    rw (header_lines, named-ignored f.name f.value p filled colons no_length no_coding)
      (fields-ignored fs more p h)

-- The length counts, and the other fields do not.
fields-read :
    (r : Response) (p : Parser)
    → WellFormed r
    → p.framing ≡ unframed
    → length (body_of r.content) ≤ p.limits.max_body_bytes
    → header_lines (field_lines r) p ≡ (true, framed r.content p)
unfolding header_lines
fields-read r p w u le =
    fields-ignored r.before (framing_line r.content ∷ map field_line r.behind) p w.others_before
    ∙ rw (framing-read r.content p u le w.fits) (
        sym (ap (λ fs. header_lines fs (framed r.content p)) (append-nil (map field_line r.behind)))
        ∙ fields-ignored r.behind [] (framed r.content p) w.others_behind)

field_lines-filled : (r : Response) → is_empty (field_lines r) ≡ false
field_lines-filled r = filled r.before
  where
    filled :
        (fs : List Field)
        → is_empty (map field_line fs ++ (framing_line r.content ∷ map field_line r.behind)) ≡ false
    filled [] = refl
    filled (f ∷ fs) = refl

-- The parser that has read the status line.
abbrev pub greeted : Response → Parser → Parser
greeted r p = record p { resp = record (p.resp) { status = r.status; status_text = r.reason } }

pub parse_status_line-wire :
    (r : Response) (seen : Bytes) (p : Parser)
    → WellFormed r
    → p.buf ≡ head r ++ (blank_line ++ seen)
    → parse_status_line p ≡ (true, greeted r p)
parse_status_line-wire r seen p w e =
    status_line-eq r p w (ap first_line e ∙ first_line-joined _ _ seen (status_text-IsLine r w).0)

framed-again : (c : Content) (p : Parser) → framed c (record p { framing = unframed }) ≡ framed c p
framed-again (plain body) p = refl
framed-again (in_chunks cs) p = refl

pub parse_headers-wire :
    (r : Response) (seen : Bytes) (p : Parser)
    → WellFormed r
    → p.buf ≡ head r ++ (blank_line ++ seen)
    → length (head r) < 2 ^ 64
    → length (body_of r.content) ≤ p.limits.max_body_bytes
    → parse_headers (length (head r)) p ≡ (true, framed r.content p)
parse_headers-wire r seen p w e small le =
    headers-joined _ _ seen p (status_text-IsLine r w).0 (field_lines-AllLines r w)
      (field_lines-filled r) e small
    ∙ (fields-read r (record p { framing = unframed }) w refl le
        ∙ ap (λ q. (true, q)) (framed-again r.content p))
