-- ===== src/Http/Parser/FeedVerdict.antt =====
-- What `feed` returns: false with the Error state, true with any other.
use chaos_forger.Prelude.{
  ℕ, zero, suc, ◌≡◌, refl, sym, ap, ◌∙◌, Bool, true, false, not, ◌&&◌, List, [], ◌∷◌, ◌++◌, Option,
  none, some, Bytes, text, length, take, drop, find?, has_prefix, ltb, is_empty, if_cases, c_str,
  ◌↔◌,
}
use chaos_forger.Http.Parser.Fields.{
  State, body_content_length, body_chunked, done, error, Framing, unframed, by_content_length,
  chunked, is_done, is_chunked, is_error, in_headers, in_body_eof, Parser, blank_line,
}
use chaos_forger.Http.Parser.Headers.{
  first_line, status_code, reason_phrase, parse_reason, parse_code, content_length_value,
  transfer_coding, ieq, parse_status_line, header_field, header_line, header_lines, parse_headers,
  content_length_header, transfer_encoding_header,
}
use chaos_forger.Http.Parser.Headers.Numbers.{strtoull}
use chaos_forger.Http.Parser.{
  body_step_content_length, step_body, enter_body, step_headers, step, feed_eof, feed_bytes,
  feed_live, feed,
}
use chaos_forger.Http.Parser.Verdict.{Live, Agrees, accept, fail-Agrees, Live-of}
use chaos_forger.Http.Parser.Progress.{body_step_chunked-Agrees}

refuse : {r : Bool × Parser} → Agrees r → r.0 ≡ false → Agrees (false, r.1)
refuse a h = record { verdict = sym h ∙ a.verdict }

parse_reason-Agrees :
    (line : Bytes) (o : Option Bytes) (p : Parser) → Live p → Agrees (parse_reason line o p)
unfolding parse_reason
parse_reason-Agrees line none p l = fail-Agrees _ p
parse_reason-Agrees line (some reason) p l = accept _ l

parse_code-Agrees :
    (line : Bytes) (o : Option (ℕ × Bytes)) (p : Parser) → Live p → Agrees (parse_code line o p)
unfolding parse_code
parse_code-Agrees line none p l = fail-Agrees _ p
parse_code-Agrees line (some (code, rest)) p l = parse_reason-Agrees line (reason_phrase rest) _ l

parse_status_line-Agrees : (p : Parser) → Live p → Agrees (parse_status_line p)
unfolding parse_status_line
parse_status_line-Agrees p l =
    let line = first_line p.buf in
    if_cases Agrees (not (has_prefix line (text "HTTP/"))) (λ _. fail-Agrees _ p)
      (λ _.
        if_cases Agrees
          (not (has_prefix (drop 5 line) (text "1.0 "))
            && not (has_prefix (drop 5 line) (text "1.1 ")))
          (λ _. fail-Agrees _ p) (λ _. parse_code-Agrees line (status_code (drop 9 line)) p l))

content_length_value-Agrees :
    (value : Bytes) (o : Option ℕ) (p : Parser) → Live p → Agrees (content_length_value value o p)
unfolding content_length_value
content_length_value-Agrees value none p l = fail-Agrees _ p
content_length_value-Agrees value (some v) p l =
    if_cases Agrees (ltb p.limits.max_body_bytes v) (λ _. fail-Agrees _ p) (λ _. accept _ l)

content_length_header-Agrees :
    (value : Bytes) (p : Parser) → Live p → Agrees (content_length_header value p)
unfolding content_length_header
content_length_header-Agrees value p l =
    if_cases Agrees (is_chunked p.framing) (λ _. accept p l)
      (λ _. content_length_value-Agrees value (strtoull (c_str value)) p l)

transfer_coding-Agrees : (o : Option ℕ) (p : Parser) → Live p → Agrees (transfer_coding o p)
unfolding transfer_coding
transfer_coding-Agrees none p l = accept p l
transfer_coding-Agrees (some i) p l = accept _ l

transfer_encoding_header-Agrees :
    (value : Bytes) (p : Parser) → Live p → Agrees (transfer_encoding_header value p)
unfolding transfer_encoding_header
transfer_encoding_header-Agrees value p l = transfer_coding-Agrees _ p l

header_field-Agrees :
    (line : Bytes) (o : Option ℕ) (p : Parser) → Live p → Agrees (header_field line o p)
unfolding header_field
header_field-Agrees line none p l = accept p l
header_field-Agrees line (some zero) p l = accept p l
header_field-Agrees line (some (suc i)) p l =
    let name = take (suc i) line in
    if_cases Agrees (ieq name (text "content-length")) (λ _. content_length_header-Agrees _ p l)
      (λ _.
        if_cases Agrees (ieq name (text "transfer-encoding"))
          (λ _. transfer_encoding_header-Agrees _ p l) (λ _. accept p l))

header_lines-Agrees : (ls : List Bytes) (p : Parser) → Live p → Agrees (header_lines ls p)
unfolding header_lines header_line
header_lines-Agrees [] p l = accept p l
header_lines-Agrees (line ∷ more) p l =
    let now = header_field-Agrees line (find? line (text ":")) p l in
    if_cases Agrees (header_line line p).0 (λ ok. header_lines-Agrees more _ (Live-of now ok))
      (λ _. now)

parse_headers-Agrees : (h : ℕ) (p : Parser) → Live p → Agrees (parse_headers h p)
unfolding parse_headers
parse_headers-Agrees h p l = header_lines-Agrees _ (record p { framing = unframed }) l

body_step_content_length-Agrees : (p : Parser) → Live p → Agrees (body_step_content_length p)
unfolding body_step_content_length
body_step_content_length-Agrees p l =
    if_cases Agrees (ltb (length p.buf) p.content_length) (λ _. accept p l)
      (λ _.
        if_cases Agrees (is_empty (drop p.content_length p.buf)) (λ _. accept _ refl)
          (λ _. fail-Agrees _ _))

step_body-Agrees : (s : State) (p : Parser) → is_error s ≡ false → Live p → Agrees (step_body s p)
unfolding step_body
step_body-Agrees body_content_length p _ l = body_step_content_length-Agrees p l
step_body-Agrees body_chunked p _ l = body_step_chunked-Agrees p l
step_body-Agrees error p h l = cc
step_body-Agrees _ p _ l = accept p l

enter_body-Agrees : (f : Framing) (p : Parser) → Live p → Agrees (enter_body f p)
unfolding enter_body
enter_body-Agrees by_content_length p l = body_step_content_length-Agrees _ refl
enter_body-Agrees chunked p l = body_step_chunked-Agrees _ refl
enter_body-Agrees _ p l =
    if_cases Agrees p.allow_eof_termination (λ _. accept _ refl) (λ _. fail-Agrees _ p)

step_headers-Agrees : (o : Option ℕ) (p : Parser) → Live p → Agrees (step_headers o p)
unfolding step_headers
step_headers-Agrees none p l = accept p l
step_headers-Agrees (some h) p l =
    let status = parse_status_line-Agrees p l in
    if_cases Agrees (parse_status_line p).0
      (λ ok.
        let parsed = parse_headers-Agrees h _ (Live-of status ok) in
        if_cases Agrees (parse_headers h (parse_status_line p).1).0
          (λ ok'. enter_body-Agrees _ _ (Live-of parsed ok')) (refuse parsed))
      (refuse status)

step-Agrees : (p : Parser) → Live p → Agrees (step p)
unfolding step
step-Agrees p l =
    if_cases Agrees (in_headers p.state) (λ _. step_headers-Agrees (find? p.buf blank_line) p l)
      (λ _. step_body-Agrees p.state p l l)

feed_eof-Agrees : (p : Parser) → Live p → Agrees (feed_eof p)
unfolding feed_eof
feed_eof-Agrees p l =
    if_cases Agrees (in_body_eof p.state && p.allow_eof_termination) (λ _. accept _ refl)
      (λ _. fail-Agrees _ p)

feed_bytes-Agrees : (bytes : Bytes) (p : Parser) → Live p → Agrees (feed_bytes bytes p)
unfolding feed_bytes
feed_bytes-Agrees bytes p l =
    let grown = record p { buf = p.buf ++ bytes } in
    if_cases Agrees (in_headers p.state && ltb p.limits.max_header_bytes (length grown.buf))
      (λ _. fail-Agrees _ grown)
      (λ _.
        if_cases Agrees (in_body_eof p.state && ltb p.limits.max_body_bytes (length grown.buf))
          (λ _. fail-Agrees _ grown) (λ _. step-Agrees grown l))

feed_live-Agrees : (input : Option Bytes) (p : Parser) → Live p → Agrees (feed_live input p)
unfolding feed_live
feed_live-Agrees none p l = feed_eof-Agrees p l
feed_live-Agrees (some bytes) p l = feed_bytes-Agrees bytes p l

live_of_done : (s : State) → is_done s ≡ true → is_error s ≡ false
live_of_done done h = refl
live_of_done error h = cc
live_of_done _ h = refl

feed-Agrees : (input : Option Bytes) (p : Parser) → Agrees (feed input p)
unfolding feed
feed-Agrees input p =
    if_cases Agrees (is_done p.state) (λ d. accept p (live_of_done p.state d))
      (λ _.
        if_cases Agrees (is_error p.state) (λ e. record { verdict = ap not (sym e) })
          (λ l. feed_live-Agrees input p l))

error_of : (s : State) → not (is_error s) ≡ false → s ≡ error
error_of error h = refl
error_of _ h = cc

-- `feed` returns false exactly when it leaves the parser in the Error state, whatever it is fed
-- and whatever state it starts from.
pub feed-eq-false_iff :
    (input : Option Bytes) (p : Parser)
    → ((feed input p).0 ≡ false) ↔ ((feed input p).1.state ≡ error)
feed-eq-false_iff input p =
    let v = (feed-Agrees input p).verdict in
    (λ h. error_of (feed input p).1.state (sym v ∙ h), λ e. v ∙ ap (λ s. not (is_error s)) e)
