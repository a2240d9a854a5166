-- ===== src/Http/Parser/HeadBounds.antt =====
-- Reading the header block keeps the parser's invariant.
use chaos_forger.Prelude.{
  ℕ, zero, suc, ◌≤◌, ◌≡◌, Bool, true, false, not, ◌&&◌, List, [], ◌∷◌, Option, none, some, Bytes,
  text, length, take, drop, find?, has_prefix, ltb, if_cases, arith,
}
use chaos_forger.Http.Parser.Fields.{
  Framing, unframed, chunked, is_chunked, is_error, Parser, Limits, fail,
}
use chaos_forger.Http.Parser.Headers.{
  first_line, status_code, reason_phrase, parse_reason, parse_code, content_length_value,
  transfer_coding, ieq, parse_status_line, header_field, header_line, header_lines, parse_headers,
}
use chaos_forger.Http.Parser.Headers.Numbers.{strtoull}
use chaos_forger.Http.Parser.Invariant.{counts_bytes, in_counted_body, Inv, fail-Inv}

module _ (m : Limits) where
  -- The invariant while the header block is read.
  abbrev pub Reading : Parser → Type 0
  Reading p = Inv m p × (length p.buf ≤ p.limits.max_header_bytes) × (p.chunk_started ≡ false)

  abbrev Still : Bool × Parser → Type 0
  Still r = Reading r.1

  fail-Still : (msg : Bytes) (p : Parser) → Reading p → Still (fail msg p)
  unfolding fail
  fail-Still msg p (v, small, fresh) = (
    fail-Inv m msg p v,
    if_cases (λ (q : Parser). length q.buf ≤ q.limits.max_header_bytes) (is_error p.state)
        (λ _. small) (λ _. small),
    if_cases (λ (q : Parser). q.chunk_started ≡ false) (is_error p.state) (λ _. fresh) (λ _. fresh),
  )

  -- A change of the response head, of the framing and of the count.
  recount :
      (p : Parser) (status : ℕ) (reason : Bytes) (f : Framing) (n : ℕ)
      → Reading p
      → (counts_bytes f ≡ true → n ≤ p.limits.max_body_bytes)
      → (in_counted_body p.state ≡ true → n ≤ p.limits.max_body_bytes)
      → Reading (record p {
        resp = record { status = status; status_text = reason; body = p.resp.body };
        framing = f;
        content_length = n;
      })
  recount p status reason f n (v, small, fresh) h k = (
    record {
      limited = v.limited;
      small_body = v.small_body;
      small_buffer = v.small_buffer;
      small_rest = v.small_rest;
      small_count = h;
      small_needed = k;
      small_chunk = v.small_chunk;
      not_started = v.not_started;
    },
    small,
    fresh,
  )

  parse_reason-Still :
      (line : Bytes) (o : Option Bytes) (p : Parser) → Reading p → Still (parse_reason line o p)
  unfolding parse_reason
  parse_reason-Still line none p v = fail-Still _ p v
  parse_reason-Still line (some reason) p v = recount p _ _ _ _ v v.0.small_count v.0.small_needed

  parse_code-Still :
      (line : Bytes) (o : Option (ℕ × Bytes)) (p : Parser) → Reading p → Still (parse_code line o p)
  unfolding parse_code
  parse_code-Still line none p v = fail-Still _ p v
  parse_code-Still line (some (code, rest)) p v =
      parse_reason-Still line (reason_phrase rest) _
        (recount p _ _ _ _ v v.0.small_count v.0.small_needed)

  pub parse_status_line-Still : (p : Parser) → Reading p → Still (parse_status_line p)
  unfolding parse_status_line
  parse_status_line-Still p v =
      let line = first_line p.buf in
      if_cases Still (not (has_prefix line (text "HTTP/"))) (λ _. fail-Still _ p v)
        (λ _.
          if_cases Still
            (not (has_prefix (drop 5 line) (text "1.0 "))
              && not (has_prefix (drop 5 line) (text "1.1 ")))
            (λ _. fail-Still _ p v) (λ _. parse_code-Still line (status_code (drop 9 line)) p v))

  content_length_value-Still :
      (value : Bytes) (o : Option ℕ) (p : Parser)
      → Reading p
      → Still (content_length_value value o p)
  unfolding content_length_value
  content_length_value-Still value none p v = fail-Still _ p v
  content_length_value-Still value (some n) p v =
      if_cases Still (ltb p.limits.max_body_bytes n) (λ _. fail-Still _ p v)
        (λ ok.
          let fits : n ≤ p.limits.max_body_bytes = ground arith in
          recount p _ _ _ n v (λ _. fits) (λ _. fits))

  header_field-Still :
      (line : Bytes) (o : Option ℕ) (p : Parser) → Reading p → Still (header_field line o p)
  unfolding header_field
  header_field-Still line none p v = v
  header_field-Still line (some zero) p v = v
  header_field-Still line (some (suc i)) p v =
      let name = take (suc i) line in
      if_cases Still (ieq name (text "content-length"))
        (λ _.
          if_cases Still (is_chunked p.framing) (λ _. v)
            (λ _. content_length_value-Still _ (strtoull _) p v))
        (λ _.
          if_cases Still (ieq name (text "transfer-encoding"))
            (λ _. coding (find? _ (text "chunked"))) (λ _. v))
    where
      coding : (o : Option ℕ) → Still (transfer_coding o p)
      coding none = v
      coding (some _) = recount p _ _ chunked _ v (λ h. cc) v.0.small_needed

  header_lines-Still : (ls : List Bytes) (p : Parser) → Reading p → Still (header_lines ls p)
  unfolding header_lines header_line
  header_lines-Still [] p v = v
  header_lines-Still (line ∷ more) p v =
      let now = header_field-Still line (find? line (text ":")) p v in
      if_cases Still (header_line line p).0 (λ _. header_lines-Still more _ now) (λ _. now)

  pub parse_headers-Still : (h : ℕ) (p : Parser) → Reading p → Still (parse_headers h p)
  unfolding parse_headers
  parse_headers-Still h p v =
      header_lines-Still _ (record p { framing = unframed })
        (recount p _ _ unframed _ v (λ h. cc) v.0.small_needed)
