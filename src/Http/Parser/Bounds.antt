-- ===== src/Http/Parser/Bounds.antt =====
-- No response makes the parser hold more than `max_body_bytes` of body.
use chaos_forger.Prelude.{
  ℕ, ◌+◌, ◌≤◌, ◌<◌, ◌^◌, ◌≡◌, refl, sym, ap, Bool, true, false, ◌&&◌, List, [], ◌∷◌, ◌++◌, Option,
  none, some, Bytes, text, length, drop, length-drop, find?, ltb, if_cases, arith, to_string,
}
use chaos_forger.Http.Parser.Fields.{
  State, status_line, headers, body_content_length, body_chunked, body_eof, done, error, is_done,
  is_error, in_headers, in_body_eof, Parser, Limits, fail, blank_line, make,
}
use chaos_forger.Http.Parser.Headers.{parse_status_line, parse_headers}
use chaos_forger.Http.Parser.{step_body, step_headers, step, feed_eof, feed_bytes, feed_live, feed}
use chaos_forger.Http.Parser.Invariant.{in_chunked_body, Inv, After, fail-Inv}
use chaos_forger.Http.Parser.ChunkBounds.{body_step_chunked-Inv}
use chaos_forger.Http.Parser.HeadBounds.{Reading, parse_status_line-Still, parse_headers-Still}
use chaos_forger.Http.Parser.BodyBounds.{
  finished, failed, body_step_content_length-Inv, enter_body-Inv,
}

module _ (m : Limits) where
  step_headers-Inv : (o : Option ℕ) (p : Parser) → Reading m p → (After m) (step_headers o p)
  unfolding step_headers
  step_headers-Inv none p v = v.0
  step_headers-Inv (some h) p v =
      let status = parse_status_line-Still m p v in
      let parsed = parse_headers-Still m h _ status in
      if_cases (After m) (parse_status_line p).0
        (λ _.
          if_cases (After m) (parse_headers h (parse_status_line p).1).0
            (λ _. enter_body-Inv m _ _ (dropped (h + 4) _ parsed) parsed.0.small_count)
            (λ _. parsed.0))
        (λ _. status.0)
    where
      dropped : (n : ℕ) (p : Parser) → Reading m p → Reading m (record p { buf = drop n p.buf })
      dropped n p (v, small, fresh) = (
        record {
          limited = v.limited;
          small_body = v.small_body;
          small_buffer = λ k. omega (arith, v.small_buffer k, length-drop n p.buf);
          small_rest = λ k. omega (arith, v.small_rest k, length-drop n p.buf);
          small_count = v.small_count;
          small_needed = v.small_needed;
          small_chunk = v.small_chunk;
          not_started = v.not_started;
        },
        omega (arith, small, length-drop n p.buf),
        fresh,
      )

  feed_eof-Inv : (p : Parser) → Inv m p → (After m) (feed_eof p)
  unfolding feed_eof
  feed_eof-Inv p v =
      if_cases (After m) (in_body_eof p.state && p.allow_eof_termination)
        (λ h.
          finished m (record p { resp = record (p.resp) { body = p.buf }; buf = [] })
            (record {
              limited = v.limited;
              small_body = v.small_rest (ground arith);
              small_count = v.small_count;
            }))
        (λ _. fail-Inv m _ p v)

  step_body-Inv : (s : State) (p : Parser) → p.state ≡ s → Inv m p → (After m) (step_body s p)
  unfolding step_body
  step_body-Inv status_line p here v = v
  step_body-Inv headers p here v = v
  step_body-Inv body_content_length p here v = body_step_content_length-Inv m p v here
  step_body-Inv body_chunked p here v = body_step_chunked-Inv m p (record {
    limited = v.limited;
    decoding = here;
    small_body = v.small_body;
    small_count = v.small_count;
    small_chunk = v.small_chunk (ap in_chunked_body here);
  })
  step_body-Inv body_eof p here v = v
  step_body-Inv done p here v = v
  step_body-Inv error p here v = v

  step-Inv : (p : Parser) → Inv m p → (After m) (step p)
  unfolding step
  step-Inv p v =
      if_cases (After m) (in_headers p.state)
        (λ h. step_headers-Inv (find? p.buf blank_line) p (v, v.small_buffer h, v.not_started h))
        (λ _. step_body-Inv p.state p refl v)

  head_live : (s : State) → in_headers s ≡ true → is_error s ≡ false
  head_live status_line h = refl
  head_live headers h = refl
  head_live body_content_length h = refl
  head_live body_chunked h = refl
  head_live body_eof h = refl
  head_live done h = refl
  head_live error h = sym h

  eof_live : (s : State) → in_body_eof s ≡ true → is_error s ≡ false
  eof_live status_line h = refl
  eof_live headers h = refl
  eof_live body_content_length h = refl
  eof_live body_chunked h = refl
  eof_live body_eof h = refl
  eof_live done h = refl
  eof_live error h = sym h

  feed_bytes-Inv : (bytes : Bytes) (p : Parser) → Inv m p → (After m) (feed_bytes bytes p)
  unfolding feed_bytes
  feed_bytes-Inv bytes p v =
      if_cases (After m) (in_headers p.state && ltb p.limits.max_header_bytes (length grown.buf))
        (λ h.
          too_large
            (text "header block exceeds " ++ (to_string p.limits.max_header_bytes ++ text " bytes"))
            (head_live p.state (ground arith)))
        (λ head.
          if_cases (After m) (in_body_eof p.state && ltb p.limits.max_body_bytes (length grown.buf))
            (λ h.
              too_large (text "EOF-framed body exceeds limit") (eof_live p.state (ground arith)))
            (λ body. step-Inv grown (record {
              limited = v.limited;
              small_body = v.small_body;
              small_buffer = λ k. ground arith;
              small_rest = λ k. ground arith;
              small_count = v.small_count;
              small_needed = v.small_needed;
              small_chunk = v.small_chunk;
              not_started = v.not_started;
            })))
    where
      grown : Parser
      grown = record p { buf = p.buf ++ bytes }

      too_large : (msg : Bytes) → is_error p.state ≡ false → (After m) (fail msg grown)
      too_large msg live =
          failed m msg grown live
            (record { limited = v.limited; small_body = v.small_body; small_count = v.small_count })

  -- A parser keeps its invariant whatever it is fed.
  pub feed-Inv : (input : Option Bytes) (p : Parser) → Inv m p → (After m) (feed input p)
  unfolding feed feed_live
  feed-Inv input p v =
      if_cases (After m) (is_done p.state) (λ _. v)
        (λ _. if_cases (After m) (is_error p.state) (λ _. v) (λ _. live input))
    where
      live : (input : Option Bytes) → (After m) (feed_live input p)
      live none = feed_eof-Inv p v
      live (some bytes) = feed_bytes-Inv bytes p v

-- The parser after some feeds, in order; `none` is the end of the stream.
unfoldable pub feeds : List (Option Bytes) → Parser → Parser
feeds [] p = p
feeds (input ∷ more) p = feeds more (feed input p).1

feeds-Inv :
    (m : Limits) (inputs : List (Option Bytes)) (p : Parser) → Inv m p → Inv m (feeds inputs p)
unfolding feeds
feeds-Inv m [] p v = v
feeds-Inv m (input ∷ more) p v = feeds-Inv m more (feed input p).1 (feed-Inv m input p v)

pub make-Inv :
    (allow : Bool) (m : Limits)
    → m.max_header_bytes ≤ m.max_body_bytes
    → m.max_body_bytes < 2 ^ 63
    → Inv m (make allow m)
make-Inv allow m h b = record {
  limited = record { given = refl; header_le_body = h; body_fits = b };
  small_body = omega arith;
  small_buffer = λ k. omega arith;
  small_rest = λ k. cc;
  small_count = λ k. cc;
  small_needed = λ k. cc;
  small_chunk = λ k. cc;
  not_started = λ k. refl;
}

-- Whatever a new parser is fed, in whatever pieces, the body it holds never exceeds
-- `max_body_bytes`, where the limits are below 2^63 and a header block fits into a body.
pub feeds_body_bound :
    (allow : Bool) (m : Limits) (inputs : List (Option Bytes))
    → m.max_header_bytes ≤ m.max_body_bytes
    → m.max_body_bytes < 2 ^ 63
    → length (feeds inputs (make allow m)).resp.body ≤ m.max_body_bytes
feeds_body_bound allow m inputs h b =
    let v = feeds-Inv m inputs (make allow m) (make-Inv allow m h b) in
    omega (arith, v.small_body, ap (λ l. l.max_body_bytes) v.limited.given)

-- Under the same limits, a parser that still waits for the end of the header block has buffered at
-- most `max_header_bytes`.
pub feeds_head_bound :
    (allow : Bool) (m : Limits) (inputs : List (Option Bytes))
    → m.max_header_bytes ≤ m.max_body_bytes
    → m.max_body_bytes < 2 ^ 63
    → in_headers (feeds inputs (make allow m)).state ≡ true
    → length (feeds inputs (make allow m)).buf ≤ m.max_header_bytes
feeds_head_bound allow m inputs h b head =
    let v = feeds-Inv m inputs (make allow m) (make-Inv allow m h b) in
    omega (arith, v.small_buffer head, ap (λ l. l.max_header_bytes) v.limited.given)
