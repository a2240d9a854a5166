-- ===== src/Http/Parser/BodyBounds.antt =====
-- Entering the body and reading one of a known length keep the parser's invariant.
use chaos_forger.Prelude.{
  ◌≤◌, ◌≡◌, refl, ap, true, false, Bytes, text, length, take, drop, length-take, ltb, is_empty,
  if◌then◌else◌, if_cases, arith,
}
use chaos_forger.Http.Parser.Fields.{
  body_content_length, body_chunked, body_eof, done, Framing, unframed, by_content_length, chunked,
  eof, is_error, Parser, Limits, fail,
}
use chaos_forger.Http.Parser.{body_step_content_length, step_body, enter_body}
use chaos_forger.Http.Parser.Invariant.{
  counts_bytes, in_counted_body, HasLimits, Inv, After, fail-Inv,
}
use chaos_forger.Http.Parser.ChunkBounds.{body_step_chunked-Inv}
use chaos_forger.Http.Parser.HeadBounds.{Reading}

module _ (m : Limits) where
  -- What is left to know of the parser once the response is complete.
  pub record Sized (p : Parser) : Type 0 where
    pub limited : HasLimits m p.limits
    pub small_body : length p.resp.body ≤ p.limits.max_body_bytes
    pub small_count : counts_bytes p.framing ≡ true → p.content_length ≤ p.limits.max_body_bytes

  pub finished : (p : Parser) → Sized p → Inv m (record p { state = done })
  finished p v = record {
    limited = v.limited;
    small_body = v.small_body;
    small_buffer = λ k. cc;
    small_rest = λ k. cc;
    small_count = v.small_count;
    small_needed = λ k. cc;
    small_chunk = λ k. cc;
    not_started = λ k. cc;
  }

  pub failed :
      (msg : Bytes) (p : Parser) → is_error p.state ≡ false → Sized p → (After m) (fail msg p)
  unfolding fail
  failed msg p live v = rw (live) (record {
    limited = v.limited;
    small_body = v.small_body;
    small_buffer = λ k. cc;
    small_rest = λ k. cc;
    small_count = v.small_count;
    small_needed = λ k. cc;
    small_chunk = λ k. cc;
    not_started = λ k. cc;
  })

  pub body_step_content_length-Inv :
      (p : Parser)
      → Inv m p
      → p.state ≡ body_content_length
      → (After m) (body_step_content_length p)
  unfolding body_step_content_length
  body_step_content_length-Inv p v here =
      if_cases (After m) (ltb (length p.buf) p.content_length) (λ _. v)
        (λ _.
          if_cases (After m) (is_empty taken.buf) (λ _. finished taken sized)
            (λ _. failed _ taken (ap is_error here) sized))
    where
      taken : Parser
      taken = record p {
        resp = record (p.resp) { body = take p.content_length p.buf };
        buf = drop p.content_length p.buf;
      }

      needed : p.content_length ≤ p.limits.max_body_bytes
      needed = v.small_needed (cc (ap in_counted_body here))

      sized : Sized taken
      sized = record {
        limited = v.limited;
        small_body = omega (arith, needed, length-take p.content_length p.buf);
        small_count = v.small_count;
      }

  -- A parser in the state of a body, which has read no chunk yet.
  to_end :
      (p : Parser)
      → Reading m p
      → (After m) (
          if p.allow_eof_termination
          then (true, record p { state = body_eof })
          else fail (text "response has neither Content-Length nor chunked framing") p)
  to_end p (v, small, fresh) =
      if_cases (After m) p.allow_eof_termination
        (λ _. record {
          limited = v.limited;
          small_body = v.small_body;
          small_buffer = λ k. cc;
          small_rest = λ _. omega (arith, small, v.limited.header_le_body);
          small_count = v.small_count;
          small_needed = λ k. cc;
          small_chunk = λ k. cc;
          not_started = λ k. cc;
        })
        (λ _. fail-Inv m _ p v)

  pub enter_body-Inv :
      (f : Framing) (p : Parser)
      → Reading m p
      → (counts_bytes f ≡ true → p.content_length ≤ p.limits.max_body_bytes)
      → (After m) (enter_body f p)
  unfolding enter_body step_body
  enter_body-Inv by_content_length p (v, small, fresh) n =
      body_step_content_length-Inv (record p { state = body_content_length })
        (record {
          limited = v.limited;
          small_body = v.small_body;
          small_buffer = λ k. cc;
          small_rest = λ k. cc;
          small_count = v.small_count;
          small_needed = λ _. n refl;
          small_chunk = λ k. cc;
          not_started = λ k. cc;
        })
        refl
  enter_body-Inv chunked p (v, small, fresh) n =
      body_step_chunked-Inv m (record p { state = body_chunked })
        (record {
          limited = v.limited;
          decoding = refl;
          small_body = v.small_body;
          small_count = v.small_count;
          small_chunk = λ k. cc fresh;
        })
  enter_body-Inv unframed p v n = to_end p v
  enter_body-Inv eof p v n = to_end p v
