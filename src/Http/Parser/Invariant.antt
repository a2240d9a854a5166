-- ===== src/Http/Parser/Invariant.antt =====
-- The parser's invariant: what it buffers and collects stays within the limits.
use chaos_forger.Prelude.{◌+◌, ◌≤◌, ◌<◌, ◌^◌, ◌≡◌, ap, Bool, true, false, Bytes, length, if_cases}
use chaos_forger.Http.Parser.Fields.{
  State, body_content_length, body_chunked, Framing, by_content_length, is_error, in_headers,
  in_body_eof, Parser, Limits, fail,
}

abbrev pub counts_bytes : Framing → Bool
counts_bytes by_content_length = true
counts_bytes _ = false

abbrev pub in_counted_body : State → Bool
in_counted_body body_content_length = true
in_counted_body _ = false

abbrev pub in_chunked_body : State → Bool
in_chunked_body body_chunked = true
in_chunked_body _ = false

module _ (m : Limits) where
  -- The limits are the given ones and make sense: a header block fits into a body, and sizes do not
  -- wrap.
  pub record HasLimits (l : Limits) : Type 0 where
    pub given : l ≡ m
    pub header_le_body : l.max_header_bytes ≤ l.max_body_bytes
    pub body_fits : l.max_body_bytes < 2 ^ 63

  pub record Inv (p : Parser) : Type 0 where
    pub limited : HasLimits p.limits
    pub small_body : length p.resp.body ≤ p.limits.max_body_bytes
    pub small_buffer : in_headers p.state ≡ true → length p.buf ≤ p.limits.max_header_bytes
    pub small_rest : in_body_eof p.state ≡ true → length p.buf ≤ p.limits.max_body_bytes
    pub small_count : counts_bytes p.framing ≡ true → p.content_length ≤ p.limits.max_body_bytes
    pub small_needed : in_counted_body p.state ≡ true → p.content_length ≤ p.limits.max_body_bytes
    pub small_chunk :
        in_chunked_body p.state ≡ true
        → p.chunk_started ≡ true
        → length p.resp.body + p.chunk_remaining ≤ p.limits.max_body_bytes
    pub not_started : in_headers p.state ≡ true → p.chunk_started ≡ false

  pub fail-Inv : (msg : Bytes) (p : Parser) → Inv p → Inv (fail msg p).1
  unfolding fail
  fail-Inv msg p v =
      if_cases Inv (is_error p.state) (λ _. v)
        (λ _. record {
          limited = v.limited;
          small_body = v.small_body;
          small_buffer = λ h. cc;
          small_rest = λ h. cc;
          small_count = v.small_count;
          small_needed = λ h. cc;
          small_chunk = λ h. cc;
          not_started = λ h. cc;
        })

  abbrev pub After : Bool × Parser → Type 0
  After r = Inv r.1

  -- What the chunk decoder keeps between its passes.
  pub record Decoding (p : Parser) : Type 0 where
    pub limited : HasLimits p.limits
    pub decoding : p.state ≡ body_chunked
    pub small_body : length p.resp.body ≤ p.limits.max_body_bytes
    pub small_count : counts_bytes p.framing ≡ true → p.content_length ≤ p.limits.max_body_bytes
    pub small_chunk :
        p.chunk_started ≡ true → length p.resp.body + p.chunk_remaining ≤ p.limits.max_body_bytes

  pub Decoding-Inv : {p : Parser} → Decoding p → Inv p
  Decoding-Inv {p} v = record {
    limited = v.limited;
    small_body = v.small_body;
    small_buffer = λ h. cc (ap in_headers v.decoding);
    small_rest = λ h. cc (ap in_body_eof v.decoding);
    small_count = v.small_count;
    small_needed = λ h. cc (ap in_counted_body v.decoding);
    small_chunk = λ _. v.small_chunk;
    not_started = λ h. cc (ap in_headers v.decoding);
  }
