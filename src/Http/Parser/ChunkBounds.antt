-- ===== src/Http/Parser/ChunkBounds.antt =====
-- The chunk decoder keeps the parser's invariant.
use chaos_forger.Prelude.{
  ℕ, zero, suc, ◌+◌, ◌-◌, ◌≤◌, ◌^◌, ◌%◌, ◌≡◌, refl, Bool, true, false, not, ◌||◌, ◌++◌, Option,
  none, some, inl, inr, Bytes, length, take, drop, length-take, length-append, find?, has_prefix,
  ltb, ◌==◌, is_empty, if_cases, Option-cases, arith, min,
}
use chaos_forger.Http.Parser.Fields.{done, Parser, Limits, crlf}
use chaos_forger.Http.Parser.Headers.Numbers.{hex_value}
use chaos_forger.Http.Parser.Chunks.{
  Round, stop, again, trailer_loop, last_chunk, chunk_end, chunk_payload, size_digits, all_xdigits,
  chunk_size, chunk_size_line, chunk_header, chunk_round, chunk_loop, body_step_chunked,
}
use chaos_forger.Http.Parser.Invariant.{Inv, After, fail-Inv, Decoding, Decoding-Inv}

module _ (m : Limits) where
  abbrev RoundInv : Round → Type 0
  RoundInv (stop r) = Inv m r.1
  RoundInv (again q) = Decoding m q

  trailer_loop-Inv :
      (fuel : ℕ) (rest : Bytes) (p : Parser) → Decoding m p → (After m) (trailer_loop fuel rest p)
  unfolding trailer_loop
  trailer_loop-Inv zero rest p v = Decoding-Inv m v
  trailer_loop-Inv (suc fuel) rest p v = elim (Option-cases (find? rest crlf)) [
    | inl missing ↦
        rw (missing, trailer_loop)
          (if_cases (After m) (ltb p.limits.max_chunk_line_bytes (length p.buf))
            (λ _. fail-Inv m _ p (Decoding-Inv m v)) (λ _. Decoding-Inv m v))
    | inr (teol, found) ↦
        let counted = record p { trailer_bytes = p.trailer_bytes + (teol + 2) } in
        let kept : Decoding m counted = record {
          limited = v.limited;
          decoding = v.decoding;
          small_body = v.small_body;
          small_count = v.small_count;
          small_chunk = v.small_chunk;
        } in
        rw (found, trailer_loop)
          (if_cases (After m) (ltb p.limits.max_chunk_line_bytes counted.trailer_bytes)
            (λ _. fail-Inv m _ counted (Decoding-Inv m kept))
            (λ _.
              if_cases (After m) (teol == 0) (λ _. finished p v _ _)
                (λ _. trailer_loop-Inv fuel (drop (teol + 2) rest) counted kept)))
  ]
    where
      finished :
          (p : Parser)
          → Decoding m p
          → (buf : Bytes) (t : ℕ)
          → Inv m
              (record p { chunk_trailer_done = true; buf = buf; state = done; trailer_bytes = t })
      finished p v buf t = record {
        limited = v.limited;
        small_body = v.small_body;
        small_buffer = λ h. cc;
        small_rest = λ h. cc;
        small_count = v.small_count;
        small_needed = λ h. cc;
        small_chunk = λ h. cc;
        not_started = λ h. cc;
      }

  chunk_end-Inv : (p : Parser) → Decoding m p → RoundInv (chunk_end p)
  unfolding chunk_end
  chunk_end-Inv p v =
      if_cases RoundInv (ltb (length p.buf) 2) (λ _. Decoding-Inv m v)
        (λ _.
          if_cases RoundInv (not (has_prefix p.buf crlf)) (λ _. fail-Inv m _ p (Decoding-Inv m v))
            (λ _. record {
              limited = v.limited;
              decoding = v.decoding;
              small_body = v.small_body;
              small_count = v.small_count;
              small_chunk = λ h. cc;
            }))

  chunk_payload-Inv :
      (p : Parser) → Decoding m p → p.chunk_started ≡ true → RoundInv (chunk_payload p)
  unfolding chunk_payload
  chunk_payload-Inv p v c =
      if_cases RoundInv (ltb 0 p.chunk_remaining)
        (λ _.
          if_cases RoundInv (is_empty p.buf) (λ _. Decoding-Inv m v)
            (λ _.
              if_cases RoundInv (ltb 0 eaten.chunk_remaining) (λ _. Decoding-Inv m kept)
                (λ _. chunk_end-Inv eaten kept)))
        (λ _. chunk_end-Inv p v)
    where
      taken : ℕ
      taken = min p.chunk_remaining (length p.buf)

      eaten : Parser
      eaten = record p {
        resp = record (p.resp) { body = p.resp.body ++ take taken p.buf };
        buf = drop taken p.buf;
        chunk_remaining = p.chunk_remaining - taken;
      }

      sum :
          length (p.resp.body ++ take taken p.buf) + (p.chunk_remaining - taken)
          ≤ p.limits.max_body_bytes
      sum = omega (
        arith,
        v.small_chunk c,
        length-append p.resp.body (take taken p.buf),
        length-take taken p.buf,
      )

      kept : Decoding m eaten
      kept = record {
        limited = v.limited;
        decoding = v.decoding;
        small_body = omega (arith, sum);
        small_count = v.small_count;
        small_chunk = λ _. sum;
      }

  chunk_size-Inv : (size : ℕ) (p : Parser) → Decoding m p → RoundInv (chunk_size size p)
  unfolding chunk_size last_chunk
  chunk_size-Inv size p v =
      if_cases RoundInv (size == 0)
        (λ _. trailer_loop-Inv (suc (length p.buf)) p.buf _ (record {
          limited = v.limited;
          decoding = v.decoding;
          small_body = v.small_body;
          small_count = v.small_count;
          small_chunk = v.small_chunk;
        }))
        (λ _.
          if_cases RoundInv over (λ _. fail-Inv m _ p (Decoding-Inv m v))
            (λ ok.
              chunk_payload-Inv (record p { chunk_remaining = size; chunk_started = true })
                (record {
                  limited = v.limited;
                  decoding = v.decoding;
                  small_body = v.small_body;
                  small_count = v.small_count;
                  small_chunk = λ _. fits ok;
                })
                refl))
    where
      over : Bool
      over =
          ltb p.limits.max_body_bytes size
          || ltb p.limits.max_body_bytes ((length p.resp.body + size) % 2 ^ 64)

      fits : over ≡ false → length p.resp.body + size ≤ p.limits.max_body_bytes
      fits ok = ground (arith, v.limited.body_fits, v.small_body)

  chunk_size_line-Inv :
      (line : Bytes) (p : Parser) → Decoding m p → RoundInv (chunk_size_line line p)
  unfolding chunk_size_line
  chunk_size_line-Inv line p v =
      let hex = size_digits line in
      let failed = λ (msg : Bytes). fail-Inv m msg p (Decoding-Inv m v) in
      if_cases RoundInv (is_empty hex) (λ _. failed _)
        (λ _.
          if_cases RoundInv (not (all_xdigits hex)) (λ _. failed _)
            (λ _.
              if_cases RoundInv (ltb 16 (length hex)) (λ _. failed _)
                (λ _. chunk_size-Inv (hex_value hex 0) p v)))

  chunk_header-Inv : (o : Option ℕ) (p : Parser) → Decoding m p → RoundInv (chunk_header o p)
  unfolding chunk_header
  chunk_header-Inv none p v =
      if_cases RoundInv (ltb p.limits.max_chunk_line_bytes (length p.buf))
        (λ _. fail-Inv m _ p (Decoding-Inv m v)) (λ _. Decoding-Inv m v)
  chunk_header-Inv (some eol) p v =
      chunk_size_line-Inv (take eol p.buf) (record p { buf = drop (eol + 2) p.buf })
        (record {
          limited = v.limited;
          decoding = v.decoding;
          small_body = v.small_body;
          small_count = v.small_count;
          small_chunk = v.small_chunk;
        })

  chunk_round-Inv : (p : Parser) → Decoding m p → RoundInv (chunk_round p)
  unfolding chunk_round
  chunk_round-Inv p v =
      if_cases RoundInv p.chunk_started (chunk_payload-Inv p v)
        (λ _. chunk_header-Inv (find? p.buf crlf) p v)

  chunk_loop-Inv : (fuel : ℕ) (p : Parser) → Decoding m p → (After m) (chunk_loop fuel p)
  unfolding chunk_loop
  chunk_loop-Inv zero p v = Decoding-Inv m v
  chunk_loop-Inv (suc fuel) p v = go (chunk_round p) (chunk_round-Inv p v) (chunk_loop-Inv fuel)
    where
      go :
          (r : Round)
          → RoundInv r
          → ((q : Parser) → Decoding m q → (After m) (chunk_loop fuel q))
          → (After m) (elim r [ stop x ↦ x | again q ↦ chunk_loop fuel q ])
      go (stop x) h more = h
      go (again q) h more = more q h

  pub body_step_chunked-Inv : (p : Parser) → Decoding m p → (After m) (body_step_chunked p)
  unfolding body_step_chunked
  body_step_chunked-Inv p v = chunk_loop-Inv (suc (length p.buf)) p v
