-- ===== src/Http/Parser/Progress.antt =====
-- The chunk decoder makes progress on every pass, so that its loop ends by itself.
use chaos_forger.Prelude.{
  ℕ, zero, suc, ◌+◌, ◌-◌, ◌≤◌, ◌<◌, ◌^◌, ◌%◌, ◌≢◌, ◌⊎◌, ◌≡◌, refl, Bool, true, false, not, ◌||◌,
  ◌++◌, Option, none, some, inl, inr, Bytes, length, take, drop, length-drop, find?, find?-fits,
  has_prefix, ltb, ◌==◌, is_empty, if_cases, Option-cases, arith, min,
}
use chaos_forger.Http.Parser.Fields.{State, done, error, is_error, Parser, crlf}
use chaos_forger.Http.Parser.Headers.Numbers.{hex_value}
use chaos_forger.Http.Parser.Chunks.{
  Round, stop, again, trailer_loop, last_chunk, chunk_end, chunk_payload, size_digits, all_xdigits,
  chunk_size, chunk_size_line, chunk_header, chunk_round, chunk_loop, body_step_chunked,
}
use chaos_forger.Http.Parser.Verdict.{Live, Agrees, accept, fail-Agrees}

-- A pass of the chunk decoder that goes round again has taken bytes off the buffer.
abbrev Progress : Parser → Round → Type 0
Progress p (stop r) = Agrees r
Progress p (again q) = Live q × (length q.buf < length p.buf)

trailer_loop-Agrees :
    (fuel : ℕ) (rest : Bytes) (p : Parser)
    → Live p
    → length rest < fuel
    → Agrees (trailer_loop fuel rest p)
unfolding trailer_loop
trailer_loop-Agrees zero rest p l h = absurd (omega arith)
trailer_loop-Agrees (suc fuel) rest p l h = elim (Option-cases (find? rest crlf)) [
  | inl missing ↦
      rw (missing, trailer_loop)
        (if_cases Agrees (ltb p.limits.max_chunk_line_bytes (length p.buf)) (λ _. fail-Agrees _ p)
          (λ _. accept p l))
  | inr (teol, found) ↦
      let counted = record p { trailer_bytes = p.trailer_bytes + (teol + 2) } in
      let rest' = drop (teol + 2) rest in
      let shorter : length rest' < fuel =
        omega (arith, find?-fits rest crlf teol found, length-drop (teol + 2) rest) in
      rw (found, trailer_loop)
        (if_cases Agrees (ltb p.limits.max_chunk_line_bytes counted.trailer_bytes)
          (λ _. fail-Agrees _ counted)
          (λ _.
            if_cases Agrees (teol == 0)
              (λ _.
                accept
                  (record counted { chunk_trailer_done = true; buf = drop 2 rest; state = done })
                  refl)
              (λ _. trailer_loop-Agrees fuel rest' counted l shorter)))
]

last_chunk-Agrees : (p : Parser) → Live p → Agrees (last_chunk p)
unfolding last_chunk
last_chunk-Agrees p l = trailer_loop-Agrees (suc (length p.buf)) p.buf _ l (omega arith)

chunk_end-Progress : (p : Parser) → Live p → Progress p (chunk_end p)
unfolding chunk_end
chunk_end-Progress p l =
    if_cases (Progress p) (ltb (length p.buf) 2) (λ _. accept p l)
      (λ enough.
        if_cases (Progress p) (not (has_prefix p.buf crlf)) (λ _. fail-Agrees _ p)
          (λ _. (l, omega (arith, length-drop 2 p.buf, two enough))))
  where
    two : ltb (length p.buf) 2 ≡ false → 2 ≤ length p.buf
    two e = ground arith

Progress-shorter :
    (p q : Parser) (r : Round) → length q.buf ≤ length p.buf → Progress q r → Progress p r
Progress-shorter p q (stop r) le h = h
Progress-shorter p q (again s) le (l, lt) = (l, omega arith)

chunk_payload-Progress : (p : Parser) → Live p → Progress p (chunk_payload p)
unfolding chunk_payload
chunk_payload-Progress p l =
    if_cases (Progress p) (ltb 0 p.chunk_remaining)
      (λ _.
        if_cases (Progress p) (is_empty p.buf) (λ _. accept p l)
          (λ _.
            if_cases (Progress p) (ltb 0 eaten.chunk_remaining) (λ _. accept eaten l)
              (λ _.
                Progress-shorter p eaten _ (omega (arith, length-drop taken p.buf))
                  (chunk_end-Progress eaten l))))
      (λ _. chunk_end-Progress p l)
  where
    taken : ℕ
    taken = min p.chunk_remaining (length p.buf)

    eaten : Parser
    eaten = record p {
      resp = record (p.resp) { body = p.resp.body ++ take taken p.buf };
      buf = drop taken p.buf;
      chunk_remaining = p.chunk_remaining - taken;
    }

chunk_size-Progress : (size : ℕ) (p : Parser) → Live p → Progress p (chunk_size size p)
unfolding chunk_size
chunk_size-Progress size p l =
    if_cases (Progress p) (size == 0) (λ _. last_chunk-Agrees p l)
      (λ _.
        if_cases (Progress p)
          (ltb p.limits.max_body_bytes size
            || ltb p.limits.max_body_bytes ((length p.resp.body + size) % 2 ^ 64))
          (λ _. fail-Agrees _ p)
          (λ _.
            chunk_payload-Progress (record p { chunk_remaining = size; chunk_started = true }) l))

chunk_size_line-Progress :
    (line : Bytes) (p : Parser) → Live p → Progress p (chunk_size_line line p)
unfolding chunk_size_line
chunk_size_line-Progress line p l =
    let hex = size_digits line in
    if_cases (Progress p) (is_empty hex) (λ _. fail-Agrees _ p)
      (λ _.
        if_cases (Progress p) (not (all_xdigits hex)) (λ _. fail-Agrees _ p)
          (λ _.
            if_cases (Progress p) (ltb 16 (length hex)) (λ _. fail-Agrees _ p)
              (λ _. chunk_size-Progress (hex_value hex 0) p l)))

chunk_header-Progress : (o : Option ℕ) (p : Parser) → Live p → Progress p (chunk_header o p)
unfolding chunk_header
chunk_header-Progress none p l =
    if_cases (Progress p) (ltb p.limits.max_chunk_line_bytes (length p.buf)) (λ _. fail-Agrees _ p)
      (λ _. accept p l)
chunk_header-Progress (some eol) p l =
    let rest = record p { buf = drop (eol + 2) p.buf } in
    Progress-shorter p rest _ (omega (arith, length-drop (eol + 2) p.buf))
      (chunk_size_line-Progress (take eol p.buf) rest l)

chunk_round-Progress : (p : Parser) → Live p → Progress p (chunk_round p)
unfolding chunk_round
chunk_round-Progress p l =
    if_cases (Progress p) p.chunk_started (λ _. chunk_payload-Progress p l)
      (λ _. chunk_header-Progress (find? p.buf crlf) p l)

-- The run of the decoder's outer loop, pass by pass, without a bound on their number.
pub data Decodes : Parser → Bool × Parser → Type 0 where
  returns : {p : Parser} {r : Bool × Parser} → chunk_round p ≡ stop r → Decodes p r
  goes_on : {p q : Parser} {r : Bool × Parser} → chunk_round p ≡ again q → Decodes q r → Decodes p r

Round-cases : (r : Round) → ((x : Bool × Parser) × (r ≡ stop x)) ⊎ ((q : Parser) × (r ≡ again q))
Round-cases (stop x) = inl (x, refl)
Round-cases (again q) = inr (q, refl)

chunk_loop-Decodes :
    (fuel : ℕ) (p : Parser)
    → Live p
    → length p.buf < fuel
    → Decodes p (chunk_loop fuel p) × Agrees (chunk_loop fuel p)
unfolding chunk_loop
chunk_loop-Decodes zero p l h = absurd (omega arith)
chunk_loop-Decodes (suc fuel) p l h = elim (Round-cases (chunk_round p)) [
  | inl (x, e) ↦ rw (e, chunk_loop) (returns e, rw e at (chunk_round-Progress p l))
  | inr (q, e) ↦
      let (l', lt) = rw e at (chunk_round-Progress p l) in
      let (run, agrees) = chunk_loop-Decodes fuel q l' (omega arith) in
      rw (e, chunk_loop) (goes_on e run, agrees)
]

-- The `while (true)` of the chunk decoder ends on every parser that has not failed: the model on
-- fuel, `body_step_chunked`, is the run of its passes.
pub body_step_chunked-Decodes : (p : Parser) → p.state ≢ error → Decodes p (body_step_chunked p)
unfolding body_step_chunked
body_step_chunked-Decodes p h =
    (chunk_loop-Decodes (suc (length p.buf)) p (live_of p.state h) (omega arith)).0
  where
    live_of : (s : State) → s ≢ error → is_error s ≡ false
    live_of error h = absurd (h refl)
    live_of _ h = refl

pub body_step_chunked-Agrees : (p : Parser) → Live p → Agrees (body_step_chunked p)
unfolding body_step_chunked
body_step_chunked-Agrees p l = (chunk_loop-Decodes (suc (length p.buf)) p l (omega arith)).1
