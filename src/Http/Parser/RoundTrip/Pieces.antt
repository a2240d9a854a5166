-- ===== src/Http/Parser/RoundTrip/Pieces.antt =====
-- A parser that is fed a well-formed response in pieces.
use chaos_forger.Prelude.{
  ℕ, ◌+◌, ◌≤◌, ◌<◌, ◌^◌, ◌≡◌, refl, sym, ap, subst, ◌∙◌, Bool, true, false, List, [], ◌∷◌, ◌++◌,
  map, append_assoc, some, Bytes, length, length-append, drop-append_add, All, ltb, Bool-cases, inl,
  inr, arith,
}
use chaos_forger.Http.Parser.Fields.{
  State, body_content_length, body_chunked, Parser, HttpResponse, Limits, make, blank_line,
}
use chaos_forger.Http.Parser.{
  step_body, enter_body, step_headers, step, feed_bytes, feed_live, feed,
}
use chaos_forger.Http.Parser.Headers.{parse_headers}
use chaos_forger.Http.Parser.Bounds.{feeds}
use chaos_forger.Http.Parser.RoundTrip.Blank.{find?_blank, find?-none, append-split}
use chaos_forger.Http.Parser.RoundTrip.Written.{
  Content, plain, in_chunks, body_of, sent_as, Response, head, wire, WellFormed,
  field_lines-AllLines, status_text-IsLine,
}
use chaos_forger.Http.Parser.RoundTrip.Cuts.{concat, LongEnd, LongEnd-later, Holds}
use chaos_forger.Http.Parser.RoundTrip.Chunked.{Chunk, IsChunk, idle}
use chaos_forger.Http.Parser.RoundTrip.Plain
use chaos_forger.Http.Parser.RoundTrip.Chunkwise
use chaos_forger.Http.Parser.RoundTrip.Heads.{
  framed, greeted, parse_status_line-wire, parse_headers-wire,
}

abbrev pub chunks_in : Content → List Chunk
chunks_in (plain body) = []
chunks_in (in_chunks cs) = cs

-- Where a chunked response may be cut: its last piece is no shorter than three bytes.
abbrev pub Cut : Content → List Bytes → Type 0
Cut (plain body) pieces = Unit
Cut (in_chunks cs) pieces = LongEnd pieces

Cut-later : (c : Content) (piece : Bytes) (more : List Bytes) → Cut c (piece ∷ more) → Cut c more
Cut-later (plain body) piece more h = tt
Cut-later (in_chunks cs) piece more h = LongEnd-later piece more h

module _ (allow : Bool) (limits : Limits) (r : Response) where
  -- Before the end of the header block.
  abbrev waiting : Bytes → Parser
  waiting seen = record (make allow limits) { buf = seen }

  -- Behind it, with a part of what follows.
  abbrev start : Content → State
  start (plain body) = body_content_length
  start (in_chunks cs) = body_chunked

  abbrev entered : Content → Bytes → Parser
  entered c seen = record (framed c (greeted r (make allow limits))) { buf = seen; state = start c }

  abbrev pub answer : HttpResponse
  answer = record { status = r.status; status_text = r.reason; body = body_of r.content }

  -- The room that the limits give, for pieces of at most `k` bytes.
  pub record Room (k : ℕ) : Type 0 where
    pub head_fits : length (head r) + 3 + k ≤ limits.max_header_bytes
    pub small_head : limits.max_header_bytes < 2 ^ 64
    pub body_fits : length (body_of r.content) ≤ limits.max_body_bytes
    pub small_body : limits.max_body_bytes < 2 ^ 64
    pub line_room : 2 ≤ limits.max_chunk_line_bytes
    pub chunks : All (IsChunk limits.max_chunk_line_bytes) (chunks_in r.content)

  heads :
      (c : Content) (seen : Bytes)
      → r.content ≡ c
      → WellFormed r
      → length (head r) < 2 ^ 64
      → length (body_of r.content) ≤ limits.max_body_bytes
      → parse_headers (length (head r)) (greeted r (waiting (head r ++ (blank_line ++ seen))))
        ≡ (true, framed c (greeted r (waiting (head r ++ (blank_line ++ seen)))))
  heads c seen same w small le =
      let p = greeted r (waiting (head r ++ (blank_line ++ seen))) in
      parse_headers-wire r seen p w refl small le ∙ ap (λ d. (true, framed d p)) same

  step-head :
      (c : Content) (seen : Bytes)
      → r.content ≡ c
      → WellFormed r
      → length (head r) < 2 ^ 64
      → length (body_of r.content) ≤ limits.max_body_bytes
      → step (waiting (head r ++ (blank_line ++ seen))) ≡ step_body (start c) (entered c seen)
  unfolding step step_headers enter_body
  step-head (plain body) seen same w small le =
      rw
        (
          find?_blank _ _ seen (status_text-IsLine r w) (field_lines-AllLines r w),
          step_headers,
          parse_status_line-wire r seen (waiting (head r ++ (blank_line ++ seen))) w refl,
          heads (plain body) seen same w small le,
          drop-append_add (head r) (blank_line ++ seen) 4,
        )
        refl
  step-head (in_chunks cs) seen same w small le =
      rw
        (
          find?_blank _ _ seen (status_text-IsLine r w) (field_lines-AllLines r w),
          step_headers,
          parse_status_line-wire r seen (waiting (head r ++ (blank_line ++ seen))) w refl,
          heads (in_chunks cs) seen same w small le,
          drop-append_add (head r) (blank_line ++ seen) 4,
        )
        refl

  -- Behind the header block.
  receives :
      (c : Content) (pieces : List Bytes) (seen : Bytes)
      → length (body_of c) ≤ limits.max_body_bytes
      → limits.max_body_bytes < 2 ^ 64
      → 2 ≤ limits.max_chunk_line_bytes
      → All (IsChunk limits.max_chunk_line_bytes) (chunks_in c)
      → Cut c pieces
      → seen ++ concat pieces ≡ sent_as c
      → Holds
          (record { status = r.status; status_text = r.reason; body = body_of c })
          (feeds (map some pieces) (step_body (start c) (entered c seen)).1)
  unfolding step_body
  receives (plain body) pieces seen le small room ok long e =
      rw (Plain.receives (greeted r (make allow limits)) body pieces seen e)
        (record { ended = refl; answered = refl })
  receives (in_chunks cs) pieces seen le small room ok long e =
      rw
        (Chunkwise.receives (framed (in_chunks cs) (greeted r (make allow limits))) pieces []
          (idle cs) seen long ok
          (record { body_fits = omega (arith, le); small = small; line_room = room }) e)
        (record { ended = refl; answered = refl })

  feed-waiting :
      (seen piece : Bytes)
      → ltb limits.max_header_bytes (length (seen ++ piece)) ≡ false
      → feed (some piece) (waiting seen) ≡ step (waiting (seen ++ piece))
  unfolding feed feed_live feed_bytes
  feed-waiting seen piece h = rw h refl

  -- No blank line yet.
  step-early :
      (seen later : Bytes)
      → WellFormed r
      → seen ++ later ≡ wire r
      → length seen < length (head r) + 4
      → step (waiting seen) ≡ (true, waiting seen)
  unfolding step step_headers
  step-early seen later w e early =
      rw
        (
          find?-none seen later _ _ (sent_as r.content) (status_text-IsLine r w)
              (field_lines-AllLines r w) e early,
          step_headers,
        )
        refl

  -- The piece that holds the end of the header block.
  enters :
      (k : ℕ) (more : List Bytes) (seen : Bytes)
      → WellFormed r
      → Room k
      → Cut r.content more
      → seen ++ concat more ≡ wire r
      → length (head r) + 4 ≤ length seen
      → Holds answer (feeds (map some more) (step (waiting seen)).1)
  enters k more seen w room long e late =
      let (m, one, two) =
        append-split (head r ++ blank_line) (sent_as r.content) seen (concat more)
          (e ∙ sym (append_assoc (head r) blank_line (sent_as r.content)))
          (omega (arith, length-append (head r) blank_line, late)) in
      let here : seen ≡ head r ++ (blank_line ++ m) = one ∙ append_assoc (head r) blank_line m in
      let small : length (head r) < 2 ^ 64 = omega (arith, room.head_fits, room.small_head) in
      rw (here, step-head r.content m refl w small room.body_fits)
        (receives r.content more m room.body_fits room.small_body room.line_room room.chunks long
          two)

  arrives :
      (k : ℕ) (pieces : List Bytes) (seen : Bytes)
      → WellFormed r
      → Room k
      → All (λ piece. length piece ≤ k) pieces
      → Cut r.content pieces
      → seen ++ concat pieces ≡ wire r
      → length seen < length (head r) + 4
      → Holds answer (feeds (map some pieces) (waiting seen))
  unfolding feeds
  arrives k [] seen w room short long e early = absurd (
      omega (
        arith,
        ap length e,
        length-append seen [],
        length-append (head r) (blank_line ++ sent_as r.content),
      ))
  arrives k (piece ∷ more) seen w room short long e early =
      let grown : (seen ++ piece) ++ concat more ≡ wire r =
        append_assoc seen piece (concat more) ∙ e in
      let allowed : ltb limits.max_header_bytes (length (seen ++ piece)) ≡ false =
        ground (arith, length-append seen piece, short.0, room.head_fits) in
      let later = Cut-later r.content piece more long in
      subst (λ x. Holds answer (feeds (map some more) x.1)) (sym (feed-waiting seen piece allowed))
        (elim (Bool-cases (ltb (length (seen ++ piece)) (length (head r) + 4))) [
          | inl before ↦
              subst (λ x. Holds answer (feeds (map some more) x.1))
                (sym (step-early (seen ++ piece) (concat more) w grown (ground arith)))
                (arrives k more (seen ++ piece) w room short.1 later grown (ground arith))
          | inr behind ↦ enters k more (seen ++ piece) w room later grown (ground arith)
        ])

  -- A well-formed response that is framed by its length or in chunks is read as it was written,
  -- however its bytes are cut into pieces: the parser is done, and has the code, the reason and the
  -- body. Conditions: the header block with a piece (of at most `k` bytes) is within
  -- `max_header_bytes`, the body within `max_body_bytes`, both 64-bit numbers, each size line
  -- within `max_chunk_line_bytes`; and the last piece of a chunked response has three bytes at least.
  pub feeds-wire :
      (k : ℕ) (pieces : List Bytes)
      → WellFormed r
      → Room k
      → All (λ piece. length piece ≤ k) pieces
      → Cut r.content pieces
      → concat pieces ≡ wire r
      → Holds answer (feeds (map some pieces) (make allow limits))
  feeds-wire k pieces w room short long e = arrives k pieces [] w room short long e (omega arith)
