-- ===== src/Http/Parser/RoundTrip/Decoder.antt =====
-- The passes of the chunk decoder over a chunked body of which a part has come.
use chaos_forger.Prelude.{
  ◌+◌, ◌≤◌, ◌<◌, ◌^◌, ◌%◌, ◌≡◌, refl, ◌∙◌, Bool, true, false, List, [], ◌∷◌, ◌++◌, append-nil,
  Bytes, text, length, length-append, take-append, drop-append, drop-append_add, is_empty, drop_all,
  min, ◌-◌, ◌==◌, ltb, arith, has_prefix, find?, take_all,
}
use chaos_forger.Http.Parser.Fields.{Parser, crlf}
use chaos_forger.Http.Parser.Headers.Numbers.{hex_value}
use chaos_forger.Http.Parser.Chunks.{
  stop, again, trailer_loop, last_chunk, chunk_end, chunk_payload, size_digits, all_xdigits,
  chunk_size, chunk_size_line, chunk_header, chunk_round,
}
use chaos_forger.Http.Parser.Progress.{Decodes, returns, goes_on}
use chaos_forger.Http.Parser.RoundTrip.Blank.{find?_line}
use chaos_forger.Http.Parser.RoundTrip.Chunked.{
  Chunk, size_line, IsChunk, last_chunk_text, idle, inside, decoding, decoded, size_line-NoBreak,
  size_digits-size_line,
}

-- A run is that of its first pass.
pub Decodes-same :
    {p q : Parser} {r : Bool × Parser} → chunk_round p ≡ chunk_round q → Decodes q r → Decodes p r
Decodes-same e (returns h) = returns (e ∙ h)
Decodes-same e (goes_on h d) = goes_on (e ∙ h) d

length-filled : (bs : Bytes) → is_empty bs ≡ false → 0 < length bs
length-filled [] h = absurd (ground arith)
length-filled (b ∷ bs) h = omega arith

module _ (base : Parser) where
  pub payload-whole :
      (body rest buf : Bytes) (cs : List Chunk)
      → chunk_payload (decoding base body (inside rest cs) (rest ++ buf))
        ≡ chunk_end (decoding base (body ++ rest) (inside [] cs) buf)
  unfolding chunk_payload
  payload-whole body [] buf cs = rw (append-nil body) refl
  payload-whole body (r ∷ rs) buf cs =
      let rest = r ∷ rs in
      let some_left : ltb 0 (length rest) ≡ true = ground arith in
      let taken : min (length rest) (length (rest ++ buf)) ≡ length rest =
        omega (arith, length-append rest buf) in
      let none_left : length rest - length rest ≡ 0 = omega arith in
      rw (chunk_payload, some_left, taken, none_left, drop-append rest buf, take-append rest buf)
        refl

  pub payload-part :
      (body buf rest : Bytes) (cs : List Chunk)
      → is_empty rest ≡ false
      → chunk_payload (decoding base body (inside (buf ++ rest) cs) buf)
        ≡ stop (true, decoding base (body ++ buf) (inside rest cs) [])
  unfolding chunk_payload
  payload-part body [] [] cs h = absurd (ground arith)
  payload-part body [] (r ∷ rs) cs h =
      let some_left : ltb 0 (length (r ∷ rs)) ≡ true = ground arith in
      rw (chunk_payload, some_left, append-nil body) refl
  payload-part body (b ∷ bs) rest cs h =
      let buf = b ∷ bs in
      let filled : 0 < length rest = length-filled rest h in
      let all_left : ltb 0 (length (buf ++ rest)) ≡ true = ground arith in
      let taken : min (length (buf ++ rest)) (length buf) ≡ length buf =
        omega (arith, length-append buf rest) in
      let kept : length (buf ++ rest) - length buf ≡ length rest =
        omega (arith, length-append buf rest) in
      let some_left : ltb 0 (length rest) ≡ true = ground arith in
      rw
        (
          chunk_payload,
          all_left,
          taken,
          kept,
          some_left,
          drop_all buf,
          take_all (length buf) buf (omega arith),
        )
        refl

  pub end-partial :
      (body buf : Bytes) (cs : List Chunk)
      → length buf < 2
      → chunk_end (decoding base body (inside [] cs) buf)
        ≡ stop (true, decoding base body (inside [] cs) buf)
  unfolding chunk_end
  end-partial body buf cs h =
      let less : ltb (length buf) 2 ≡ true = ground arith in rw (less, chunk_end) refl

  pub end-whole :
      (body buf : Bytes) (cs : List Chunk)
      → chunk_end (decoding base body (inside [] cs) (crlf ++ buf))
        ≡ again (decoding base body (idle cs) buf)
  unfolding chunk_end has_prefix
  end-whole body buf cs =
      let enough : ltb (length (crlf ++ buf)) 2 ≡ false = ground arith in
      rw (chunk_end, enough) refl

  pub last-whole :
      (body : Bytes)
      → 2 ≤ base.limits.max_chunk_line_bytes
      → chunk_round (decoding base body (idle []) last_chunk_text) ≡ stop (true, decoded base body)
  unfolding chunk_round chunk_header chunk_size_line hex_value all_xdigits size_digits chunk_size
      last_chunk trailer_loop find? has_prefix text
  last-whole body h =
      let allowed : ltb base.limits.max_chunk_line_bytes 2 ≡ false = ground arith in simp allowed

  pub line-read :
      (body buf : Bytes) (c : Chunk) (cs : List Chunk)
      → IsChunk base.limits.max_chunk_line_bytes c
      → length body + length c.bytes ≤ base.limits.max_body_bytes
      → base.limits.max_body_bytes < 2 ^ 64
      → chunk_round (decoding base body (idle (c ∷ cs)) (size_line c ++ (crlf ++ buf)))
        ≡ chunk_payload (decoding base body (inside c.bytes cs) buf)
  unfolding chunk_round chunk_header chunk_size_line chunk_size
  line-read body buf c cs ok fits small =
      let max_line = base.limits.max_chunk_line_bytes in
      let eol = find?_line (size_line c) buf (size_line-NoBreak max_line c ok) in
      let short : ltb 16 (length c.digits) ≡ false = ground (arith, ok.in_word) in
      let some_bytes : (length c.bytes == 0) ≡ false =
        ground (arith, length-filled c.bytes ok.filled) in
      let one : ltb base.limits.max_body_bytes (length c.bytes) ≡ false = ground arith in
      let two : ltb base.limits.max_body_bytes ((length body + length c.bytes) % 2 ^ 64) ≡ false =
        ground arith in
      rw
        (
          chunk_round,
          eol,
          chunk_header,
          take-append (size_line c) (crlf ++ buf),
          drop-append_add (size_line c) (crlf ++ buf) 2,
          chunk_size_line,
          size_digits-size_line max_line c ok,
          ok.written,
          ok.all_hex,
          short,
          ok.sized,
          chunk_size,
          some_bytes,
          one,
          two,
        )
        refl
