-- ===== src/Http/Parser/Defects.antt =====
-- Two classes of well-formed responses that the parser does not read as HTTP means them.
use chaos_forger.Prelude.{
  ◌+◌, ◌-◌, ◌≤◌, ◌<◌, ◌^◌, ◌%◌, ◌≡◌, ap, false, [], ◌∷◌, ◌++◌, some, Bytes, text, length, find?,
  has_prefix, ltb, arith, take_all, drop-append_add, take-append,
}
use chaos_forger.Http.Parser.Fields.{
  body_chunked, done, error, Parser, fail, crlf, blank_line, unframed,
}
use chaos_forger.Http.Parser.Headers.{header_block, first_line, lines, header_lines, parse_headers}
use chaos_forger.Http.Parser.Chunks.{
  trailer_loop, last_chunk, size_digits, all_xdigits, chunk_round, chunk_loop, body_step_chunked,
}
use chaos_forger.Http.Parser.Headers.Numbers.{hex_value}
use chaos_forger.Http.Parser.{step, step_body, feed}

-- The decoder between two chunks, with nothing buffered.
pub record BetweenChunks (p : Parser) : Type 0 where
  pub decoding : p.state ≡ body_chunked
  pub idle : p.chunk_started ≡ false
  pub drained : p.buf ≡ []
  pub room_for_line : 2 ≤ p.limits.max_chunk_line_bytes

abbrev pub last_line : Bytes
last_line = b'0' ∷ crlf

abbrev between : Parser → Parser
between p = record p { state = body_chunked; chunk_started = false; buf = [] }

between-eq : (p : Parser) → BetweenChunks p → between p ≡ p
between-eq p b = ground (arith, b.decoding, b.idle, b.drained)

one_read :
    (p : Parser)
    → ltb p.limits.max_chunk_line_bytes 2 ≡ false
    → (feed (some (last_line ++ crlf)) (between p)).1.state ≡ done
unfolding feed step step_body body_step_chunked chunk_loop chunk_round hex_value all_xdigits
    size_digits last_chunk trailer_loop find? has_prefix text
one_read p h = simp h

two_reads :
    (p : Parser)
    → ltb p.limits.max_chunk_line_bytes 0 ≡ false
    → (feed (some crlf) (feed (some last_line) (between p)).1).1.state ≡ error
unfolding feed step step_body body_step_chunked chunk_loop chunk_round hex_value all_xdigits
    size_digits last_chunk trailer_loop find? has_prefix text fail
two_reads p h = simp h

-- Between two chunks, the last chunk "0\r\n\r\n" ends the body if it comes in one read; if its blank
-- line comes in a second read, the parser fails.
pub last_chunk_split :
    (p : Parser)
    → BetweenChunks p
    → ((feed (some (last_line ++ crlf)) p).1.state ≡ done)
      × ((feed (some crlf) (feed (some last_line) p).1).1.state ≡ error)
last_chunk_split p b =
    let e = between-eq p b in
    (
      rw e at (one_read p (ground (arith, b.room_for_line))),
      rw e at (two_reads p (ground (arith, b.room_for_line))),
    )

first_line-eq :
    (line rest : Bytes)
    → find? (line ++ rest) crlf ≡ some (length line)
    → first_line (line ++ rest) ≡ line
unfolding first_line
first_line-eq line rest h = rw (h, first_line) (take-append line rest)

header_block-eq :
    (line body : Bytes)
    → find? (line ++ (blank_line ++ body)) crlf ≡ some (length line)
    → length body + 4 < 2 ^ 64
    → header_block (length line) (line ++ (blank_line ++ body)) ≡ crlf ++ body
unfolding header_block
header_block-eq line body h small =
    let count : (length line + 2 ^ 64 - (length line + 2)) % 2 ^ 64 ≡ 2 ^ 64 - 2 = omega arith in
    rw
      (
        first_line-eq line (blank_line ++ body) h,
        count,
        drop-append_add line (blank_line ++ body) 2,
      )
      (take_all (2 ^ 64 - 2) (crlf ++ body) (omega arith))

-- A response with no header field: the blank line follows the status line at once. The bytes that
-- the parser reads as header fields are then the whole body behind the blank line, not none.
pub parse_headers_reads_body :
    (line body : Bytes) (p : Parser)
    → p.buf ≡ line ++ (blank_line ++ body)
    → find? p.buf crlf ≡ some (length line)
    → length body + 4 < 2 ^ 64
    → parse_headers (length line) p
      ≡ header_lines
          (lines (length (crlf ++ body)) (crlf ++ body))
          (record p { framing = unframed })
unfolding parse_headers
parse_headers_reads_body line body p split h small =
    let block : header_block (length line) p.buf ≡ crlf ++ body =
      rw split (header_block-eq line body (rw split at h) small) in
    ap (λ b. header_lines (lines (length b) b) (record p { framing = unframed })) block
