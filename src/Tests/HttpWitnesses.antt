-- ===== src/Tests/HttpWitnesses.antt =====
-- The theorems about the HTTP parser, at concrete inputs.
use chaos_forger.Prelude.{
  ◌≤◌, ◌≡◌, ◌↔◌, refl, ap, true, false, List, [], ◌∷◌, ◌++◌, Option, none, some, Bytes, text,
  length, find?, has_prefix, arith,
}
use chaos_forger.Http.Parser.Fields.{
  Parser, State, body_chunked, make, default_limits, unframed, chunked, is_error, crlf, blank_line,
}
use chaos_forger.Http.Parser.Headers.{parse_headers, header_lines, lines}
use chaos_forger.Http.Parser.Chunks.{body_step_chunked}
use chaos_forger.Http.Parser.{feed}
use chaos_forger.Http.Parser.Bounds.{feeds, feeds_body_bound}
use chaos_forger.Http.Parser.FeedVerdict.{feed-eq-false_iff}
use chaos_forger.Http.Parser.Progress.{Decodes, body_step_chunked-Decodes}
use chaos_forger.Http.Parser.Defects.{
  BetweenChunks, last_line, last_chunk_split, parse_headers_reads_body,
}

abbrev response : Bytes
response = text "HTTP/1.1 200 OK\r\nContent-Length: 2\r\n\r\nhi"

abbrev inputs : List (Option Bytes)
inputs = some response ∷ none ∷ []

feeds_body_bound_example :
    length (feeds inputs (make true default_limits)).resp.body ≤ default_limits.max_body_bytes
feeds_body_bound_example = feeds_body_bound true default_limits inputs (omega arith) (omega arith)

feed-eq-false_iff_example :
    ((feed (some response) (make true default_limits)).0 ≡ false)
    ↔ ((feed (some response) (make true default_limits)).1.state ≡ State.error)
feed-eq-false_iff_example = feed-eq-false_iff (some response) (make true default_limits)

-- A parser in the middle of a chunked body, with these bytes buffered.
abbrev decoding : Bytes → Parser
decoding bytes = record (make true default_limits) {
  state = body_chunked;
  framing = chunked;
  buf = bytes;
}

body_step_chunked-Decodes_example :
    Decodes
      (decoding (text "2\r\nhi\r\n0\r\n\r\n"))
      (body_step_chunked (decoding (text "2\r\nhi\r\n0\r\n\r\n")))
body_step_chunked-Decodes_example =
    body_step_chunked-Decodes (decoding (text "2\r\nhi\r\n0\r\n\r\n")) (λ e. cc (ap is_error e))

between_chunks : BetweenChunks (decoding [])
between_chunks = record {
  decoding = refl;
  idle = refl;
  drained = refl;
  room_for_line = omega arith;
}

last_chunk_split_example :
    ((feed (some (last_line ++ crlf)) (decoding [])).1.state ≡ State.done)
    × ((feed (some crlf) (feed (some last_line) (decoding [])).1).1.state ≡ State.error)
last_chunk_split_example = last_chunk_split (decoding []) between_chunks

abbrev status_only : Bytes
status_only = b'O' ∷ b'K' ∷ []

abbrev bare : Parser
bare = record (make true default_limits) { buf = status_only ++ (blank_line ++ b'x' ∷ b':' ∷ []) }

line_end : find? bare.buf crlf ≡ some 2
unfolding find? has_prefix
line_end = refl

parse_headers_reads_body_example :
    parse_headers 2 bare
    ≡ header_lines (lines 4 (crlf ++ b'x' ∷ b':' ∷ [])) (record bare { framing = unframed })
parse_headers_reads_body_example =
    parse_headers_reads_body status_only (b'x' ∷ b':' ∷ []) bare refl line_end (omega arith)
