-- ===== src/Http/Parser/Chunks.antt =====
-- `body_step_chunked`: the chunked decoder.
use chaos_forger.Prelude.{
  ℕ, zero, suc, ◌+◌, ◌-◌, ◌%◌, ◌^◌, Bool, true, false, ◌||◌, ◌&&◌, not, [], ◌∷◌, ◌++◌, Option, none,
  some, Bytes, text, length, take, drop, find?, has_prefix, ltb, ◌==◌, is_empty, is_xdigit,
  if◌then◌else◌, min,
}
use chaos_forger.Http.Parser.Headers.{excerpt}
use chaos_forger.Http.Parser.Headers.Numbers.{hex_value}
use chaos_forger.Http.Parser.Fields.{Parser, done, fail, crlf}

-- What one pass of the outer `while (true)` does: it returns, or goes round again.
pub data Round : Type 0 where
  stop : Bool × Parser → Round
  again : Parser → Round

-- The inner loop over the trailer lines, on the buffer from `tpos` on. Each pass takes two bytes
-- at least, so that one unit of fuel for each byte, and one more, is enough.
unfoldable pub trailer_loop : ℕ → Bytes → Parser → Bool × Parser
trailer_loop zero rest p = (false, p)
trailer_loop (suc fuel) rest p = elim (find? rest crlf) [
  | none ↦
      if ltb p.limits.max_chunk_line_bytes (length p.buf)
      then fail (text "trailer section exceeds limit") p
      else (true, p)
  | some teol ↦
      let counted = record p { trailer_bytes = p.trailer_bytes + (teol + 2) } in
      let more = trailer_loop fuel (drop (teol + 2) rest) counted in
      if ltb p.limits.max_chunk_line_bytes counted.trailer_bytes
      then fail (text "trailer section exceeds limit") counted
      else if teol == 0
      then (true, record counted { chunk_trailer_done = true; buf = drop 2 rest; state = done })
      else more
]

-- The last chunk.
unfoldable pub last_chunk : Parser → Bool × Parser
last_chunk p =
    trailer_loop (suc (length p.buf)) p.buf
      (record p { chunk_trailer_done = false; trailer_bytes = 0 })

-- Behind the payload: its CRLF.
unfoldable pub chunk_end : Parser → Round
chunk_end p =
    if ltb (length p.buf) 2
    then stop (true, p)
    else if not (has_prefix p.buf crlf)
    then stop (fail (text "chunk data not terminated by CRLF") p)
    else again (record p { buf = drop 2 p.buf; chunk_started = false })

unfoldable pub chunk_payload : Parser → Round
unfolding chunk_end
chunk_payload p =
    if ltb 0 p.chunk_remaining
    then if is_empty p.buf
      then stop (true, p)
      else (let taken = min p.chunk_remaining (length p.buf) in
          let eaten = record p {
            resp = record (p.resp) { body = p.resp.body ++ take taken p.buf };
            buf = drop taken p.buf;
            chunk_remaining = p.chunk_remaining - taken;
          } in
          if ltb 0 eaten.chunk_remaining then stop (true, eaten) else chunk_end eaten)
    else chunk_end p

-- `hex`: the size line up to its first semicolon.
unfoldable pub size_digits : Bytes → Bytes
size_digits line = elim (find? line (text ";")) [ none ↦ line | some i ↦ take i line ]

unfoldable pub all_xdigits : Bytes → Bool
all_xdigits [] = true
all_xdigits (c ∷ cs) = is_xdigit c && all_xdigits cs

-- A size that was read.
unfoldable pub chunk_size : ℕ → Parser → Round
unfolding chunk_payload
chunk_size size p =
    if size == 0
    then stop (last_chunk p)
    else if ltb p.limits.max_body_bytes size
        || ltb p.limits.max_body_bytes ((length p.resp.body + size) % 2 ^ 64)
    then stop (fail (text "chunked body exceeds limit") p)
    else chunk_payload (record p { chunk_remaining = size; chunk_started = true })

-- A size line that is complete; `p` is the parser with the line taken off its buffer.
unfoldable pub chunk_size_line : Bytes → Parser → Round
unfolding chunk_size
chunk_size_line size_line p =
    let hex = size_digits size_line in
    if is_empty hex
    then stop (fail (text "empty chunk-size line") p)
    else if not (all_xdigits hex)
    then stop (fail (text "malformed chunk size: '" ++ excerpt size_line) p)
    else if ltb 16 (length hex)
    then stop (fail (text "chunk size too long: '" ++ excerpt size_line) p)
    else chunk_size (hex_value hex 0) p

unfoldable pub chunk_header : Option ℕ → Parser → Round
unfolding chunk_size_line
chunk_header none p =
    if ltb p.limits.max_chunk_line_bytes (length p.buf)
    then stop (fail (text "chunk-size line exceeds limit") p)
    else stop (true, p)
chunk_header (some eol) p =
    chunk_size_line (take eol p.buf) (record p { buf = drop (eol + 2) p.buf })

unfoldable pub chunk_round : Parser → Round
unfolding chunk_header chunk_payload
chunk_round p = if p.chunk_started then chunk_payload p else chunk_header (find? p.buf crlf) p

-- The outer loop.
unfoldable pub chunk_loop : ℕ → Parser → Bool × Parser
chunk_loop zero p = (false, p)
chunk_loop (suc fuel) p = elim (chunk_round p) [ stop r ↦ r | again q ↦ chunk_loop fuel q ]

unfoldable pub body_step_chunked : Parser → Bool × Parser
body_step_chunked p = chunk_loop (suc (length p.buf)) p
