-- ===== src/Http/Parser.antt =====
-- `HttpResponseParser`: its state, and the public operation `feed`. A member function that returns
-- `bool` returns it with the parser changed.
pub mod Fields
pub mod Headers
pub mod Chunks
pub mod Verdict
pub mod Progress
pub mod FeedVerdict
pub mod Invariant
pub mod ChunkBounds
pub mod HeadBounds
pub mod BodyBounds
pub mod Bounds
pub mod Defects
pub mod RoundTrip
use chaos_forger.Prelude.{
  ℕ, ◌+◌, Bool, true, false, ◌||◌, ◌&&◌, [], ◌++◌, Option, none, some, Bytes, text, length, take,
  drop, find?, ltb, is_empty, if◌then◌else◌, to_string,
}
use Fields.{
  State, status_line, headers, body_content_length, body_chunked, body_eof, done, error, Framing,
  unframed, by_content_length, chunked, eof, is_done, is_error, in_headers, in_body_eof, Parser,
  fail, crlf, blank_line,
}
use Headers.{parse_status_line, parse_headers}
use Chunks.{body_step_chunked}

unfoldable pub body_step_content_length : Parser → Bool × Parser
body_step_content_length p =
    let needed = p.content_length in
    if ltb (length p.buf) needed
    then (true, p)
    else (let taken = record p {
      resp = record (p.resp) { body = take needed p.buf };
      buf = drop needed p.buf;
    } in
        if is_empty taken.buf
        then (true, record taken { state = done })
        else fail
            (text "unexpected extra bytes after Content-Length body ("
              ++ (to_string (length taken.buf) ++ text ")"))
            taken)

-- The cases of `step` behind the header block. The first two are not reached from it: the framing
-- has set a body state.
unfoldable pub step_body : State → Parser → Bool × Parser
step_body status_line p = (true, p)
step_body headers p = (true, p)
step_body body_content_length p = body_step_content_length p
step_body body_chunked p = body_step_chunked p
step_body body_eof p = (true, p)
step_body done p = (true, p)
step_body error p = (false, p)

-- The switch over the framing, and the recursive call of `step`.
unfoldable pub enter_body : Framing → Parser → Bool × Parser
unfolding step_body
enter_body by_content_length p =
    step_body body_content_length (record p { state = body_content_length })
enter_body chunked p = step_body body_chunked (record p { state = body_chunked })
enter_body _ p =
    if p.allow_eof_termination
    then step_body body_eof (record p { state = body_eof })
    else fail (text "response has neither Content-Length nor chunked framing") p

-- The case of the header block, with the position at which it ends.
unfoldable pub step_headers : Option ℕ → Parser → Bool × Parser
unfolding enter_body
step_headers none p = (true, p)
step_headers (some header_end) p =
    let status = parse_status_line p in
    let parsed = parse_headers header_end status.1 in
    let entered = record (parsed.1) { buf = drop (header_end + 4) parsed.1.buf } in
    if status.0
    then if parsed.0 then enter_body entered.framing entered else (false, parsed.1)
    else (false, status.1)

unfoldable pub step : Parser → Bool × Parser
unfolding step_headers
step p = if in_headers p.state then step_headers (find? p.buf blank_line) p else step_body p.state p

-- `feed(nullptr, 0)`, the end of the stream.
unfoldable pub feed_eof : Parser → Bool × Parser
feed_eof p =
    if in_body_eof p.state && p.allow_eof_termination
    then (true, record p { resp = record (p.resp) { body = p.buf }; buf = []; state = done })
    else fail (text "connection closed before response was complete") p

-- `feed(data, len)` with bytes.
unfoldable pub feed_bytes : Bytes → Parser → Bool × Parser
unfolding step
feed_bytes bytes p =
    let grown = record p { buf = p.buf ++ bytes } in
    if in_headers p.state && ltb p.limits.max_header_bytes (length grown.buf)
    then fail
        (text "header block exceeds " ++ (to_string p.limits.max_header_bytes ++ text " bytes"))
        grown
    else if in_body_eof p.state && ltb p.limits.max_body_bytes (length grown.buf)
    then fail (text "EOF-framed body exceeds limit") grown
    else step grown

-- The two kinds of call on a parser that is neither done nor failed.
unfoldable pub feed_live : Option Bytes → Parser → Bool × Parser
unfolding feed_eof feed_bytes
feed_live none p = feed_eof p
feed_live (some bytes) p = feed_bytes bytes p

-- `none` is the call with a null pointer.
unfoldable pub feed : Option Bytes → Parser → Bool × Parser
unfolding feed_live
feed input p =
    if is_done p.state
    then (true, p)
    else if is_error p.state
    then (false, p)
    else feed_live input p
