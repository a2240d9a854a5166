-- ===== src/Tests/HttpRuns.antt =====
-- The cases of tests/test_http.cpp on which the parser of src/http_socket.cpp is run.
use chaos_forger.Prelude.{
  List, [], ◌∷◌, ℕ, ◌≡◌, refl, true, Option, none, some, Bytes, text, same, find?, has_prefix,
  to_string, c_str,
}
use chaos_forger.Http.Parser.Fields.{Parser, State, make, default_limits, fail}
use chaos_forger.Http.Parser.Headers.{
  first_line, status_code, reason_phrase, parse_code, parse_status_line, header_block, lines,
  trim_front, trim_back, ieq, header_line, header_lines, parse_headers,
}
use chaos_forger.Http.Parser.Headers.Numbers.{
  strtoull, skip_space, digits_value, all_digits, hex_value,
}
use chaos_forger.Http.Parser.Chunks.{
  trailer_loop, last_chunk, size_digits, all_xdigits, chunk_round, chunk_loop, body_step_chunked,
}
use chaos_forger.Http.Parser.{body_step_content_length, step, feed}
use chaos_forger.Http.Parser.Bounds.{feeds}

abbrev fresh : Parser
fresh = make true default_limits

record Outcome : Type 0 where
  state : State
  status : ℕ
  body : Bytes

-- What a run of feeds of a fresh parser ends with.
outcome : List (Option Bytes) → Outcome
unfolding feeds feed body_step_content_length step parse_status_line parse_headers header_lines
    header_line lines header_block first_line status_code parse_code reason_phrase trim_front
    trim_back ieq strtoull skip_space all_digits digits_value hex_value trailer_loop last_chunk
    size_digits all_xdigits chunk_round chunk_loop body_step_chunked text same find? has_prefix
    to_string c_str fail
outcome inputs =
    let p = feeds inputs fresh in
    record { state = p.state; status = p.resp.status; body = p.resp.body }

two_chunks :
    outcome (
      some (text "HTTP/1.1 200 OK\r\nTransfer-Encoding: chunked\r\n\r\n5;e")
      ∷ some (text "xt=1\r\nhello\r\n6\r\n world\r\n0\r\nX-Trailer: v\r\n\r\n")
      ∷ [])
    ≡ record { state = State.done; status = 200; body = text "hello world" }
unfolding outcome
two_chunks = refl

exact_length :
    outcome (some (text "HTTP/1.1 204\r\nContent-Length: 0\r\n\r\n") ∷ [])
    ≡ record { state = State.done; status = 204; body = [] }
unfolding outcome
exact_length = refl

extra_bytes :
    (outcome (some (text "HTTP/1.1 200 OK\r\nContent-Length: 2\r\n\r\nabXX") ∷ [])).state
    ≡ State.error
unfolding outcome
extra_bytes = refl

until_eof :
    outcome (some (text "HTTP/1.1 200 OK\r\n\r\nraw-body-bytes") ∷ none ∷ [])
    ≡ record { state = State.done; status = 200; body = text "raw-body-bytes" }
unfolding outcome
until_eof = refl

truncated :
    (outcome (some (text "HTTP/1.1 200 OK\r\nContent-Length: 10\r\n\r\nabc") ∷ none ∷ [])).state
    ≡ State.error
unfolding outcome
truncated = refl

bad_status_lines :
    ((outcome (some (text "NOT-HTTP\r\n\r\n") ∷ [])).state ≡ State.error)
    × ((outcome (some (text "HTTP/2.0 200 OK\r\n\r\n") ∷ [])).state ≡ State.error)
    × ((outcome (some (text "HTTP/1.1 20x OK\r\n\r\n") ∷ [])).state ≡ State.error)
    × ((outcome (some (text "HTTP/1.1  200 OK\r\n\r\n") ∷ [])).state ≡ State.error)
unfolding outcome
bad_status_lines = (refl, refl, refl, refl)

-- The last chunk and its blank line in two reads.
split_last_chunk :
    (outcome (
      some (text "HTTP/1.1 200 OK\r\nTransfer-Encoding: chunked\r\n\r\n4\r\nabcd\r\n0\r\n")
      ∷ some (text "\r\n")
      ∷ [])).state
    ≡ State.error
unfolding outcome
split_last_chunk = refl

-- A response with no header field whose body looks like one.
body_as_headers :
    outcome (some (text "HTTP/1.1 200 OK\r\n\r\nContent-Length: 20\r\n") ∷ [])
    ≡ record { state = State.done; status = 200; body = text "Content-Length: 20\r\n" }
unfolding outcome
body_as_headers = refl
