-- ===== src/Tests/ClientWitnesses.antt =====
-- The theorems about one exchange of the HTTP client, over a scripted connection.
use chaos_forger.Prelude.{
  ◌*◌, ◌≤◌, ◌≡◌, refl, Bool, true, false, List, [], ◌∷◌, some, Bytes, text, same, find?, has_prefix,
  to_string, length, Result, ok, c_str, Yields,
}
use chaos_forger.Http.Parser.Fields.{HttpResponse, fail}
use chaos_forger.Http.Parser.Headers.{
  first_line, status_code, reason_phrase, parse_code, parse_status_line, header_block, lines,
  trim_front, trim_back, ieq, header_line, header_lines, parse_headers,
}
use chaos_forger.Http.Parser.Headers.Numbers.{strtoull, skip_space, digits_value, all_digits}
use chaos_forger.Http.Parser.{body_step_content_length, step, feed}
use chaos_forger.Http.Client.{
  Read, received, got_eof, Transport, after_read, pass, receive, conclude, answer, exchange,
  after_connect, request,
}
use chaos_forger.Http.Client.Exchange.{Closed, request_answers, request_settles}

-- What the peer will still send, and whether the connection is open.
pub record Script : Type 0 where
  pub pending : List Bytes
  pub is_open : Bool

abbrev next_read : Script → Read × Script
next_read s = elim s.pending [
  | [] ↦ (got_eof, s)
  | bytes ∷ more ↦ (received bytes, record s { pending = more })
]

abbrev pub scripted : Transport
scripted = record {
  Conn = Script;
  connect = λ s. (ok tt, record s { is_open = true });
  send_all = λ wire s. (ok tt, s);
  read_some = λ n s. next_read s;
  close = λ s. record s { is_open = false };
  describe = λ s. text "script";
}

abbrev reply : Bytes
reply = text "HTTP/1.1 200 OK\r\nContent-Length: 2\r\n\r\nOK"

abbrev pub script : Script
script = record { pending = reply ∷ []; is_open = false }

request_answers_example :
    (r : Result HttpResponse × Script) × (request scripted 2 (text "GET") (text "/_ping") [] script
      ≡ some r)
request_answers_example = request_answers scripted 1 (text "GET") (text "/_ping") [] script refl

answered :
    request scripted 2 (text "GET") (text "/_ping") [] script
    ≡ some (
      ok (record { status = 200; status_text = text "OK"; body = text "OK" }),
      record { pending = []; is_open = false },
    )
unfolding request after_connect exchange answer conclude receive pass after_read feed
    body_step_content_length step parse_status_line parse_headers header_lines header_line lines
    header_block first_line status_code parse_code reason_phrase trim_front trim_back ieq strtoull
    skip_space all_digits digits_value text same find? has_prefix to_string c_str fail
answered = refl

request_settles_example :
    Closed scripted (record { pending = []; is_open = false })
    × Yields
        (λ (resp : HttpResponse). length resp.body ≤ 16 * 1024 * 1024)
        (ok (record { status = 200; status_text = text "OK"; body = text "OK" }))
request_settles_example =
    request_settles scripted 2 (text "GET") (text "/_ping") [] script
      (record { pending = []; is_open = false })
      (ok (record { status = 200; status_text = text "OK"; body = text "OK" })) refl answered
