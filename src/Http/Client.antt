-- ===== src/Http/Client.antt =====
-- `build_http_request` and `HttpClient` of src/http_socket.cpp, over the interface `Transport` of
-- include/forger/http_socket.hpp.
pub mod Exchange
pub mod Lifecycle
pub mod Delivery
use chaos_forger.Prelude.{
  ℕ, zero, suc, Bool, true, false, [], ◌∷◌, ◌++◌, Option, none, some, Bytes, text, length,
  to_string, if◌then◌else◌, Result, ok, err,
}
use chaos_forger.Http.Parser.Fields.{Parser, HttpResponse, make, default_limits, is_done}
use chaos_forger.Http.Parser.{feed}

-- What `read_some` hands back: bytes, the clean end of the stream, or an error.
pub data Read : Type 0 where
  received : Bytes → Read
  got_eof : Read
  failed : Bytes → Read

-- `Conn` is the state of the connection and of the peer behind it.
pub record Transport : Type 1 where
  pub Conn : Type 0
  pub connect : Conn → Result (Unit {0}) × Conn
  pub send_all : Bytes → Conn → Result (Unit {0}) × Conn
  pub read_some : ℕ → Conn → Read × Conn
  pub close : Conn → Conn
  pub describe : Conn → Bytes

unfoldable pub build_http_request : Bytes → Bytes → Bytes → Bytes
build_http_request method path_with_query body =
    method
    ++ (text " "
        ++ (path_with_query
            ++ (text " HTTP/1.1\r\n"
                ++ (text "Host: docker\r\n"
                    ++ (text "User-Agent: Chaos_Forger/1.0\r\n"
                        ++ (text "Accept: application/json\r\n"
                            ++ (text "Connection: close\r\n"
                                ++ (text "Content-Length: "
                                    ++ (to_string (length body)
                                        ++ (text "\r\n" ++ (text "\r\n" ++ body)))))))))))

module _ (t : Transport) where
  -- A pass of the loop leaves it, with the parser or with an error, or goes on.
  pub data Pass : Type 0 where
    leave : Result Parser → t.Conn → Pass
    go_on : Parser → t.Conn → Pass

  unfoldable pub malformed : Parser → t.Conn → Pass
  malformed p c = leave (err (text "malformed response: " ++ p.message)) (t.close c)

  -- The body of the loop behind the read.
  unfoldable pub after_read : Parser → Read → t.Conn → Pass
  unfolding malformed
  after_read p (failed e) c = leave (err (text "receive failed: " ++ e)) (t.close c)
  after_read p got_eof c =
      let fed = feed none p in if fed.0 then leave (ok fed.1) c else malformed fed.1 c
  after_read p (received bytes) c =
      let fed = feed (some bytes) p in if fed.0 then go_on fed.1 c else malformed fed.1 c

  unfoldable pub pass : Parser → t.Conn → Pass
  pass p c =
      if is_done p.state
      then leave (ok p) c
      else after_read p (t.read_some 8192 c).0 (t.read_some 8192 c).1

  -- The loop, on fuel; `none` if the fuel runs out.
  unfoldable pub receive : ℕ → Parser → t.Conn → Option (Result Parser × t.Conn)
  receive zero p c = none
  receive (suc fuel) p c = elim (pass p c) [
    | leave r d ↦ some (r, d)
    | go_on q d ↦ receive fuel q d
  ]

  -- What follows the loop.
  unfoldable pub conclude : Result Parser → t.Conn → Result HttpResponse × t.Conn
  conclude (err message) c = (err message, c)
  conclude (ok p) c =
      (if is_done p.state then ok p.resp else err (text "response ended unexpectedly"), t.close c)

  unfoldable pub answer : Option (Result Parser × t.Conn) → Option (Result HttpResponse × t.Conn)
  answer none = none
  answer (some (r, c)) = some (conclude r c)

  unfoldable pub exchange : ℕ → Result (Unit {0}) → t.Conn → Option (Result HttpResponse × t.Conn)
  exchange fuel (err e) c = some (err (text "send failed: " ++ e), t.close c)
  exchange fuel (ok _) c = answer (receive fuel (make true default_limits) c)

  unfoldable pub after_connect :
      ℕ → Bytes → Result (Unit {0}) → t.Conn → Option (Result HttpResponse × t.Conn)
  unfolding exchange
  after_connect fuel wire (err e) c =
      some (err (text "connect to " ++ (t.describe c ++ (text " failed: " ++ e))), c)
  after_connect fuel wire (ok _) c = exchange fuel (t.send_all wire c).0 (t.send_all wire c).1

  unfoldable pub request :
      ℕ → Bytes → Bytes → Bytes → t.Conn → Option (Result HttpResponse × t.Conn)
  unfolding after_connect
  request fuel method path_with_query body c =
      after_connect fuel (build_http_request method path_with_query body) (t.connect c).0
        (t.connect c).1
