-- ===== src/Http/Client/Lifecycle.antt =====
-- The states of a connection over one exchange of `HttpClient`: idle, up, sent the request, and down.
use chaos_forger.Prelude.{ℕ, zero, suc, ◌≡◌, Option, none, some, Bytes, if_cases, Result, ok, err}
use chaos_forger.Http.Parser.Fields.{Parser, is_done}
use chaos_forger.Http.Parser.{feed}
use chaos_forger.Http.Client.{
  Read, received, got_eof, failed, Transport, Pass, leave, go_on, malformed, after_read, pass,
  receive, conclude, answer, exchange, after_connect, request, build_http_request,
}

-- What holds of a connection once `connect` has said how it went.
abbrev pub Connected : {A : Type 0} → (A → Type 0) → (A → Type 0) → Result (Unit {0}) × A → Type 0
Connected Up Down (ok _, c) = Up c
Connected Up Down (err _, c) = Down c

-- What holds of the connection behind an exchange, if it ends.
abbrev pub AllDown : {A B : Type 0} → (B → Type 0) → Option (A × B) → Type 0
AllDown Down none = Unit
AllDown Down (some (a, c)) = Down c

pub AllDown-map :
    {A B : Type 0} (P Q : B → Type 0) (o : Option (A × B))
    → ((b : B) → P b → Q b)
    → AllDown P o
    → AllDown Q o
AllDown-map P Q none f h = tt
AllDown-map P Q (some (a, b)) f h = f b h

module _ (t : Transport) (wire : Bytes) (Idle Up Sent Down : t.Conn → Type 0) where
  pub record Lifecycle : Type 0 where
    pub on_connect : (c : t.Conn) → Idle c → Connected Up Down (t.connect c)
    pub on_send : (c : t.Conn) → Up c → Sent (t.send_all wire c).1
    pub on_read : (size : ℕ) (c : t.Conn) → Sent c → Sent (t.read_some size c).1
    pub on_close : (c : t.Conn) → Sent c → Down (t.close c)

  module _ (life : Lifecycle) where
    -- The loop is left with a parser on a connection that is up, or with an error on one that is
    -- closed.
    abbrev Left : Result Parser → t.Conn → Type 0
    Left (ok p) c = Sent c
    Left (err e) c = Down c

    abbrev InPass : Pass t → Type 0
    InPass (leave r c) = Left r c
    InPass (go_on p c) = Sent c

    after_read-InPass : (p : Parser) (r : Read) (c : t.Conn) → Sent c → InPass (after_read t p r c)
    unfolding after_read malformed
    after_read-InPass p (failed e) c h = life.on_close c h
    after_read-InPass p got_eof c h =
        if_cases InPass (feed none p).0 (λ _. h) (λ _. life.on_close c h)
    after_read-InPass p (received bytes) c h =
        if_cases InPass (feed (some bytes) p).0 (λ _. h) (λ _. life.on_close c h)

    pass-InPass : (p : Parser) (c : t.Conn) → Sent c → InPass (pass t p c)
    unfolding pass
    pass-InPass p c h =
        if_cases InPass (is_done p.state) (λ _. h)
          (λ _. after_read-InPass p _ _ (life.on_read 8192 c h))

    abbrev Received : Option (Result Parser × t.Conn) → Type 0
    Received none = Unit
    Received (some (r, c)) = Left r c

    -- The rest of the loop behind a pass.
    abbrev behind : ℕ → Pass t → Option (Result Parser × t.Conn)
    behind fuel (leave r c) = some (r, c)
    behind fuel (go_on p c) = receive t fuel p c

    behind-Received :
        (fuel : ℕ) (x : Pass t)
        → InPass x
        → ((p : Parser) (c : t.Conn) → Sent c → Received (receive t fuel p c))
        → Received (behind fuel x)
    behind-Received fuel (leave r c) h later = h
    behind-Received fuel (go_on p c) h later = later p c h

    receive-Received : (fuel : ℕ) (p : Parser) (c : t.Conn) → Sent c → Received (receive t fuel p c)
    unfolding receive
    receive-Received zero p c h = tt
    receive-Received (suc fuel) p c h =
        behind-Received fuel (pass t p c) (pass-InPass p c h) (receive-Received fuel)

    answer-AllDown : (o : Option (Result Parser × t.Conn)) → Received o → AllDown Down (answer t o)
    unfolding answer conclude
    answer-AllDown none h = tt
    answer-AllDown (some (err e, c)) h = h
    answer-AllDown (some (ok p, c)) h = life.on_close c h

    exchange-AllDown :
        (fuel : ℕ) (s : Result (Unit {0})) (c : t.Conn)
        → Sent c
        → AllDown Down (exchange t fuel s c)
    unfolding exchange
    exchange-AllDown fuel (err e) c h = life.on_close c h
    exchange-AllDown fuel (ok _) c h = answer-AllDown _ (receive-Received fuel _ c h)

    after_connect-AllDown :
        (fuel : ℕ) (answer : Result (Unit {0}) × t.Conn)
        → Connected Up Down answer
        → AllDown Down (after_connect t fuel wire answer.0 answer.1)
    unfolding after_connect
    after_connect-AllDown fuel (err e, c) h = h
    after_connect-AllDown fuel (ok _, c) h = exchange-AllDown fuel _ _ (life.on_send c h)

    -- A request of the given bytes, on a connection that is idle, ends with it down.
    pub request-AllDown :
        (fuel : ℕ) (method path_with_query body : Bytes) (c : t.Conn)
        → build_http_request method path_with_query body ≡ wire
        → Idle c
        → AllDown Down (request t fuel method path_with_query body c)
    unfolding request
    request-AllDown fuel method path_with_query body c e h =
        rw (e) (after_connect-AllDown fuel (t.connect c) (life.on_connect c h))
