-- ===== src/Http/Client/Exchange.antt =====
-- One exchange of `HttpClient`: it ends, closes its connection, and bounds the body.
use chaos_forger.Prelude.{
  ℕ, zero, suc, ◌≤◌, ◌*◌, ◌≡◌, refl, sym, ap, subst, ◌∙◌, Bool, true, false, ◌||◌, Option, none,
  some, Bytes, length, if_cases, inl, inr, ◌⊎◌, arith, Result, ok, err, Yields,
}
use chaos_forger.Http.Parser.Fields.{Parser, HttpResponse, make, default_limits, is_done}
use chaos_forger.Http.Parser.{feed}
use chaos_forger.Http.Parser.Invariant.{Inv}
use chaos_forger.Http.Parser.Bounds.{feed-Inv, make-Inv}
use chaos_forger.Http.Client.{
  Read, received, got_eof, failed, Transport, build_http_request, Pass, leave, go_on, malformed,
  after_read, pass, receive, conclude, answer, exchange, after_connect, request,
}

abbrev pub is_end : Read → Bool
is_end (received _) = false
is_end _ = true

module _ (t : Transport) where
  -- One of the next `suc k` reads is the end of the stream or an error.
  abbrev pub ends_by : ℕ → t.Conn → Bool
  ends_by zero c = is_end (t.read_some 8192 c).0
  ends_by (suc k) c = is_end (t.read_some 8192 c).0 || ends_by k (t.read_some 8192 c).1

  -- The connection after the request has been sent.
  abbrev pub sent : Bytes → t.Conn → t.Conn
  sent wire c = (t.send_all wire (t.connect c).1).1

  abbrev Answered : Option (Result Parser × t.Conn) → Type 0
  Answered o = (r : Result Parser × t.Conn) × (o ≡ some r)

  -- A pass that goes on has read bytes and gives the parser that they were fed to.
  abbrev GoesOn : Parser → t.Conn → Pass t → Type 0
  GoesOn p c (leave r d) = Unit
  GoesOn p c (go_on q d) = (is_end (t.read_some 8192 c).0 ≡ false) × (d ≡ (t.read_some 8192 c).1)

  pass-GoesOn : (p : Parser) (c : t.Conn) → GoesOn p c (pass t p c)
  unfolding pass after_read malformed
  pass-GoesOn p c =
      if_cases (GoesOn p c) (is_done p.state) (λ _. tt) (λ _. by_read (t.read_some 8192 c).0 refl)
    where
      by_read :
          (r : Read)
          → (t.read_some 8192 c).0 ≡ r
          → GoesOn p c (after_read t p r (t.read_some 8192 c).1)
      by_read (failed e) h = tt
      by_read got_eof h = if_cases (GoesOn p c) (feed none p).0 (λ _. tt) (λ _. tt)
      by_read (received bytes) h =
          if_cases (GoesOn p c) (feed (some bytes) p).0 (λ _. (ap is_end h, refl)) (λ _. tt)

  Pass-cases :
      (x : Pass t)
      → ((r : Result Parser) × (d : t.Conn) × (x ≡ leave r d))
        ⊎ ((q : Parser) × (d : t.Conn) × (x ≡ go_on q d))
  Pass-cases (leave r d) = inl (r, d, refl)
  Pass-cases (go_on q d) = inr (q, d, refl)

  receive-Answered :
      (k : ℕ) (p : Parser) (c : t.Conn) → ends_by k c ≡ true → Answered (receive t (suc k) p c)
  unfolding receive
  receive-Answered zero p c h = elim (Pass-cases (pass t p c)) [
    | inl (r, d, e) ↦ rw (e, receive) ((r, d), refl)
    | inr (q, d, e) ↦
        let (reads, _) = subst (GoesOn p c) e (pass-GoesOn p c) in absurd (cc (sym reads ∙ h))
  ]
  receive-Answered (suc k) p c h = elim (Pass-cases (pass t p c)) [
    | inl (r, d, e) ↦ rw (e, receive) ((r, d), refl)
    | inr (q, d, e) ↦
        let (reads, same) = subst (GoesOn p c) e (pass-GoesOn p c) in
        let rest : ends_by k (t.read_some 8192 c).1 ≡ true = ground arith in
        rw (e, receive) (receive-Answered k q d (rw same rest))
  ]

  -- Where the end of the stream or an error is among the first `suc k` reads behind the request,
  -- `request` returns within `suc k` passes, with a response or with an error.
  pub request_answers :
      (k : ℕ) (method path_with_query body : Bytes) (c : t.Conn)
      → ends_by k (sent (build_http_request method path_with_query body) c) ≡ true
      → (r : Result HttpResponse × t.Conn) × (request t (suc k) method path_with_query body c
          ≡ some r)
  unfolding request after_connect exchange answer
  request_answers k method path_with_query body c h = connected (t.connect c).0
    where
      answered :
          (o : Option (Result Parser × t.Conn))
          → Answered o
          → (r : Result HttpResponse × t.Conn) × (answer t o ≡ some r)
      answered o (r, e) = (conclude t r.0 r.1, rw e refl)

      written :
          (s : Result (Unit {0})) (d : t.Conn)
          → ends_by k d ≡ true
          → (r : Result HttpResponse × t.Conn) × (exchange t (suc k) s d ≡ some r)
      written (err e) d h = (_, refl)
      written (ok u) d h =
          answered (receive t (suc k) (make true default_limits) d) (receive-Answered k _ d h)

      connected :
          (s : Result (Unit {0}))
          → (r : Result HttpResponse × t.Conn) × (after_connect t
                (suc k)
                (build_http_request method path_with_query body)
                s
                (t.connect c).1
              ≡ some r)
      connected (err e) = (_, refl)
      connected (ok u) = written _ _ h

  -- The connection has been closed, as the last thing done to it.
  abbrev pub Closed : t.Conn → Type 0
  Closed d = (e : t.Conn) × (d ≡ t.close e)

  -- How the loop is left: with a parser within the limits, or closed with an error.
  abbrev Left : Result Parser → t.Conn → Type 0
  Left (ok p) d = Inv default_limits p
  Left (err message) d = Closed d

  abbrev PassLeft : Pass t → Type 0
  PassLeft (leave r d) = Left r d
  PassLeft (go_on q d) = Inv default_limits q

  abbrev ReceiveLeft : Option (Result Parser × t.Conn) → Type 0
  ReceiveLeft none = Unit
  ReceiveLeft (some (r, d)) = Left r d

  after_read-PassLeft :
      (p : Parser) (r : Read) (c : t.Conn) → Inv default_limits p → PassLeft (after_read t p r c)
  unfolding after_read malformed
  after_read-PassLeft p (failed e) c v = (c, refl)
  after_read-PassLeft p got_eof c v =
      if_cases PassLeft (feed none p).0 (λ _. feed-Inv default_limits none p v) (λ _. (c, refl))
  after_read-PassLeft p (received bytes) c v =
      if_cases PassLeft (feed (some bytes) p).0 (λ _. feed-Inv default_limits (some bytes) p v)
        (λ _. (c, refl))

  pass-PassLeft : (p : Parser) (c : t.Conn) → Inv default_limits p → PassLeft (pass t p c)
  unfolding pass
  pass-PassLeft p c v =
      if_cases PassLeft (is_done p.state) (λ _. v) (λ _. after_read-PassLeft p _ _ v)

  receive-Left :
      (fuel : ℕ) (p : Parser) (c : t.Conn) → Inv default_limits p → ReceiveLeft (receive t fuel p c)
  unfolding receive
  receive-Left zero p c v = tt
  receive-Left (suc fuel) p c v = elim (Pass-cases (pass t p c)) [
    | inl (r, d, e) ↦ rw (e, receive) (subst PassLeft e (pass-PassLeft p c v))
    | inr (q, d, e) ↦
        rw (e, receive) (receive-Left fuel q d (subst PassLeft e (pass-PassLeft p c v)))
  ]

  -- The connection is closed, and a response is within the limit.
  abbrev Settled : Result HttpResponse × t.Conn → Type 0
  Settled (r, d) = Closed d × Yields (λ resp. length resp.body ≤ default_limits.max_body_bytes) r

  abbrev AllSettled : Option (Result HttpResponse × t.Conn) → Type 0
  AllSettled none = Unit
  AllSettled (some x) = Settled x

  conclude-Settled : (r : Result Parser) (d : t.Conn) → Left r d → Settled (conclude t r d)
  unfolding conclude
  conclude-Settled (err message) d h = (h, tt)
  conclude-Settled (ok p) d v = (
    (d, refl),
    if_cases (Yields (λ resp. length resp.body ≤ default_limits.max_body_bytes)) (is_done p.state)
        (λ _. omega (arith, v.small_body, ap (λ l. l.max_body_bytes) v.limited.given)) (λ _. tt),
  )

  answer-Settled : (o : Option (Result Parser × t.Conn)) → ReceiveLeft o → AllSettled (answer t o)
  unfolding answer
  answer-Settled none h = tt
  answer-Settled (some (r, d)) h = conclude-Settled r d h

  exchange-Settled :
      (fuel : ℕ) (s : Result (Unit {0})) (d : t.Conn) → AllSettled (exchange t fuel s d)
  unfolding exchange
  exchange-Settled fuel (err e) d = ((d, refl), tt)
  exchange-Settled fuel (ok u) d = answer-Settled _ (
      receive-Left fuel (make true default_limits) d
        (make-Inv true default_limits (omega arith) (omega arith)))

  -- Once the connection is open, `request` closes it last on every path, and a response that it
  -- returns has a body of at most 16 MiB.
  pub request_settles :
      (fuel : ℕ) (method path_with_query body : Bytes) (c d : t.Conn) (r : Result HttpResponse)
      → (t.connect c).0 ≡ ok tt
      → request t fuel method path_with_query body c ≡ some (r, d)
      → Closed d × Yields (λ resp. length resp.body ≤ 16 * 1024 * 1024) r
  unfolding request after_connect
  request_settles fuel method path_with_query body c d r opened e =
      subst AllSettled (rw opened at e) (exchange-Settled fuel _ _)
