-- ===== src/Http/UnixSocket/Wired/Traffic.antt =====
-- The bytes that a request over the Unix socket sends.
use chaos_forger.Prelude.{
  ℕ, suc, ◌+◌, ◌≡◌, refl, sym, ap, subst, ◌∙◌, [], ◌++◌, append-nil, take, take_all, Option, none,
  some, Bytes, ℤ, length, is_empty, leb, if_cases, arith, Result, ok, err,
}
use chaos_forger.Http.Client.{failed}
use chaos_forger.Http.Client.Lifecycle.{AllDown, Connected, Lifecycle}
use chaos_forger.Http.UnixSocket.Loops.{read_some-AllDown}
use chaos_forger.Http.UnixSocket.{
  SystemCalls, Socket, receiving, sending, address, with_timeouts, close, connect, connected,
}
use chaos_forger.Http.UnixSocket.Laws.{View, SystemLaws}
use chaos_forger.Http.UnixSocket.Sending.{Delivered, Ends, send_all-Ends}
use chaos_forger.Http.UnixSocket.Wired.{UnixSocketTransport, within_calls, unix_transport}

module _ (sys : SystemCalls) (v : View sys) (laws : SystemLaws sys v) (before wire : Bytes) where
  -- The peers have got nothing more.
  abbrev pub IsQuiet : UnixSocketTransport sys → Type 0
  IsQuiet c = v.outgoing c.socket.world ≡ before

  -- The peers have got the first bytes of the request.
  abbrev pub HasSpoken : UnixSocketTransport sys → Type 0
  HasSpoken c = (k : ℕ) × (v.outgoing c.socket.world ≡ before ++ take k wire)

  IsQuiet-HasSpoken : (c : UnixSocketTransport sys) → IsQuiet c → HasSpoken c
  IsQuiet-HasSpoken c h = (0, h ∙ sym (append-nil before))

  close-outgoing :
      (fd : Option ℕ) (w : sys.World)
      → v.outgoing (close sys (record { fd = fd; world = w })).world ≡ v.outgoing w
  unfolding close
  close-outgoing none w = refl
  close-outgoing (some fd) w = laws.close-Silent fd w

  connected-outgoing :
      (path : Bytes) (timeout_sec : ℤ) (answer : Option ℕ × sys.World)
      → v.outgoing (connected sys path timeout_sec answer).1.world ≡ v.outgoing answer.1
  unfolding connected with_timeouts
  connected-outgoing path timeout_sec (none, w) = refl
  connected-outgoing path timeout_sec (some fd, w) =
      let first = sys.setsockopt (some fd) receiving timeout_sec w in
      let ready = sys.setsockopt (some fd) sending timeout_sec first in
      let attempt = sys.connect (some fd) (address sys path timeout_sec) ready in
      let same =
        laws.connect-Silent (some fd) (address sys path timeout_sec) ready
        ∙ laws.setsockopt-Silent (some fd) sending timeout_sec first
        ∙ laws.setsockopt-Silent (some fd) receiving timeout_sec w in
      if_cases (λ (x : Result (Unit {0}) × Socket sys). v.outgoing x.1.world ≡ v.outgoing w)
        attempt.0 {x = (ok tt, record { fd = some fd; world = attempt.1 })}
        {y = (err _, close sys (record { fd = some fd; world = attempt.1 }))} (λ _. same)
        (λ _. close-outgoing (some fd) attempt.1 ∙ same)

  connect-outgoing :
      (path : Bytes) (timeout_sec : ℤ) (s : Socket sys)
      → v.outgoing (connect sys path timeout_sec s).1.world ≡ v.outgoing s.world
  unfolding connect
  connect-outgoing path timeout_sec s =
      let Same : Result (Unit {0}) × Socket sys → Type 0 =
        λ x. v.outgoing x.1.world ≡ v.outgoing s.world in
      if_cases Same (is_empty path) (λ _. refl)
        (λ _.
          if_cases Same (leb sys.sun_path_size (length path)) (λ _. refl)
            (λ _.
              connected-outgoing path timeout_sec (sys.socket s.world)
              ∙ laws.socket-Silent s.world))

  within_calls-HasSpoken :
      {A : Type 0} (a : A) (c : UnixSocketTransport sys) (o : Option (A × Socket sys))
      → HasSpoken c
      → AllDown (λ s. HasSpoken (record c { socket = s })) o
      → HasSpoken (within_calls sys a c o).1
  within_calls-HasSpoken a c none h later = h
  within_calls-HasSpoken a c (some (r, s)) h later = later

  Connected-IsQuiet :
      (c : UnixSocketTransport sys) (answer : Result (Unit {0}) × Socket sys)
      → v.outgoing answer.1.world ≡ before
      → Connected IsQuiet HasSpoken (answer.0, record c { socket = answer.1 })
  Connected-IsQuiet c (ok _, s) h = h
  Connected-IsQuiet c (err e, s) h = (0, h ∙ sym (append-nil before))

  Delivered-HasSpoken :
      (r : Result (Unit {0})) (t : Socket sys)
      → Delivered sys v before wire r (v.outgoing t.world)
      → (k : ℕ) × (v.outgoing t.world ≡ before ++ take k wire)
  Delivered-HasSpoken (ok _) t h =
      (length wire, h ∙ ap (λ z. before ++ z) (sym (take_all (length wire) wire (omega arith))))
  Delivered-HasSpoken (err e) t h = h

  Ends-HasSpoken :
      (c : UnixSocketTransport sys) (o : Option (Result (Unit {0}) × Socket sys))
      → IsQuiet c
      → Ends sys v wire c.socket o
      → HasSpoken (within_calls sys (err []) c o).1
  Ends-HasSpoken c o h (r, t, e, delivered) = rw (e) (
      Delivered-HasSpoken r t
        (subst (λ b. Delivered sys v b wire r (v.outgoing t.world)) h delivered))

  -- Over calls that behave as the laws say, a request sends its first bytes, and no other.
  pub unix_transport-Traffic :
      Lifecycle (unix_transport sys v.interruptions) wire IsQuiet IsQuiet HasSpoken HasSpoken
  unix_transport-Traffic = record {
    on_connect = λ c h.
        Connected-IsQuiet c (connect sys c.socket_path c.timeout_sec c.socket)
          (connect-outgoing c.socket_path c.timeout_sec c.socket ∙ h);
    on_send = λ c h. Ends-HasSpoken c _ h (
        send_all-Ends sys v laws (suc (v.interruptions c.socket.world + length wire)) wire c.socket
          (omega arith));
    on_read = λ size c h. within_calls-HasSpoken (failed []) c _ h (
        read_some-AllDown sys (λ s. HasSpoken (record c { socket = s }))
          (λ m s (k, e). (k, laws.recv-Silent s.fd m s.world ∙ e)) _ size c.socket h);
    on_close = λ c (k, h). (k, close-outgoing c.socket.fd c.socket.world ∙ h);
  }
