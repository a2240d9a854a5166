-- ===== src/Http/UnixSocket/Wired/Balance.antt =====
-- The descriptors that a request over the Unix socket opens and closes.
use chaos_forger.Prelude.{
  ℕ, ◌≡◌, refl, subst, ◌∙◌, [], Option, none, some, Bytes, ℤ, length, is_empty, leb, if_cases,
  Result, ok, err,
}
use chaos_forger.Http.Client.{failed}
use chaos_forger.Http.Client.Lifecycle.{AllDown, Connected, Lifecycle}
use chaos_forger.Http.UnixSocket.Loops.{send_all-AllDown, read_some-AllDown}
use chaos_forger.Http.UnixSocket.{
  SystemCalls, Socket, address, with_timeouts, close, connect, connected,
}
use chaos_forger.Http.UnixSocket.Laws.{View, Kept, SystemLaws}
use chaos_forger.Http.UnixSocket.Descriptors.{Others, connect-Others, closed-Others}
use chaos_forger.Http.UnixSocket.Wired.{UnixSocketTransport, within_calls, unix_transport}

module _ (sys : SystemCalls) (v : View sys) (laws : SystemLaws sys v) (n : ℕ) where
  abbrev pub Balanced : Socket sys → Type 0
  Balanced s = (s.fd ≡ none) × (v.descriptors s.world ≡ n)

  Others-Kept :
      (fd : Option ℕ) (w u : sys.World)
      → Kept sys v w u
      → Others sys v n (record { fd = fd; world = w })
      → Others sys v n (record { fd = fd; world = u })
  Others-Kept none w u (count, openness) h = count ∙ h
  Others-Kept (some fd) w u (count, openness) (h, k) = (count ∙ h, openness fd ∙ k)

  -- A connection that could not be made has no descriptor.
  connected-none :
      (path : Bytes) (timeout_sec : ℤ) (answer : Option ℕ × sys.World)
      → Connected
          (λ (_ : Socket sys). Unit {0})
          (λ s. s.fd ≡ none)
          (connected sys path timeout_sec answer)
  unfolding connected close
  connected-none path timeout_sec (none, w) = refl
  connected-none path timeout_sec (some fd, w) =
      let attempt =
        sys.connect (some fd) (address sys path timeout_sec)
          (with_timeouts sys path timeout_sec (some fd) w) in
      if_cases (Connected (λ (_ : Socket sys). Unit {0}) (λ s. s.fd ≡ none)) attempt.0
        {x = (ok tt, record { fd = some fd; world = attempt.1 })}
        {y = (err _, close sys (record { fd = some fd; world = attempt.1 }))} (λ _. tt) (λ _. refl)

  connect-none :
      (path : Bytes) (timeout_sec : ℤ) (s : Socket sys)
      → s.fd ≡ none
      → Connected (λ (_ : Socket sys). Unit {0}) (λ s. s.fd ≡ none) (connect sys path timeout_sec s)
  unfolding connect
  connect-none path timeout_sec s h =
      let Down = Connected (λ (_ : Socket sys). Unit {0}) (λ s. s.fd ≡ none) in
      if_cases Down (is_empty path) (λ _. h)
        (λ _.
          if_cases Down (leb sys.sun_path_size (length path)) (λ _. h)
            (λ _. connected-none path timeout_sec _))

  Balanced-of : (s : Socket sys) → s.fd ≡ none → Others sys v n s → Balanced s
  Balanced-of s h k = (h, subst (λ fd. Others sys v n (record { fd = fd; world = s.world })) h k)

  Connected-Balanced :
      (answer : Result (Unit {0}) × Socket sys)
      → Connected (λ (_ : Socket sys). Unit {0}) (λ s. s.fd ≡ none) answer
      → Others sys v n answer.1
      → Connected (Others sys v n) Balanced answer
  Connected-Balanced (ok _, s) h k = k
  Connected-Balanced (err e, s) h k = Balanced-of s h k

  -- Up and down, of the transport.
  abbrev pub IsUp : UnixSocketTransport sys → Type 0
  IsUp c = Others sys v n c.socket

  abbrev pub IsDown : UnixSocketTransport sys → Type 0
  IsDown c = Balanced c.socket

  within_calls-IsUp :
      {A : Type 0} (a : A) (c : UnixSocketTransport sys) (o : Option (A × Socket sys))
      → IsUp c
      → AllDown (Others sys v n) o
      → IsUp (within_calls sys a c o).1
  within_calls-IsUp a c none h k = h
  within_calls-IsUp a c (some (r, s)) h k = k

  close-IsDown :
      (fd : Option ℕ) (w : sys.World)
      → Others sys v n (record { fd = fd; world = w })
      → Balanced (close sys (record { fd = fd; world = w }))
  unfolding close
  close-IsDown none w h = (refl, h)
  close-IsDown (some fd) w h = (refl, (closed-Others sys v laws n (some fd) w h).0)

  Connected-IsUp :
      (c : UnixSocketTransport sys) (answer : Result (Unit {0}) × Socket sys)
      → Connected (Others sys v n) Balanced answer
      → Connected IsUp IsDown (answer.0, record c { socket = answer.1 })
  Connected-IsUp c (ok _, s) h = h
  Connected-IsUp c (err e, s) h = h

  -- Every request over the Unix socket starts and ends without a descriptor.
  pub unix_transport-Lifecycle :
      (wire : Bytes) → Lifecycle (unix_transport sys v.interruptions) wire IsDown IsUp IsUp IsDown
  unix_transport-Lifecycle wire = record {
    on_connect = λ c h. Connected-IsUp c (connect sys c.socket_path c.timeout_sec c.socket) (
        Connected-Balanced (connect sys c.socket_path c.timeout_sec c.socket)
          (connect-none c.socket_path c.timeout_sec c.socket h.0)
          (subst (λ m. Others sys v m (connect sys c.socket_path c.timeout_sec c.socket).1) h.1
            (connect-Others sys v laws c.socket_path c.timeout_sec c.socket h.0)));
    on_send = λ c h. within_calls-IsUp (err []) c _ h (
        send_all-AllDown sys (Others sys v n)
          (λ bytes s k. Others-Kept s.fd s.world _ (laws.send-Kept s.fd bytes s.world) k) _ wire
          c.socket h);
    on_read = λ size c h. within_calls-IsUp (failed []) c _ h (
        read_some-AllDown sys (Others sys v n)
          (λ m s k. Others-Kept s.fd s.world _ (laws.recv-Kept s.fd m s.world) k) _ size c.socket
          h);
    on_close = λ c h. close-IsDown c.socket.fd c.socket.world h;
  }
