-- ===== src/Http/UnixSocket/Receiving.antt =====
-- `read_some` of the Unix socket transport.
use chaos_forger.Prelude.{
  ℕ, zero, suc, ◌≡◌, ◌≤◌, ◌<◌, refl, ◌||◌, [], ◌∷◌, Option, none, some, Bytes, length, ◌==◌, ==_iff,
  arith, Bool-cases, inl, inr,
}
use chaos_forger.Http.Client.{Read, received}
use chaos_forger.Http.UnixSocket.{SystemCalls, Socket, stop, more, recv_step, recv_error, read_some}
use chaos_forger.Http.UnixSocket.Laws.{View, Got, SystemLaws}

-- The bytes that are handed back fit the buffer, and there are some.
abbrev pub Fits : ℕ → Read → Type 0
Fits buf_len (received bytes) = (0 < length bytes) × (length bytes ≤ buf_len)
Fits buf_len _ = Unit

module _ (sys : SystemCalls) (v : View sys) where
  abbrev pub Returns : ℕ → Option (Read × Socket sys) → Type 0
  Returns buf_len o = (r : Read) × (t : Socket sys) × (o ≡ some (r, t)) × Fits buf_len r

  -- What `read_some` does with the answer of `::recv`.
  abbrev continued : ℕ → ℕ → Socket sys → Option Bytes × sys.World → Option (Read × Socket sys)
  continued fuel buf_len s answer =
      let s' : Socket sys = record { fd = s.fd; world = answer.1 } in
      elim (recv_step sys answer.0 answer.1) [
        | stop r ↦ some (r, s')
        | more _ ↦ read_some sys fuel buf_len s'
      ]

  continued-Returns :
      (fuel buf_len : ℕ) (s : Socket sys) (answer : Option Bytes × sys.World)
      → v.interruptions s.world ≤ fuel
      → Got sys v buf_len s.world answer
      → ((t : Socket sys)
          → v.interruptions t.world < fuel
          → Returns buf_len (read_some sys fuel buf_len t))
      → Returns buf_len (continued fuel buf_len s answer)
  unfolding recv_step recv_error
  continued-Returns fuel buf_len s (some [], w) h fits rest = (_, _, refl, tt)
  continued-Returns fuel buf_len s (some (b ∷ bs), w) h fits rest =
      (_, _, refl, (omega arith, fits))
  continued-Returns fuel buf_len s (none, w) h waits rest =
      elim (Bool-cases (sys.errno w == sys.eintr)) [
        | inl interrupted ↦
            rw (continued, interrupted)
              (rest (record { fd = s.fd; world = w })
                (omega (arith, waits ((==_iff (sys.errno w) sys.eintr).0 interrupted))))
        | inr other ↦
            elim (Bool-cases (sys.errno w == sys.eagain || sys.errno w == sys.ewouldblock)) [
              | inl late ↦ rw (continued, other, late) (_, _, refl, tt)
              | inr broken ↦ rw (continued, other, broken) (_, _, refl, tt)
            ]
      ]

  -- Over calls that behave as the laws say, and with more fuel than there are signals that will
  -- still cut calls short, `read_some` returns, and what it hands back as received is at least one
  -- byte and at most the buffer's size.
  pub read_some-Returns :
      SystemLaws sys v
      → (fuel buf_len : ℕ) (s : Socket sys) → v.interruptions s.world < fuel
      → Returns buf_len (read_some sys fuel buf_len s)
  unfolding read_some
  read_some-Returns laws zero buf_len s h = absurd (omega arith)
  read_some-Returns laws (suc fuel) buf_len s h =
      continued-Returns fuel buf_len s _ (omega arith) (laws.recv-Got s.fd buf_len s.world)
        (read_some-Returns laws fuel buf_len)
