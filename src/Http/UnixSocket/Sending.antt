-- ===== src/Http/UnixSocket/Sending.antt =====
-- `send_all` of the Unix socket transport.
use chaos_forger.Prelude.{
  ℕ, zero, suc, ◌+◌, ◌≡◌, ◌≤◌, ◌<◌, refl, sym, ap, subst, ◌∙◌, true, [], ◌∷◌, ◌++◌, append_assoc,
  append-nil, take-append-take, Option, none, some, Bytes, length, take, drop, is_empty, ◌==◌,
  arith, if_cases, Bool-cases, inl, inr, ==_iff, Result, ok, err, take-append-drop, length-drop,
}
use chaos_forger.Http.UnixSocket.{SystemCalls, Socket, stop, more, send_step, send_all}
use chaos_forger.Http.UnixSocket.Laws.{View, Sent, SystemLaws}

module _ (sys : SystemCalls) (v : View sys) where
  -- The peer has got all the bytes, or the first of them with an error.
  abbrev pub Delivered : Bytes → Bytes → Result (Unit {0}) → Bytes → Type 0
  Delivered before bytes (ok _) after = after ≡ before ++ bytes
  Delivered before bytes (err _) after = (n : ℕ) × (after ≡ before ++ take n bytes)

  abbrev pub Ends : Bytes → Socket sys → Option (Result (Unit {0}) × Socket sys) → Type 0
  Ends bytes s o =
      (r : Result (Unit {0})) × (t : Socket sys) × (o ≡ some (r, t))
      × Delivered (v.outgoing s.world) bytes r (v.outgoing t.world)

  nothing_left : {before : Bytes} (bytes : Bytes) → is_empty bytes ≡ true → before ≡ before ++ bytes
  nothing_left [] e = sym (append-nil _)
  nothing_left (b ∷ bs) e = cc

  Delivered-drop :
      (before : Bytes) (n : ℕ) (bytes : Bytes) (r : Result (Unit {0})) (after : Bytes)
      → Delivered (before ++ take n bytes) (drop n bytes) r after
      → Delivered before bytes r after
  Delivered-drop before n bytes (ok _) after h =
      h
      ∙ append_assoc before (take n bytes) (drop n bytes)
      ∙ ap (λ z. before ++ z) (take-append-drop n bytes)
  Delivered-drop before n bytes (err _) after (k, h) = (
    n + k,
    h ∙ append_assoc before (take n bytes) _ ∙ ap (λ z. before ++ z) (take-append-take n k bytes),
  )

  -- What `send_all` does with the answer of `::send`.
  abbrev continued :
      ℕ → Bytes → Socket sys → Option ℕ × sys.World → Option (Result (Unit {0}) × Socket sys)
  continued fuel bytes s answer =
      let s' : Socket sys = record { fd = s.fd; world = answer.1 } in
      elim (send_step sys answer.0 answer.1) [
        | stop r ↦ some (r, s')
        | more n ↦ send_all sys fuel (drop n bytes) s'
      ]

  continued-Ends :
      (fuel : ℕ) (bytes : Bytes) (s : Socket sys) (answer : Option ℕ × sys.World)
      → v.interruptions s.world + length bytes ≤ fuel
      → Sent sys v bytes s.world answer
      → ((later : Bytes) (t : Socket sys)
          → v.interruptions t.world + length later < fuel
          → Ends later t (send_all sys fuel later t))
      → Ends bytes s (continued fuel bytes s answer)
  unfolding send_step
  continued-Ends fuel bytes s (some n, w) h (positive, fits, got, patient) rest =
      let (r, t, e, d) =
        rest (drop n bytes) (record { fd = s.fd; world = w })
          (omega (arith, length-drop n bytes)) in
      (
        r,
        t,
        e,
        Delivered-drop (v.outgoing s.world) n bytes r _
            (subst (λ b. Delivered b (drop n bytes) r (v.outgoing t.world)) got d),
      )
  continued-Ends fuel bytes s (none, w) h (kept, waits) rest =
      elim (Bool-cases (sys.errno w == sys.eintr)) [
        | inl interrupted ↦
            let (r, t, e, d) =
              rest bytes (record { fd = s.fd; world = w })
                (omega (arith, waits ((==_iff (sys.errno w) sys.eintr).0 interrupted))) in
            rw (continued, interrupted)
              (r, t, e, subst (λ b. Delivered b bytes r (v.outgoing t.world)) kept d)
        | inr other ↦ rw (continued, other) (_, _, refl, (0, kept ∙ sym (append-nil _)))
      ]

  -- Over calls that behave as the laws say, and with more fuel than there are bytes and signals
  -- that will still cut calls short, `send_all` returns. Where it says that it succeeded the peer has been sent exactly the bytes; where it
  -- fails, the first of them.
  pub send_all-Ends :
      SystemLaws sys v
      → (fuel : ℕ) (bytes : Bytes) (s : Socket sys) → v.interruptions s.world + length bytes < fuel
      → Ends bytes s (send_all sys fuel bytes s)
  unfolding send_all
  send_all-Ends laws zero bytes s h = absurd (omega arith)
  send_all-Ends laws (suc fuel) bytes s h =
      if_cases (Ends bytes s) (is_empty bytes) (λ e. (ok tt, s, refl, nothing_left bytes e))
        (λ some_left.
          continued-Ends fuel bytes s _ (omega arith) (laws.send-Sent s.fd bytes s.world some_left)
            (send_all-Ends laws fuel))
