-- ===== src/Http/UnixSocket/Descriptors.antt =====
-- The descriptors that the Unix socket transport holds.
use chaos_forger.Prelude.{
  ℕ, suc, ◌≡◌, refl, ◌∙◌, true, Option, none, some, Bytes, length, is_empty, leb, arith, if_cases,
  ℤ, Result,
}
use chaos_forger.Http.UnixSocket.{
  SystemCalls, receiving, sending, Socket, close, address, with_timeouts, connected, connect,
}
use chaos_forger.Http.UnixSocket.Laws.{View, Opened, Kept, SystemLaws}

module _ (sys : SystemCalls) (v : View sys) where
  -- How many descriptors are open besides the socket's own.
  abbrev pub Others : ℕ → Socket sys → Type 0
  Others n s = elim s.fd [
    | none ↦ v.descriptors s.world ≡ n
    | some fd ↦ (v.descriptors s.world ≡ suc n) × (v.is_open fd s.world ≡ true)
  ]

  module _ (laws : SystemLaws sys v) where
    close-Others :
        (n : ℕ) (fd : Option ℕ) (w : sys.World)
        → Others n (record { fd = fd; world = w })
        → Others n (close sys (record { fd = fd; world = w }))
    unfolding close
    close-Others n none w h = h
    close-Others n (some fd) w (h, open_still) = omega (arith, laws.close_lem fd w open_still)

    Kept-trans : {w u x : sys.World} → Kept sys v w u → Kept sys v u x → Kept sys v w x
    Kept-trans (a, f) (b, g) = (b ∙ a, λ fd. g fd ∙ f fd)

    with_timeouts-Kept :
        (path : Bytes) (timeout_sec : ℤ) (fd : Option ℕ) (w : sys.World)
        → Kept sys v w (with_timeouts sys path timeout_sec fd w)
    unfolding with_timeouts
    with_timeouts-Kept path timeout_sec fd w =
        Kept-trans (laws.setsockopt-Kept fd receiving timeout_sec w)
          (laws.setsockopt-Kept fd sending timeout_sec _)

    connected-Others :
        (path : Bytes) (timeout_sec : ℤ) (w : sys.World) (answer : Option ℕ × sys.World)
        → Opened sys v w answer
        → Others (v.descriptors w) (connected sys path timeout_sec answer).1
    unfolding connected
    connected-Others path timeout_sec w (none, u) h = h
    connected-Others path timeout_sec w (some fd, u) h =
        let attempt =
          sys.connect (some fd) (address sys path timeout_sec)
            (with_timeouts sys path timeout_sec (some fd) u) in
        let (count, openness) =
          Kept-trans (with_timeouts-Kept path timeout_sec (some fd) u)
            (laws.connect-Kept (some fd) (address sys path timeout_sec) _) in
        let kept : Others (v.descriptors w) (record { fd = some fd; world = attempt.1 }) =
          (count ∙ h.0, openness fd ∙ h.1) in
        if_cases (λ (x : Result (Unit {0}) × Socket sys). Others (v.descriptors w) x.1) attempt.0
          {x = (_, record { fd = some fd; world = attempt.1 })}
          {y = (_, close sys (record { fd = some fd; world = attempt.1 }))} (λ _. kept)
          (λ _. close-Others (v.descriptors w) (some fd) _ kept)

    pub connect-Others :
        (path : Bytes) (timeout_sec : ℤ) (s : Socket sys)
        → s.fd ≡ none
        → Others (v.descriptors s.world) (connect sys path timeout_sec s).1
    unfolding connect
    connect-Others path timeout_sec s h =
        let Holds : Result (Unit {0}) × Socket sys → Type 0 =
          λ x. Others (v.descriptors s.world) x.1 in
        if_cases Holds (is_empty path) (λ _. unopened)
          (λ _.
            if_cases Holds (leb sys.sun_path_size (length path)) (λ _. unopened)
              (λ _. connected-Others path timeout_sec s.world _ (laws.socket-Opened s.world)))
      where
        unopened : Others (v.descriptors s.world) s
        unopened = rw (h) refl

    pub closed-Others :
        (n : ℕ) (fd : Option ℕ) (w : sys.World)
        → Others n (record { fd = fd; world = w })
        → let t = close sys (record { fd = fd; world = w }) in
          (v.descriptors t.world ≡ n) × (close sys t ≡ t)
    unfolding close
    closed-Others n none w h = (h, refl)
    closed-Others n (some fd) w (h, open_still) =
        (omega (arith, laws.close_lem fd w open_still), refl)

    -- Over calls that behave as the laws say, a socket without a descriptor that is connected, or
    -- fails to be at any step, and is then closed leaves as many
    -- descriptors open as there were; to close it again, as the destructor does, changes nothing.
    pub close-connect :
        (path : Bytes) (timeout_sec : ℤ) (s : Socket sys)
        → s.fd ≡ none
        → let t = close sys (connect sys path timeout_sec s).1 in
          (v.descriptors t.world ≡ v.descriptors s.world) × (close sys t ≡ t)
    close-connect path timeout_sec s h = closed-Others _ _ _ (connect-Others path timeout_sec s h)
