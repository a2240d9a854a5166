-- ===== src/Main/Scheduler/Rate.antt =====
-- How often the scheduler ticks.
use chaos_forger.Prelude.{
  ℕ, ◌+◌, ◌*◌, ◌≤◌, ◌≡◌, refl, ap, ◌∙◌, List, [], ◌∷◌, ◌++◌, All, leb, if_cases, if◌then◌else◌,
  pos_part, arith,
}
use chaos_forger.Engine.State.{Platform, ChaosEngine, look, stopping}
use chaos_forger.Engine.Budget.{tick-Frame}
use chaos_forger.Main.Scheduler.{
  second, Round, Schedule, interval, due, wait, round, rounds, run_until_shutdown,
}

-- The clock does not go back: the reading behind the tick follows the one before it, and a
-- reset the reading that shows the stall.
abbrev pub IsMonotone : Round → Type 0
IsMonotone r = (r.now ≤ r.behind) × (r.behind ≤ r.reset)

-- The readings reach the times `start`, `start + gap`, `start + 2 * gap`, ...
abbrev pub Spaced : ℕ → ℕ → List ℕ → Type 0
Spaced start gap [] = Unit
Spaced start gap (x ∷ xs) = (start ≤ x) × Spaced (start + gap) gap xs

-- The k-th reading behind each one is k - 1 gaps after it at least.
abbrev pub NoBurst : ℕ → List ℕ → Type 0
NoBurst gap [] = Unit
NoBurst gap (x ∷ xs) = Spaced x gap xs × NoBurst gap xs

-- The time at which the tick behind these is due at the earliest.
abbrev due_from : ℕ → ℕ → List ℕ → ℕ
due_from start gap [] = start
due_from start gap (x ∷ xs) = due_from (start + gap) gap xs

Spaced-snoc :
    (start gap : ℕ) (xs : List ℕ) (y : ℕ)
    → Spaced start gap xs
    → due_from start gap xs ≤ y
    → Spaced start gap (xs ++ y ∷ [])
Spaced-snoc start gap [] y h k = (k, tt)
Spaced-snoc start gap (x ∷ xs) y h k = (h.0, Spaced-snoc (start + gap) gap xs y h.1 k)

due_from-snoc :
    (start gap : ℕ) (xs : List ℕ) (y : ℕ)
    → due_from start gap (xs ++ y ∷ []) ≡ due_from start gap xs + gap
due_from-snoc start gap [] y = refl
due_from-snoc start gap (x ∷ xs) y = due_from-snoc (start + gap) gap xs y

-- From each reading on the readings are spaced, and the tick due at `next` is not early for any.
abbrev Even : ℕ → List ℕ → ℕ → Type 0
Even gap [] next = Unit
Even gap (x ∷ xs) next = Spaced x gap xs × (due_from x gap xs ≤ next) × Even gap xs next

Even-snoc :
    (gap : ℕ) (xs : List ℕ) (y next later : ℕ)
    → next ≤ y
    → next + gap ≤ later
    → y ≤ later
    → Even gap xs next
    → Even gap (xs ++ y ∷ []) later
Even-snoc gap [] y next later _ _ h e = (tt, h, tt)
Even-snoc gap (x ∷ xs) y next later reached moved h e = (
  Spaced-snoc x gap xs y e.0 (omega (arith, e.1)),
  rw (due_from-snoc x gap xs y) (omega (arith, e.1)),
  Even-snoc gap xs y next later reached moved h e.2,
)

NoBurst-Even : (gap : ℕ) (xs : List ℕ) (next : ℕ) → Even gap xs next → NoBurst gap xs
NoBurst-Even gap [] next e = tt
NoBurst-Even gap (x ∷ xs) next e = (e.0, NoBurst-Even gap xs next e.2)

module _ (p : Platform) (start gap : ℕ) where
  -- What the loop keeps.
  record OnTime (s : Schedule p) : Type 0 where
    gap_kept : interval p s.engine ≡ gap
    spaced : Spaced start gap s.ticked
    late_enough : due_from start gap s.ticked ≤ s.next_tick
    even : Even gap s.ticked s.next_tick

  due-OnTime :
      (r : Round) (s : Schedule p)
      → IsMonotone r
      → s.next_tick ≤ r.now
      → OnTime s
      → OnTime (due p r s)
  unfolding due
  due-OnTime r s mono reached v =
      let next =
        if leb (s.next_tick + interval p s.engine) r.behind
        then r.reset
        else s.next_tick + interval p s.engine in
      let moved : (s.next_tick + gap ≤ next) × (r.now ≤ next) =
        if_cases (λ next. (s.next_tick + gap ≤ next) × (r.now ≤ next))
          (leb (s.next_tick + interval p s.engine) r.behind) (λ stalled. ground (arith, v.gap_kept))
          (λ calm. ground (arith, v.gap_kept)) in
      record {
        gap_kept =
            ap (λ c. pos_part c.interval_seconds * second) (tick-Frame p s.engine).0 ∙ v.gap_kept;
        spaced = Spaced-snoc start gap s.ticked r.now v.spaced (omega (arith, v.late_enough));
        late_enough =
            rw (due_from-snoc start gap s.ticked r.now) (omega (arith, v.late_enough, moved));
        even = Even-snoc gap s.ticked r.now s.next_tick next reached moved.0 moved.1 v.even;
      }

  round-OnTime : (r : Round) (s : Schedule p) → IsMonotone r → OnTime s → OnTime (round p r s)
  unfolding round wait
  round-OnTime r s mono v =
      if_cases OnTime (leb s.next_tick r.now) (λ reached. due-OnTime r s mono (ground arith) v)
        (λ _. record {
          gap_kept = v.gap_kept;
          spaced = v.spaced;
          late_enough = v.late_enough;
          even = v.even;
        })

  rounds-OnTime :
      (rs : List Round) (s : Schedule p) → All IsMonotone rs → OnTime s → OnTime (rounds p rs s)
  unfolding rounds
  rounds-OnTime [] s mono v = v
  rounds-OnTime (r ∷ rs) s mono v =
      let looked : OnTime (record s { engine = look p s.engine }) = record {
        gap_kept = v.gap_kept;
        spaced = v.spaced;
        late_enough = v.late_enough;
        even = v.even;
      } in
      if_cases OnTime (stopping p s.engine) (λ _. looked)
        (λ _. rounds-OnTime rs _ mono.1 (round-OnTime r _ mono.0 looked))

-- On a clock that does not go back, tick number k (from 0) of the scheduler is made no earlier than
-- k intervals after its start, and the k-th tick behind any other no earlier than k - 1 intervals
-- after it: also behind a stall, ticks do not come in a burst.
pub run_until_shutdown-Spaced :
    (p : Platform) (started : ℕ) (rs : List Round) (e : ChaosEngine p)
    → All IsMonotone rs
    → let ticked = (run_until_shutdown p started rs e).ticked in
      Spaced started (interval p e) ticked × NoBurst (interval p e) ticked
unfolding run_until_shutdown
run_until_shutdown-Spaced p started rs e mono =
    if_cases
      (λ (s : Schedule p). Spaced started (interval p e) s.ticked × NoBurst (interval p e) s.ticked)
      (stopping p e) (λ _. (tt, tt))
      (λ _.
        let v =
          rounds-OnTime p started (interval p e) rs _ mono
            (record { gap_kept = refl; spaced = tt; late_enough = omega arith; even = tt }) in
        (v.spaced, NoBurst-Even (interval p e) _ _ v.even))
