-- ===== src/Main/Listener/Exit.antt =====
-- How `main` and its signal listener come to an end.
use chaos_forger.Prelude.{
  ap, ℕ, zero, Bool-cases, ◌∙◌, suc, ◌+◌, ◌≤◌, ◌≡◌, refl, Bool, true, false, Option, ◌<◌, inl, inr,
  arith,
}
use chaos_forger.Shutdown.{request, request_signal}
use chaos_forger.Main.Listener.{
  Signal, sigterm, Listener, absent, waiting, caught, stored, done, Place, starting, scheduling,
  stopping, reporting, joining, leaving, Process, Listens, take, store, announce, Goes, spawn, stop,
  load, wake, join, listens, goes, turn, event, arrive, other, Turn, Event, Reach,
}
use chaos_forger.Main.Listener.Invariant.{is_some, is_signal, Inv, Step-Inv, Reach-Inv}

-- Where `main` is behind the join and the reason of the stop is a signal, `main` has read which one
-- before, and so has logged it; the flag is set, and the listener has come to its end.
pub main-reported :
    {s : Process} (signalled : Option Signal)
    → Reach s
    → s.place ≡ leaving signalled
    → is_signal s.shutdown.reason ≡ true
    → (is_some signalled ≡ true) × (s.shutdown.state ≡ true) × (s.listener ≡ done)
main-reported signalled r h by = let v = Reach-Inv r in ground arith

abbrev pub has_left : Place → Bool
has_left (leaving signalled) = true
has_left _ = false

-- What happens between two turns.
pub data Meanwhile (s : Process) : Process → Type 0 where
  nothing : Meanwhile s s
  more : {t u : Process} → Meanwhile s t → Event t u → Meanwhile s u

-- `main` leaves within so many turns of the two threads, whichever of them is the next and
-- whatever happens between them: until then one of them can go on.
pub data Ends : ℕ → Process → Type 0 where
  ended : {n : ℕ} {s : Process} → has_left s.place ≡ true → Ends n s
  turns :
      {n : ℕ} {s : Process}
      → ((t : Process) → Meanwhile s t → (u : Process) × Turn t u)
      → ((t u : Process) → Meanwhile s t → Turn t u → Ends n u)
      → Ends (suc n) s

abbrev place_left : Place → ℕ
place_left starting = 5
place_left scheduling = 4
place_left stopping = 3
place_left (reporting signalled) = 2
place_left (joining signalled) = 1
place_left (leaving signalled) = 0

abbrev listener_left : Listener → ℕ
listener_left absent = 3
listener_left waiting = 3
listener_left (caught sig) = 2
listener_left stored = 1
listener_left done = 0

abbrev left : Process → ℕ
left s = place_left s.place + listener_left s.listener

place_positive : (p : Place) → has_left p ≡ false → 0 < place_left p
place_positive p g = ground arith

place_bounded : (p : Place) → place_left p ≤ 5
place_bounded p = ground arith

listener_bounded : (l : Listener) → listener_left l ≤ 3
listener_bounded l = ground arith

Listens-left : {s t : Process} → Listens s t → left t < left s
Listens-left (take sig h k) = ground arith
Listens-left (store sig h) = ground arith
Listens-left (announce h) = ground arith

Goes-left : {s t : Process} → Goes s t → Inv s → left t < left s
Goes-left (spawn h) v = ground arith
Goes-left (stop h f) v = ground arith
Goes-left (load h) v = ground arith
Goes-left (wake signalled h k) v = ground arith
Goes-left (join signalled h k) v = ground arith

Turn-left : {s t : Process} → Turn s t → Inv s → left t < left s
Turn-left (listens p) v = Listens-left p
Turn-left (goes p) v = Goes-left p v

Turn-state : {s t : Process} → Turn s t → s.shutdown.state ≡ true → t.shutdown.state ≡ true
unfolding request_signal request
Turn-state (listens (take sig h k)) f = f
Turn-state (listens (store sig h)) f = f
Turn-state (listens (announce h)) f = ground arith
Turn-state (goes (spawn h)) f = f
Turn-state (goes (stop h k)) f = f
Turn-state (goes (load h)) f = f
Turn-state (goes (wake signalled h k)) f = f
Turn-state (goes (join signalled h k)) f = f

-- In `join` the listener goes on, until it has ended.
joining_moves :
    {s : Process} (signalled : Option Signal) (place : Listener)
    → s.listener ≡ place
    → s.place ≡ joining signalled
    → Inv s
    → (u : Process) × Turn s u
joining_moves signalled absent e h v = absurd (ground arith)
joining_moves signalled waiting e h v = (_, listens (take sigterm e (ground arith)))
joining_moves signalled (caught sig) e h v = (_, listens (store sig e))
joining_moves signalled stored e h v = (_, listens (announce e))
joining_moves signalled done e h v = (_, goes (join signalled h e))

moves :
    {s : Process} (place : Place)
    → s.place ≡ place
    → has_left place ≡ false
    → s.shutdown.state ≡ true
    → Inv s
    → (u : Process) × Turn s u
moves starting e g f v = (_, goes (spawn e))
moves scheduling e g f v = (_, goes (stop e f))
moves stopping e g f v = (_, goes (load e))
moves (reporting signalled) e g f v = (_, goes (wake signalled e (ground arith)))
moves (joining signalled) e g f v = joining_moves signalled _ refl e v
moves (leaving signalled) e g f v = absurd (ground arith)

-- An event leaves both threads where they are and the flag set.
record Same (s t : Process) : Type 0 where
  place_same : t.place ≡ s.place
  listener_same : t.listener ≡ s.listener
  flag_kept : s.shutdown.state ≡ true → t.shutdown.state ≡ true
  inv_kept : Inv s → Inv t

Event-Same : {s t : Process} → Event s t → Same s t
unfolding request
Event-Same (arrive sig) = record {
  place_same = refl;
  listener_same = refl;
  flag_kept = λ f. f;
  inv_kept = Step-Inv (event (arrive sig));
}
Event-Same other = record {
  place_same = refl;
  listener_same = refl;
  flag_kept = λ f. ground arith;
  inv_kept = Step-Inv (event other);
}

Meanwhile-Same : {s t : Process} → Meanwhile s t → Same s t
Meanwhile-Same nothing = record {
  place_same = refl;
  listener_same = refl;
  flag_kept = λ f. f;
  inv_kept = λ v. v;
}
Meanwhile-Same (more w p) =
    let a = Meanwhile-Same w in
    let b = Event-Same p in
    record {
      place_same = b.place_same ∙ a.place_same;
      listener_same = b.listener_same ∙ a.listener_same;
      flag_kept = λ f. b.flag_kept (a.flag_kept f);
      inv_kept = λ v. b.inv_kept (a.inv_kept v);
    }

left-Same : {s t : Process} → Same s t → left t ≡ left s
left-Same c = omega (arith, ap place_left c.place_same, ap listener_left c.listener_same)

left_positive : (s : Process) → has_left s.place ≡ false → 0 < left s
left_positive s g = omega (arith, place_positive s.place g)

turns_on :
    (n : ℕ) {s : Process}
    → ((u : Process) → left u ≤ n → u.shutdown.state ≡ true → Inv u → Ends n u)
    → left s ≤ suc n
    → has_left s.place ≡ false
    → s.shutdown.state ≡ true
    → Inv s
    → Ends (suc n) s
turns_on n rest fits g f v =
    turns
      (λ t w.
        let c = Meanwhile-Same w in
        moves _ refl (ap has_left c.place_same ∙ g) (c.flag_kept f) (c.inv_kept v))
      (λ t u w p.
        let c = Meanwhile-Same w in
        rest u (omega (arith, left-Same c, Turn-left p (c.inv_kept v)))
          (Turn-state p (c.flag_kept f)) (Step-Inv (turn p) (c.inv_kept v)))

ends : (n : ℕ) {s : Process} → left s ≤ n → s.shutdown.state ≡ true → Inv s → Ends n s
ends zero {s} fits f v = elim (Bool-cases (has_left s.place)) [
  | inl e ↦ ended e
  | inr e ↦ absurd (omega (arith, left_positive s e))
]
ends (suc n) {s} fits f v = elim (Bool-cases (has_left s.place)) [
  | inl e ↦ ended e
  | inr e ↦ turns_on n (λ u. ends n) fits e f v
]

left_bounded : (s : Process) → left s ≤ 8
left_bounded s = omega (arith, place_bounded s.place, listener_bounded s.listener)

-- Once a stop is requested the program leaves: whichever of the two threads goes next, and
-- whatever signals arrive between their turns, one of them can go on until `main` is behind the
-- join, and that is so within eight turns. Neither thread waits for the other for ever.
pub main-Ends : {s : Process} → Reach s → s.shutdown.state ≡ true → Ends 8 s
main-Ends {s} r f = ends 8 (left_bounded s) f (Reach-Inv r)
