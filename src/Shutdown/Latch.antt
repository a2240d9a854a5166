-- ===== src/Shutdown/Latch.antt =====
-- The shutdown flag is a latch, and the first reason stays.
use chaos_forger.Prelude.{
  ◌++◌, ◌⊎◌, inl, inr, ap, ◌∙◌, Bool-cases, ◌≡◌, refl, Bool, true, false, List, [], ◌∷◌, arith,
}
use chaos_forger.Shutdown.{StopReason, ShutdownState, initial, request, wait_for_stop, observe}

abbrev pub request_all : List StopReason → ShutdownState → ShutdownState
request_all [] s = s
request_all (r ∷ rs) s = request_all rs (request r s)

pub request_latched : (r : StopReason) (s : ShutdownState) → s.state ≡ true → request r s ≡ s
unfolding request
request_latched r s h = ground arith

request_all_latched :
    (rs : List StopReason) (s : ShutdownState) → s.state ≡ true → request_all rs s ≡ s
request_all_latched [] s h = refl
request_all_latched (r ∷ rs) s h = rw (request_latched r s h) (request_all_latched rs s h)

-- Of any requests, made one after the other on a fresh state, the first alone counts: the flag
-- is set, and the reason is the first one's.
pub request_first_wins :
    (r : StopReason) (rs : List StopReason)
    → request_all (r ∷ rs) initial ≡ record { state = true; reason = r }
request_first_wins r rs =
    request_all_latched rs (request r initial) (unfold request in refl) ∙ (unfold request in refl)

wait_for_stop_stopped :
    (rs : List StopReason) (s : ShutdownState) → s.state ≡ true → wait_for_stop rs s ≡ (s, rs)
unfolding wait_for_stop
wait_for_stop_stopped [] s h = refl
wait_for_stop_stopped (r ∷ rs) s h = ground arith

wait_for_stop-cons :
    (r : StopReason) (rs : List StopReason) (s : ShutdownState)
    → s.state ≡ false
    → wait_for_stop (r ∷ rs) s ≡ wait_for_stop rs (request r s)
unfolding wait_for_stop
wait_for_stop-cons r rs s h = ground arith

-- None of these requests is made once the flag is set.
abbrev pub Unset : ShutdownState → List StopReason → Type 0
Unset s [] = Unit
Unset s (r ∷ rs) = (s.state ≡ false) × Unset (request r s) rs

-- The wait ends at the first state with the flag set, without waiting for more requests, or at
-- the time-out with every request made: the requests split into those that were made and those
-- that were not, none of them is made once the flag is set, and none is left unless it is set.
pub wait_for_stop_lem :
    (rs : List StopReason) (s : ShutdownState)
    → (made : List StopReason) × (rs ≡ made ++ (wait_for_stop rs s).1)
      × ((wait_for_stop rs s).0 ≡ request_all made s)
      × Unset s made
      × (((wait_for_stop rs s).0.state ≡ true) ⊎ ((wait_for_stop rs s).1 ≡ []))
wait_for_stop_lem [] s = (
  [],
  unfold wait_for_stop in refl,
  unfold wait_for_stop in refl,
  tt,
  inr (unfold wait_for_stop in refl),
)
wait_for_stop_lem (r ∷ rs) s = elim (Bool-cases s.state) [
  | inl stopped ↦
      let e = wait_for_stop_stopped (r ∷ rs) s stopped in ([], rw e, rw e, tt, inl (rw e stopped))
  | inr waiting ↦
      let (made, split, ends, unset, why) = wait_for_stop_lem rs (request r s) in
      let e = wait_for_stop-cons r rs s waiting in
      (r ∷ made, rw e (ap (◌∷◌ r) split), rw e ends, (waiting, unset), rw e why)
]

-- No step of the other threads clears the flag or changes the reason once it is set.
pub observe_latched :
    (arrivals : List Bool) (s : ShutdownState) → s.state ≡ true → (observe arrivals s).0 ≡ s
unfolding observe request
observe_latched [] s h = refl
observe_latched (b ∷ bs) s h = ground arith

-- A signal that has arrived is seen at the next look.
pub observe_signal :
    (later : List Bool) (s : ShutdownState) → (observe (true ∷ later) s).0.state ≡ true
unfolding observe request
observe_signal later s = ground arith
