-- ===== src/Shutdown.antt =====
-- include/forger/shutdown.hpp and src/shutdown.cpp: the shutdown state. Its mutex makes each
-- `request` one atomic step, so a run of the threads is a sequence of the steps below.
pub mod Latch
use chaos_forger.Prelude.{ℕ, Bool, true, false, List, [], ◌∷◌, Bytes, text, if◌then◌else◌}

pub data StopReason : Type 0 where
  not_requested signal internal : StopReason

pub stop_reason_name : StopReason → Bytes
stop_reason_name not_requested = text "not requested"
stop_reason_name signal = text "signal"
stop_reason_name internal = text "internal shutdown"

pub record ShutdownState : Type 0 where
  pub state : Bool
  pub reason : StopReason

abbrev pub initial : ShutdownState
initial = record { state = false; reason = not_requested }

abbrev pub stop_requested : ShutdownState → Bool
stop_requested s = s.state

unfoldable pub request : StopReason → ShutdownState → ShutdownState
request r s = if s.state then s else record { state = true; reason = r }

unfoldable pub request_signal : ShutdownState → ShutdownState
unfolding request
request_signal = request signal

-- `wait_for_stop`: the requests that the other threads make while this one waits, in order, one
-- for each wake-up; the wait ends at the first state with the flag set, or at the time-out, when
-- the list is used up. What is left has not happened yet.
unfoldable pub wait_for_stop : List StopReason → ShutdownState → ShutdownState × List StopReason
unfolding request
wait_for_stop [] s = (s, [])
wait_for_stop (r ∷ rs) s =
    let later = wait_for_stop rs (request r s) in if s.state then (s, r ∷ rs) else later

-- A `stop_requested()` of one thread, at which the signal listener may have run since the last
-- one: each element of the schedule says whether it has, and an empty schedule that it has not.
unfoldable pub observe : List Bool → ShutdownState → ShutdownState × List Bool
unfolding request_signal
observe [] s = (s, [])
observe (arrived ∷ later) s = (if arrived then request_signal s else s, later)
