-- ===== src/Main/Listener/Invariant.antt =====
-- What holds whenever neither thread is in the middle of a shared access.
use chaos_forger.Prelude.{◌≡◌, Bool, true, false, Option, none, some, arith}
use chaos_forger.Shutdown.{StopReason, signal, not_requested, internal, request, request_signal}
use chaos_forger.Main.Listener.{
  Signal, sigint, sigterm, raised, Listener, absent, waiting, stored, done, Place, starting,
  scheduling, reporting, joining, leaving, Process, Listens, take, store, announce, Goes, spawn,
  stop, load, wake, join, Step, listens, goes, turn, event, arrive, other, Event, launch, Reach,
  at_launch, later,
}

abbrev pub is_some : Option Signal → Bool
is_some none = false
is_some (some sig) = true

abbrev pub is_signal : StopReason → Bool
is_signal signal = true
is_signal _ = false

abbrev pub is_spawned : Place → Bool
is_spawned starting = false
is_spawned _ = true

abbrev pub is_absent : Listener → Bool
is_absent absent = true
is_absent _ = false

abbrev pub has_stored : Listener → Bool
has_stored stored = true
has_stored done = true
has_stored _ = false

-- Behind the observation of the flag.
abbrev pub has_stopped : Place → Bool
has_stopped starting = false
has_stopped scheduling = false
has_stopped _ = true

-- Between the spawn and the end of the join.
abbrev pub is_running : Place → Bool
is_running starting = false
is_running (leaving signalled) = false
is_running _ = true

-- What `main` will report or has reported, where it has read it.
abbrev pub Reads : (Option Signal → Type 0) → Place → Type 0
Reads P (reporting signalled) = P signalled
Reads P (joining signalled) = P signalled
Reads P (leaving signalled) = P signalled
Reads P _ = Unit

-- The signal that wakes the listener for the join is still to be taken, or has been.
abbrev pub Woken : Process → Place → Type 0
Woken s (joining signalled) = s.listener ≡ waiting → s.pending.term ≡ true
Woken s (leaving signalled) = s.listener ≡ done
Woken s _ = Unit

pub record Inv (s : Process) : Type 0 where
  pub spawned : is_spawned s.place ≡ true → is_absent s.listener ≡ false
  pub unspawned : is_spawned s.place ≡ false → is_absent s.listener ≡ true
  pub running : is_running s.place ≡ true → s.started ≡ true
  pub stored_first : has_stored s.listener ≡ true → is_some s.received ≡ true
  pub signal_stored : is_signal s.shutdown.reason ≡ true → is_some s.received ≡ true
  pub flag_seen : has_stopped s.place ≡ true → s.shutdown.state ≡ true
  pub reason_given : s.shutdown.state ≡ false → s.shutdown.reason ≡ not_requested
  pub reported :
      Reads (λ signalled. is_signal s.shutdown.reason ≡ true → is_some signalled ≡ true) s.place
  pub woken : Woken s s.place

Listens-Inv : {s t : Process} → Listens s t → Inv s → Inv t
unfolding request_signal request
Listens-Inv {s} (take sigint h k) v = ground arith
Listens-Inv {s} (take sigterm h k) v = ground arith
Listens-Inv {s} (store sig h) v = ground arith
Listens-Inv {s} (announce h) v = ground arith

Goes-Inv : {s t : Process} → Goes s t → Inv s → Inv t
unfolding request_signal request
Goes-Inv (spawn h) v = ground arith
Goes-Inv (stop h f) v = ground arith
Goes-Inv (load h) v = ground arith
Goes-Inv (wake signalled h k) v = ground arith
Goes-Inv (join signalled h k) v = ground arith

arrive-Inv :
    (sig : Signal) {s : Process} → Inv s → Inv (record s { pending = raised sig s.pending })
arrive-Inv sigint v = ground arith
arrive-Inv sigterm v = ground arith

other-Inv : {s : Process} → Inv s → Inv (record s { shutdown = request internal s.shutdown })
unfolding request
other-Inv v = ground arith

Event-Inv : {s t : Process} → Event s t → Inv s → Inv t
Event-Inv (arrive sig) v = arrive-Inv sig v
Event-Inv other v = other-Inv v

-- A step of either thread, a signal and a request of another kind keep the invariant.
pub Step-Inv : {s t : Process} → Step s t → Inv s → Inv t
Step-Inv (turn (listens p)) v = Listens-Inv p v
Step-Inv (turn (goes p)) v = Goes-Inv p v
Step-Inv (event p) v = Event-Inv p v

launch-Inv : Inv launch
launch-Inv = ground arith

pub Reach-Inv : {s : Process} → Reach s → Inv s
Reach-Inv at_launch = launch-Inv
Reach-Inv (later r p) = Step-Inv p (Reach-Inv r)
