-- ===== src/Main/Listener.antt =====
-- The signal listener of main.cpp and the end of `main`: two threads and the signals that are
-- pending, a shared access at a time. SIGINT and SIGTERM are blocked in both, so only `sigwait`
-- takes them; on this set it does not fail.
pub mod Invariant
pub mod Exit
use chaos_forger.Prelude.{◌≡◌, Bool, true, false, Option, none, some}
use chaos_forger.Shutdown.{ShutdownState, StopReason, internal, initial, request, request_signal}

pub data Signal : Type 0 where
  sigint sigterm : Signal

pub record Pending : Type 0 where
  pub int : Bool
  pub term : Bool

abbrev pub is_pending : Signal → Pending → Bool
is_pending sigint p = p.int
is_pending sigterm p = p.term

-- A signal that is pending already is not counted twice.
abbrev pub raised : Signal → Pending → Pending
raised sigint p = record p { int = true }
raised sigterm p = record p { term = true }

abbrev pub taken : Signal → Pending → Pending
taken sigint p = record p { int = false }
taken sigterm p = record p { term = false }

-- Where the listener stands in `signal_listener_main`.
pub data Listener : Type 0 where
  absent : Listener  -- not spawned
  waiting : Listener  -- in `sigwait`
  caught : Signal → Listener  -- before the store of `g_signal_received`
  stored : Listener  -- before `request_signal`
  done : Listener

-- Where `main` stands, with `signalled` where it is live.
pub data Place : Type 0 where
  starting : Place  -- before `spawn_signal_listener`
  scheduling : Place  -- in `run_until_shutdown`
  stopping : Place  -- before the load of `g_signal_received`
  reporting : Option Signal → Place  -- before the `kill` of `join_signal_listener`
  joining : Option Signal → Place  -- in `join`
  leaving : Option Signal → Place  -- behind `join_signal_listener`

-- `received` is `g_signal_received`, with `none` for 0.
pub record Process : Type 0 where
  pub pending : Pending
  pub received : Option Signal
  pub started : Bool
  pub shutdown : ShutdownState
  pub listener : Listener
  pub place : Place

-- The listener's turn.
pub data Listens (s : Process) : Process → Type 0 where
  take :
      (sig : Signal)
      → s.listener ≡ waiting
      → is_pending sig s.pending ≡ true
      → Listens s (record s { pending = taken sig s.pending; listener = caught sig })
  store :
      (sig : Signal)
      → s.listener ≡ caught sig
      → Listens s (record s { received = some sig; listener = stored })
  announce :
      s.listener ≡ stored
      → Listens s (record s { shutdown = request_signal s.shutdown; listener = done })

-- The turn of `main`.
pub data Goes (s : Process) : Process → Type 0 where
  spawn :
      s.place ≡ starting
      → Goes s (record s { started = true; listener = waiting; place = scheduling })
  stop : s.place ≡ scheduling → s.shutdown.state ≡ true → Goes s (record s { place = stopping })
  load : s.place ≡ stopping → Goes s (record s { place = reporting s.received })
  wake :
      (signalled : Option Signal)
      → s.place ≡ reporting signalled
      → s.started ≡ true
      → Goes s (record s { pending = raised sigterm s.pending; place = joining signalled })
  join :
      (signalled : Option Signal)
      → s.place ≡ joining signalled
      → s.listener ≡ done
      → Goes s (record s { started = false; place = leaving signalled })

pub data Turn (s : Process) : Process → Type 0 where
  listens : {t : Process} → Listens s t → Turn s t
  goes : {t : Process} → Goes s t → Turn s t

-- A signal from outside, or a request to stop of another kind, which `ShutdownState` reserves for
-- the future.
pub data Event (s : Process) : Process → Type 0 where
  arrive : (sig : Signal) → Event s (record s { pending = raised sig s.pending })
  other : Event s (record s { shutdown = request internal s.shutdown })

pub data Step (s : Process) : Process → Type 0 where
  turn : {t : Process} → Turn s t → Step s t
  event : {t : Process} → Event s t → Step s t

abbrev pub launch : Process
launch = record {
  pending = record { int = false; term = false };
  received = none;
  started = false;
  shutdown = initial;
  listener = absent;
  place = starting;
}

pub data Reach : Process → Type 0 where
  at_launch : Reach launch
  later : {s t : Process} → Reach s → Step s t → Reach t
