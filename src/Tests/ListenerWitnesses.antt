-- ===== src/Tests/ListenerWitnesses.antt =====
-- The theorems about the end of `main` and its listener, on a run that SIGINT ends.
use chaos_forger.Prelude.{◌≡◌, refl, true, false, some}
use chaos_forger.Shutdown.{signal, request, request_signal}
use chaos_forger.Main.Listener.{
  sigint, Process, done, take, store, announce, spawn, stop, load, wake, join, scheduling, leaving,
  listens, goes, turn, event, arrive, Reach, at_launch, later,
}
use chaos_forger.Main.Listener.Invariant.{is_some}
use chaos_forger.Main.Listener.Exit.{main-reported, Ends, main-Ends}

-- The signal is caught, stored and announced.
abbrev announced : Process
announced = record {
  pending = record { int = false; term = false };
  received = some sigint;
  started = true;
  shutdown = record { state = true; reason = signal };
  listener = done;
  place = scheduling;
}

announced-Reach : Reach announced
unfolding request request_signal
announced-Reach =
    later
      (later
        (later (later (later at_launch (turn (goes (spawn refl)))) (event (arrive sigint)))
          (turn (listens (take sigint refl refl))))
        (turn (listens (store sigint refl))))
      (turn (listens (announce refl)))

-- `main` has joined; the signal that was to wake the listener stays pending.
abbrev joined : Process
joined = record announced {
  pending = record { int = false; term = true };
  started = false;
  place = leaving (some sigint);
}

joined-Reach : Reach joined
joined-Reach =
    later
      (later
        (later (later announced-Reach (turn (goes (stop refl refl)))) (turn (goes (load refl))))
        (turn (goes (wake (some sigint) refl refl))))
      (turn (goes (join (some sigint) refl refl)))

main-reported_example :
    (is_some (some sigint) ≡ true) × (joined.shutdown.state ≡ true) × (joined.listener ≡ done)
main-reported_example = main-reported (some sigint) joined-Reach refl refl

main-Ends_example : Ends 8 announced
main-Ends_example = main-Ends announced-Reach refl
