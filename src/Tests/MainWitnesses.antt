-- ===== src/Tests/MainWitnesses.antt =====
-- The theorems about the program as a whole, over a daemon that keeps the ids it was asked to strike.
use chaos_forger.Prelude.{
  ◌≡◌, refl, true, List, [], ◌∷◌, some, Bytes, text, ok, All, inl, inr, arith,
}
use chaos_forger.Shutdown.{signal}
use chaos_forger.Main.Args.Given.{HasHarmlessOption}
use chaos_forger.Main.Scheduler.{Round, interval, run_until_shutdown}
use chaos_forger.Main.Scheduler.Rate.{IsMonotone, Spaced, NoBurst, run_until_shutdown-Spaced}
use chaos_forger.Main.Report.{Environment}
use chaos_forger.Main.Run.{main}
use chaos_forger.Main.Run.Refusal.{Ended, main-Ended}
use chaos_forger.Main.Run.Passive.{main-Harmless}
use chaos_forger.Main.Run.Induction.{Of}
use chaos_forger.Tests.Documents.{document_text}
use chaos_forger.Tests.Example.{platform, counter-RandomLaws, armed_engine}

-- The file arms the daemon; the second round ends the program.
abbrev environment : Environment platform
environment = record {
  open_file = λ path. ok document_text;
  level_variable = some (text "debug");
  stat = λ path. ok true;
  block_signals = ok tt;
  client_for = λ path. [];
  seed = 5;
  default_probability = 30;
  version = text "1.0.0";
  argv0 = text "Chaos_Forger";
  arrivals = [];
  started = 0;
  rounds =
      record { now = 7; behind = 8; reset = 9; requests = [] }
      ∷ record { now = 10; behind = 0; reset = 0; requests = signal ∷ [] }
      ∷ [];
  by_sigint = true;
}

-- `--dry-run`, with another option behind it.
abbrev pub arguments : List Bytes
arguments = text "--dry-run" ∷ text "--once" ∷ []

pub dry_run_given : HasHarmlessOption arguments
dry_run_given = inl (inl (inr refl))

main-Harmless_example : Of (λ struck. struck ≡ []) (main platform environment arguments).docker
main-Harmless_example =
    main-Harmless platform counter-RandomLaws (λ struck. struck ≡ []) environment arguments
      (λ c h. h) (λ c h. h) (λ path. refl) dry_run_given

-- The first tick is late, behind a stall of a minute and a half the schedule starts anew.
abbrev stalled : List Round
stalled =
    record { now = 5; behind = 90000000000; reset = 90000000001; requests = [] }
    ∷ record { now = 90000000002; behind = 90000000003; reset = 90000000003; requests = [] }
    ∷ record { now = 100000000000; behind = 100000000000; reset = 100000000000; requests = [] }
    ∷ []

stalled-IsMonotone : All IsMonotone stalled
stalled-IsMonotone = omega arith

run_until_shutdown-Spaced_example :
    let ticked = (run_until_shutdown platform 0 stalled armed_engine).ticked in
    Spaced 0 (interval platform armed_engine) ticked
    × NoBurst (interval platform armed_engine) ticked
run_until_shutdown-Spaced_example =
    run_until_shutdown-Spaced platform 0 stalled armed_engine stalled-IsMonotone

-- No argument follows the option.
main-Ended_example : Ended platform environment (main platform environment (text "--config" ∷ []))
main-Ended_example = main-Ended platform environment (text "--config" ∷ [])
