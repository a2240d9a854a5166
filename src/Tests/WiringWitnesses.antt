-- ===== src/Tests/WiringWitnesses.antt =====
-- The theorems about the program with its own client, over the system of the socket's witnesses: it
-- answers each request with an empty list.
use chaos_forger.Prelude.{◌≡◌, refl, true, [], ◌∷◌, none, some, text, ok}
use chaos_forger.Shutdown.{signal}
use chaos_forger.Engine.State.{Platform}
use chaos_forger.Main.Report.{Environment}
use chaos_forger.Main.Run.{main}
use chaos_forger.Main.Run.Induction.{Of}
use chaos_forger.Main.Wiring.{unix_platform, new_client}
use chaos_forger.Main.Wiring.Descriptors.{main-Balanced}
use chaos_forger.Tests.Documents.{document_text}
use chaos_forger.Tests.Example.{hundredths, counter}
use chaos_forger.Tests.SocketWitnesses.{System, calls, view, calls-SystemLaws}

abbrev quiet : System
quiet = record { interruptions = 2; descriptors = 5; outgoing = [] }

abbrev program : Platform
program = unix_platform hundredths counter calls view.interruptions 9

-- The file arms the daemon; the second round ends the program.
abbrev environment : Environment program
environment = record {
  open_file = λ path. ok document_text;
  level_variable = some (text "debug");
  stat = λ path. ok true;
  block_signals = ok tt;
  client_for = λ path. new_client hundredths counter calls view.interruptions 9 path quiet;
  seed = 5;
  default_probability = 30;
  version = text "1.0.0";
  argv0 = text "Chaos_Forger";
  arrivals = [];
  started = 0;
  rounds =
      record { now = 7; behind = 8; reset = 9; requests = [] }
      ∷ record { now = 10; behind = 0; reset = 0; requests = signal ∷ [] }
      ∷ [];
  by_sigint = true;
}

main-Balanced_example :
    Of
      (λ (s : program.docker_api.Client).
        (s.peer.socket.fd ≡ none) × (view.descriptors s.peer.socket.world ≡ 5))
      (main program environment []).docker
main-Balanced_example =
    main-Balanced hundredths counter calls view 9 quiet environment [] calls-SystemLaws
      (λ path. refl)
