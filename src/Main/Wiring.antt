-- ===== src/Main/Wiring.antt =====
-- The program with its own client: `main` of main.cpp over `DockerClient` over
-- `UnixSocketTransport`.
pub mod Descriptors
pub mod Traffic
use chaos_forger.Prelude.{ℕ, [], Bytes, pos}
use chaos_forger.Double.{Double, Random}
use chaos_forger.Docker.Client.{Session, docker_client}
use chaos_forger.Engine.State.{Platform}
use chaos_forger.Http.UnixSocket.{SystemCalls}
use chaos_forger.Http.UnixSocket.Wired.{make_unique, unix_socket_factory, unix_transport}

module _ (d : Double) (r : Random d) (sys : SystemCalls) (interruptions : sys.World → ℕ)
    (reads : ℕ) where
  abbrev pub unix_platform : Platform
  unix_platform = record {
    double = d;
    random = r;
    docker_api = docker_client d (unix_transport sys interruptions) (unix_socket_factory sys) reads;
  }

  -- `DockerClient docker(unix_socket_factory(cfg.docker_socket))`, with the factory's time-out of
  -- five seconds.
  unfoldable pub new_client :
      Bytes
      → sys.World
      → Session d (unix_transport sys interruptions) (unix_socket_factory sys) reads
  unfolding make_unique
  new_client path w = record { peer = make_unique sys path (pos 5) w; logged = [] }
