-- ===== src/Main/Wiring/Traffic.antt =====
-- What the daemon is sent by a run that touches no container.
use chaos_forger.Prelude.{ℕ, ◌≡◌, ◌++◌, ◌⊎◌, [], Bytes, text, take}
use chaos_forger.Double.{Double, Random}
use chaos_forger.Docker.Paths.{containers_json_path, ping_path}
use chaos_forger.Http.Client.{build_http_request}
use chaos_forger.Http.UnixSocket.{SystemCalls}
use chaos_forger.Http.UnixSocket.Laws.{View}
use chaos_forger.Http.UnixSocket.Wired.{UnixSocketTransport}
use chaos_forger.Main.Wiring.{unix_platform}

-- The two requests that only ask.
abbrev pub IsQuestion : Bytes → Type 0
IsQuestion wire =
    (wire ≡ build_http_request (text "GET") ping_path [])
    ⊎ (wire ≡ build_http_request (text "GET") containers_json_path [])

-- The second text is the first one with first bytes of such requests behind it.
pub data Asked (before : Bytes) : Bytes → Type 0 where
  nothing : {after : Bytes} → after ≡ before → Asked before after
  question :
      {sofar after : Bytes} (wire : Bytes) (k : ℕ)
      → Asked before sofar
      → IsQuestion wire
      → after ≡ sofar ++ take k wire
      → Asked before after

module _ (d : Double) (r : Random d) (sys : SystemCalls) (v : View sys) (reads : ℕ) where
  abbrev program : chaos_forger.Engine.State.Platform
  program = unix_platform d r sys v.interruptions reads

  -- Of the connections: what the peers have been sent in all.
  abbrev HasAsked : Bytes → UnixSocketTransport sys → Type 0
  HasAsked before c = Asked before (v.outgoing c.socket.world)
