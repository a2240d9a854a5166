-- ===== src/Main/Wiring/Descriptors.antt =====
-- The descriptors of a whole run.
use chaos_forger.Prelude.{ℕ, ◌≡◌, refl, sym, subst, List, none, [], Bytes}
use chaos_forger.Double.{Double, Random}
use chaos_forger.Engine.State.{Platform, construct}
use chaos_forger.Engine.ClientInvariant
use chaos_forger.Engine.ClientInvariant.{tick-Holds}
use chaos_forger.Docker.Client.Connections.{docker_client-IsKept}
use chaos_forger.Http.Client.Lifecycle.{request-AllDown}
use chaos_forger.Http.UnixSocket.{SystemCalls}
use chaos_forger.Http.UnixSocket.Laws.{View, SystemLaws}
use chaos_forger.Http.UnixSocket.Wired.{make_unique, unix_socket_factory, unix_transport}
use chaos_forger.Http.UnixSocket.Wired.Balance.{IsUp, IsDown, unix_transport-Lifecycle}
use chaos_forger.Main.Report.{Environment}
use chaos_forger.Main.Run.{main}
use chaos_forger.Main.Run.Induction.{Of, serve-Of, main-Of}
use chaos_forger.Main.Wiring.{unix_platform, new_client}

-- What every call of the client preserves of a new client holds of it at the exit.
pub main-kept :
    (p : Platform) (P : p.docker_api.Client → Type 0) (env : Environment p) (args : List Bytes)
    → ClientInvariant.IsKept p.docker_api P
    → ((path : Bytes) → P (env.client_for path))
    → Of P (main p env args).docker
unfolding construct
main-kept p P env args kept fresh =
    main-Of p P env kept.by_ping fresh args (λ o _ cfg b lines docker h.
      serve-Of p (λ e. P e.docker)
        (record { by_tick = tick-Holds p P kept; by_world = λ e sh bs l k. k }) P (λ e k. k) env o
        cfg b lines docker h)

-- Over system calls that behave as the laws say, a run of the program with its own client, live or
-- not, up to any exit, leaves the client without a socket, and as many descriptors open as there
-- were when the client was made.
pub main-Balanced :
    (d : Double) (r : Random d) (sys : SystemCalls) (v : View sys) (reads : ℕ) (w : sys.World)
    (env : Environment (unix_platform d r sys v.interruptions reads)) (args : List Bytes)
    → SystemLaws sys v
    → ((path : Bytes) → env.client_for path ≡ new_client d r sys v.interruptions reads path w)
    → Of
        (λ (s : (unix_platform d r sys v.interruptions reads).docker_api.Client).
          (s.peer.socket.fd ≡ none) × (v.descriptors s.peer.socket.world ≡ v.descriptors w))
        (main (unix_platform d r sys v.interruptions reads) env args).docker
unfolding new_client make_unique
main-Balanced d r sys v reads w env args laws made =
    let t = unix_transport sys v.interruptions in
    let n = v.descriptors w in
    let Down = IsDown sys v laws n in
    main-kept (unix_platform d r sys v.interruptions reads) _ env args
      (docker_client-IsKept d t (unix_socket_factory sys) reads Down (λ method path c h.
        request-AllDown t _ Down (IsUp sys v laws n) (IsUp sys v laws n) Down
          (unix_transport-Lifecycle sys v laws n _) reads method path [] (unix_socket_factory sys c)
          refl (unfold unix_socket_factory in (refl, h.1))))
      (λ path. subst (λ s. Down s.peer) (sym (made path)) (refl, refl))
