-- ===== src/Main/Run/Refusal.antt =====
-- The exits of the program with the code 1.
use chaos_forger.Prelude.{
  ◌≡◌, refl, sym, Bool, true, false, List, [], ◌∷◌, ◌++◌, append_assoc, ◌⊎◌, inl, inr, Option, none,
  some, Bytes, Result, ok, err,
}
use chaos_forger.Log.{LogLevel, error}
use chaos_forger.Config.{Config}
use chaos_forger.Engine.State.{Platform}
use chaos_forger.Main.Args.{
  Options, Stop, usage, printed_version, missing_value, unknown_argument, Parsed, proceed, leave,
  parse_args, defaults,
}
use chaos_forger.Main.Report.{Environment, Lines, socket_errors}
use chaos_forger.Main.Run.{
  Exit, left_at_arguments, serve, after_ping, after_signals, after_socket, after_level, after_load,
  after_arguments, main,
}

-- The last line is an ERROR.
abbrev pub Reported : Lines → Type 0
Reported lines = (before : Lines) × (message : Bytes) × (lines ≡ before ++ (error, message) ∷ [])

Reported-two :
    (lines : Lines) (line : LogLevel × Bytes) (message : Bytes)
    → Reported (lines ++ line ∷ (error, message) ∷ [])
Reported-two lines line message =
    (lines ++ line ∷ [], message, sym (append_assoc lines (line ∷ []) ((error, message) ∷ [])))

module _ (p : Platform) (env : Environment p) where
  -- No client was made, or one that has made its ping and no other call.
  abbrev pub Untouched : Option p.docker_api.Client → Type 0
  Untouched docker =
      (docker ≡ none)
      ⊎ ((path : Bytes) × (docker ≡ some (p.docker_api.ping (env.client_for path)).1))

  abbrev pub Ended : Exit p → Type 0
  Ended x = (x.code ≡ 0) ⊎ ((x.code ≡ 1) × Reported x.logged × Untouched x.docker)

  left_at_arguments-Ended : (why : Stop) → Ended (left_at_arguments p env why)
  unfolding left_at_arguments
  left_at_arguments-Ended usage = inl refl
  left_at_arguments-Ended printed_version = inl refl
  left_at_arguments-Ended missing_value = inr (refl, ([], _, refl), inl refl)
  left_at_arguments-Ended (unknown_argument arg) = inr (refl, ([], _, refl), inl refl)

  module _ (o : Options) where
    serve-Ended :
        (cfg : Config p.double) (b : Bool) (lines : Lines) (docker : p.docker_api.Client)
        → Ended (serve p env o cfg b lines docker)
    unfolding serve
    serve-Ended cfg b lines docker = inl refl

    after_ping-Ended :
        (cfg : Config p.double) (b : Bool) (lines : Lines) (path : Bytes)
        (answer : Result (Unit {0}))
        → Ended
            (after_ping p env o cfg b lines (answer, (p.docker_api.ping (env.client_for path)).1))
    unfolding after_ping
    after_ping-Ended cfg b lines path (err e) = inr (refl, (lines, _, refl), inr (path, refl))
    after_ping-Ended cfg b lines path (ok _) = serve-Ended cfg b _ _

    after_signals-Ended :
        (cfg : Config p.double) (b : Bool) (lines : Lines) (blocked : Result (Unit {0}))
        → Ended (after_signals p env o cfg b lines blocked)
    unfolding after_signals
    after_signals-Ended cfg b lines (err e) = inr (refl, (lines, _, refl), inl refl)
    after_signals-Ended cfg b lines (ok _) =
        after_ping-Ended cfg b _ cfg.docker_socket
          (p.docker_api.ping (env.client_for cfg.docker_socket)).0

    -- The errors of the socket end with one.
    after_socket-Ended :
        (cfg : Config p.double) (b : Bool) (lines : Lines) (path : Bytes) (found : Result Bool)
        → Ended (after_socket p env o cfg b lines (socket_errors p path found))
    unfolding after_socket socket_errors
    after_socket-Ended cfg b lines path (ok true) =
        after_signals-Ended cfg b lines env.block_signals
    after_socket-Ended cfg b lines path (ok false) = inr (refl, (lines, _, refl), inl refl)
    after_socket-Ended cfg b lines path (err e) = inr (refl, Reported-two lines _ _, inl refl)

    after_level-Ended :
        (lines : Lines) (chosen : Result (Config p.double × Bool))
        → Ended (after_level p env o lines chosen)
    unfolding after_level
    after_level-Ended lines (err e) = inr (refl, (lines, _, refl), inl refl)
    after_level-Ended lines (ok (cfg, b)) =
        after_socket-Ended cfg b lines cfg.docker_socket (env.stat cfg.docker_socket)

    after_load-Ended :
        (loaded : Result (Config p.double × List Bytes)) → Ended (after_load p env o loaded)
    unfolding after_load
    after_load-Ended (err e) = inr (refl, ([], _, refl), inl refl)
    after_load-Ended (ok (cfg, warnings)) = after_level-Ended _ _

  after_arguments-Ended : (parsed : Parsed) → Ended (after_arguments p env parsed)
  unfolding after_arguments
  after_arguments-Ended (leave why) = left_at_arguments-Ended why
  after_arguments-Ended (proceed o) = after_load-Ended o _

-- The program ends with the code 0, or with the code 1: then the last line that it has logged is
-- an ERROR, and it has made no call of the Docker client but, where it came so far, the ping.
pub main-Ended :
    (p : Platform) (env : Environment p) (args : List Bytes) → Ended p env (main p env args)
unfolding main
main-Ended p env args = after_arguments-Ended p env (parse_args args defaults)
