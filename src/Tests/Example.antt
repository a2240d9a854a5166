-- ===== src/Tests/Example.antt =====
-- A concrete platform and engine on which the theorems about the engine are applied: hundredths for
-- `double`, a counter for the generator, and a daemon with three containers that accepts every
-- strike and keeps the ids it was asked to stop or kill.
use chaos_forger.Prelude.{
  ℕ, ◌+◌, ◌%◌, ◌/◌, ◌*◌, ◌==◌, refl, Bool, true, false, List, [], ◌∷◌, ◌++◌, none, Bytes, text, pos,
  ltb, to_string, arith, ok,
}
use mathlib.Core.Option
use chaos_forger.Http.Parser.Headers.Numbers.{all_digits}
use chaos_forger.Double.{Double, DoubleLaws, CastLaws, Random, RandomLaws}
use chaos_forger.Config.{stop, kill, TargetRule, Config}
use chaos_forger.Docker.Api.{Container, Strike, IDockerClient}
use chaos_forger.Docker.Paths.{all_hex, is_valid_container_id}
use chaos_forger.Docker.Paths.Wire.{IsContainerId, is_valid_container_id_iff}
use chaos_forger.Shutdown.{initial}
use chaos_forger.Engine.State.{Platform, ChaosEngine, construct}

abbrev pub hundredths : Double
hundredths = record {
  Carrier = ℕ;
  lt = ltb;
  isnan = λ _. false;
  zero = 0;
  one = 100;
  is_integral = λ v. v % 100 == 0;
  isfinite = λ _. true;
  literal = λ n. 100 * n;
  to_integer = λ v. pos (v / 100);
  stod = λ s. Option.map (λ n. 100 * n) (all_digits s);
  general = to_string;
  fixed2 = to_string;
}

pub hundredths-DoubleLaws : DoubleLaws hundredths
hundredths-DoubleLaws = record {
  lt-irrefl = λ a. ground arith;
  not-one-lt-zero = refl;
  zero-not_nan = refl;
  one-not_nan = refl;
}

abbrev pub counter : Random hundredths
counter = record { State = ℕ; uniform = λ s. (s % 100, s + 37) }

pub counter-RandomLaws : RandomLaws counter
counter-RandomLaws = record { not-lt-zero = λ s. ground arith; lt-one = λ s. ground arith }

pub hundredths-CastLaws : CastLaws hundredths
hundredths-CastLaws = record {
  to_integer-between =
      λ a b v _ _ whole h k. (v / 100, refl, λ j small. (ground arith, ground arith));
}

-- A container with one name and an id of the 64 given digits.
abbrev pub container : ℕ → Bytes → Container
container digit name = record {
  id = digit ∷ [];
  names = name ∷ [];
  image = text "nginx";
  state = text "running";
  status = text "Up 2 hours";
}

abbrev pub fleet : List Container
fleet =
    container b'1' (text "web-1")
    ∷ container b'2' (text "db-1")
    ∷ container b'3' (text "web-2")
    ∷ []

abbrev pub done_strike : Strike
done_strike = record { ok = true; err = []; http_status = 204 }

abbrev pub daemon : IDockerClient
daemon = record {
  Client = List Bytes;
  list_containers = λ c. (ok fleet, c);
  stop_container = λ id t c. (done_strike, id ∷ c);
  kill_container = λ id c. (done_strike, id ∷ c);
  ping = λ c. (ok tt, c);
}

abbrev pub platform : Platform
platform = record { double = hundredths; random = counter; docker_api = daemon }

abbrev pub web_rule : TargetRule
web_rule = record { name_match = text "web"; action = kill }

abbrev pub db_rule : TargetRule
db_rule = record { name_match = text "db"; action = stop }

abbrev pub settings : ℕ → Bool → Config hundredths
settings probability dry_run = record {
  interval_seconds = pos 30;
  chaos_probability = probability;
  docker_socket = text "/var/run/docker.sock";
  stop_timeout_seconds = pos 10;
  dry_run = dry_run;
  max_actions_per_cycle = pos 2;
  max_actions_per_run = pos 3;
  log_level = text "info";
  targets = web_rule ∷ db_rule ∷ [];
}

-- An engine whose gate opens on every tick, with a cap of 2 strikes a tick and 3 a run.
unfoldable pub armed_engine : ChaosEngine platform
unfolding construct
armed_engine = construct platform (settings 100 false) false none 5 [] initial []

-- The same engine under a probability of 0.0.
unfoldable pub calm_engine : ChaosEngine platform
unfolding construct
calm_engine = construct platform (settings 0 false) false none 5 [] initial []

abbrev pub sixteen : Bytes
sixteen =
    b'0' ∷ b'1' ∷ b'2' ∷ b'3' ∷ b'4' ∷ b'5' ∷ b'6' ∷ b'7' ∷ b'8' ∷ b'9' ∷ b'a' ∷ b'b' ∷ b'c' ∷ b'd'
    ∷ b'e' ∷ b'f' ∷ []

-- A well-formed id.
abbrev pub full_id : Bytes
full_id = sixteen ++ (sixteen ++ (sixteen ++ sixteen))

pub full_id-IsContainerId : IsContainerId full_id
unfolding is_valid_container_id all_hex
full_id-IsContainerId = (is_valid_container_id_iff full_id).0 refl
