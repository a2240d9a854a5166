-- ===== src/Docker/Api.antt =====
-- The container as the engine sees it, and `IDockerClient`, the interface between the two.
use chaos_forger.Prelude.{ℕ, Bool, List, Bytes, Result, ℤ}

pub record Container : Type 0 where
  pub id : Bytes
  pub names : List Bytes
  pub image : Bytes
  pub state : Bytes
  pub status : Bytes

-- What `stop_container` and `kill_container` hand back: the result, `err` and `*http_status`.
pub record Strike : Type 0 where
  pub ok : Bool
  pub err : Bytes
  pub http_status : ℕ

-- `Client` is the state that the calls change: the connection and the daemon behind it.
pub record IDockerClient : Type 1 where
  pub Client : Type 0
  pub list_containers : Client → Result (List Container) × Client
  pub stop_container : Bytes → ℤ → Client → Strike × Client
  pub kill_container : Bytes → Client → Strike × Client
  pub ping : Client → Result (Unit {0}) × Client
