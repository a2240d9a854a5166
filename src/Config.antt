-- ===== src/Config.antt =====
-- include/forger/config.hpp: the configuration model.
pub mod Words
pub mod Validate
pub mod Ranges
pub mod SafeDefault
pub mod Load
use chaos_forger.Prelude.{Bool, List, Bytes, text, ℤ}
use chaos_forger.Double.{Double}

pub data Action : Type 0 where
  stop kill : Action

unfoldable pub action_name : Action → Bytes
action_name stop = text "stop"
action_name kill = text "kill"

pub record TargetRule : Type 0 where
  pub name_match : Bytes
  pub action : Action

pub record Config (d : Double) : Type 0 where
  pub interval_seconds : ℤ
  pub chaos_probability : d.Carrier
  pub docker_socket : Bytes
  pub stop_timeout_seconds : ℤ
  pub dry_run : Bool
  pub max_actions_per_cycle : ℤ
  pub max_actions_per_run : ℤ
  pub log_level : Bytes
  pub targets : List TargetRule
