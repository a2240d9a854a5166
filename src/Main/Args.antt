-- ===== src/Main/Args.antt =====
-- The options of `main`, from the arguments behind `argv[0]`.
pub mod Given
use chaos_forger.Prelude.{
  ℕ, Bool, true, false, ◌||◌, List, [], ◌∷◌, Bytes, text, same, if◌then◌else◌,
}

pub record Options : Type 0 where
  pub config_path : Bytes
  pub once : Bool
  pub dry_run_flag : Bool
  pub discover_flag : Bool

abbrev pub defaults : Options
defaults = record {
  config_path = text "config.json";
  once = false;
  dry_run_flag = false;
  discover_flag = false;
}

pub data Flag : Type 0 where
  config once dry_run discover help version unknown : Flag

unfoldable pub flag_of : Bytes → Flag
flag_of arg =
    if same arg (text "-c") || same arg (text "--config")
    then config
    else if same arg (text "-o") || same arg (text "--once")
    then once
    else if same arg (text "-n") || same arg (text "--dry-run")
    then dry_run
    else if same arg (text "-d") || same arg (text "--discover")
    then discover
    else if same arg (text "-h") || same arg (text "--help")
    then help
    else if same arg (text "-v") || same arg (text "--version")
    then version
    else unknown

-- Why the program ends at its arguments: the usage is printed, or the version, or an error is
-- logged (and the usage printed, for an argument that is not known).
pub data Stop : Type 0 where
  usage printed_version missing_value : Stop
  unknown_argument : Bytes → Stop

abbrev pub exit_code : Stop → ℕ
exit_code usage = 0
exit_code printed_version = 0
exit_code _ = 1

pub data Parsed : Type 0 where
  proceed : Options → Parsed
  leave : Stop → Parsed

-- The loop over `argv`. An option that takes the next argument skips it.
unfoldable pub parse_args : List Bytes → Options → Parsed
unfolding flag_of
parse_args [] o = proceed o
parse_args (arg ∷ []) o = elim (flag_of arg) [
  | config ↦ leave missing_value
  | once ↦ proceed (record o { once = true })
  | dry_run ↦ proceed (record o { dry_run_flag = true })
  | discover ↦ proceed (record o { discover_flag = true })
  | help ↦ leave usage
  | version ↦ leave printed_version
  | unknown ↦ leave (unknown_argument arg)
]
parse_args (arg ∷ next ∷ more) o = elim (flag_of arg) [
  | config ↦ parse_args more (record o { config_path = next })
  | once ↦ parse_args (next ∷ more) (record o { once = true })
  | dry_run ↦ parse_args (next ∷ more) (record o { dry_run_flag = true })
  | discover ↦ parse_args (next ∷ more) (record o { discover_flag = true })
  | help ↦ leave usage
  | version ↦ leave printed_version
  | unknown ↦ leave (unknown_argument arg)
]
