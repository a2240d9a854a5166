-- ===== src/Docker/Paths.antt =====
-- The pure helpers of src/docker_api.cpp: container ids, names and request targets.
pub mod Wire
use chaos_forger.Prelude.{
  ℕ, Bool, true, false, ◌&&◌, ◌||◌, [], ◌∷◌, ◌++◌, Option, none, some, Bytes, text, length, ◌==◌,
  within, if◌then◌else◌, ℤ, pos, ltb_ℤ, show_int,
}

abbrev pub docker_api_version : Bytes
docker_api_version = text "v1.41"

-- The loop over the characters of the id.
unfoldable pub all_hex : Bytes → Bool
all_hex [] = true
all_hex (c ∷ cs) = (within b'0' b'9' c || (within b'a' b'f' c || within b'A' b'F' c)) && all_hex cs

unfoldable pub is_valid_container_id : Bytes → Bool
unfolding all_hex
is_valid_container_id id = length id == 64 && all_hex id

pub containers_json_path : Bytes
containers_json_path = text "/" ++ (docker_api_version ++ text "/containers/json?all=false")

unfoldable pub normalize_container_name : Bytes → Bytes
normalize_container_name [] = []
normalize_container_name (c ∷ cs) =
    let rest = normalize_container_name cs in if c == b'/' then rest else c ∷ cs

unfoldable pub stop_container_path : Bytes → ℤ → Option Bytes
stop_container_path id timeout_seconds =
    if is_valid_container_id id
    then if ltb_ℤ timeout_seconds (pos 1) || ltb_ℤ (pos 600) timeout_seconds
      then none
      else some (
          text "/"
          ++ (docker_api_version
              ++ (text "/containers/" ++ (id ++ (text "/stop?t=" ++ show_int timeout_seconds)))))
    else none

unfoldable pub kill_container_path : Bytes → Option Bytes
kill_container_path id =
    if is_valid_container_id id
    then some (
        text "/"
        ++ (docker_api_version ++ (text "/containers/" ++ (id ++ text "/kill?signal=SIGKILL"))))
    else none

pub ping_path : Bytes
ping_path = text "/_ping"
