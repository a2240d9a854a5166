-- ===== src/Docker/Paths/Wire.antt =====
-- Only well-formed ids and time-outs reach a request target.
use chaos_forger.Prelude.{
  ℕ, suc, ◌+◌, ◌-◌, ◌<◌, Bool, ◌||◌, ◌≡◌, ◌≢◌, refl, ◌↔◌, ◌⊎◌, inl, inr, true, [], ◌∷◌, ◌++◌, some,
  Bytes, text, length, All, ◌==◌, within, Bool-cases, arith, ℤ, pos, negsuc, show_int, to_string,
  ◌≤ℤ◌, All-append, All-map, to_string-digits, ap,
}
use chaos_forger.Docker.Paths.{
  docker_api_version, all_hex, is_valid_container_id, normalize_container_name, stop_container_path,
  kill_container_path,
}

-- The code of a hexadecimal digit, with its value.
pub data HexDigit (c : ℕ) : Type 0 where
  decimal : (value : ℕ) → value < 10 → c ≡ 48 + value → HexDigit c
  lower_case : (value : ℕ) → value < 6 → c ≡ 97 + value → HexDigit c
  upper_case : (value : ℕ) → value < 6 → c ≡ 65 + value → HexDigit c

-- 64 hexadecimal digits.
abbrev pub IsContainerId : Bytes → Type 0
IsContainerId id = (length id ≡ 64) × All HexDigit id

abbrev in_ranges : ℕ → Bool
in_ranges c = within b'0' b'9' c || (within b'a' b'f' c || within b'A' b'F' c)

HexDigit-of_ranges : (c : ℕ) → in_ranges c ≡ true → HexDigit c
HexDigit-of_ranges c h = elim (Bool-cases (within b'0' b'9' c)) [
  | inl digit ↦ decimal (c - 48) (ground arith) (ground arith)
  | inr other ↦ elim (Bool-cases (within b'a' b'f' c)) [
    | inl lower ↦ lower_case (c - 97) (ground arith) (ground arith)
    | inr upper ↦ upper_case (c - 65) (ground arith) (ground arith)
  ]
]

HexDigit-ranges : (c : ℕ) → HexDigit c → in_ranges c ≡ true
HexDigit-ranges c (decimal v small e) = ground arith
HexDigit-ranges c (lower_case v small e) = ground arith
HexDigit-ranges c (upper_case v small e) = ground arith

all_hex-All : (id : Bytes) → (all_hex id ≡ true) ↔ All HexDigit id
unfolding all_hex
all_hex-All [] = (λ _. tt, λ _. refl)
all_hex-All (c ∷ cs) =
    let (there, back) = all_hex-All cs in
    (
      λ h. (HexDigit-of_ranges c (ground arith), there (ground arith)),
      λ h. let t = back h.1 in let u = HexDigit-ranges c h.0 in ground arith,
    )

pub is_valid_container_id_iff : (id : Bytes) → (is_valid_container_id id ≡ true) ↔ IsContainerId id
unfolding is_valid_container_id
is_valid_container_id_iff id =
    let (there, back) = all_hex-All id in
    (λ h. (ground arith, there (ground arith)), λ h. let t = back h.1 in ground arith)

abbrev pub stop_target : Bytes → ℤ → Bytes
stop_target id t =
    text "/"
    ++ (docker_api_version ++ (text "/containers/" ++ (id ++ (text "/stop?t=" ++ show_int t))))

abbrev pub kill_target : Bytes → Bytes
kill_target id =
    text "/" ++ (docker_api_version ++ (text "/containers/" ++ (id ++ text "/kill?signal=SIGKILL")))

-- `stop_container_path` gives a target exactly for a well-formed id and a time-out of [1, 600],
-- and then the documented one.
pub stop_container_path_iff :
    (id : Bytes) (t : ℤ) (path : Bytes)
    → (stop_container_path id t ≡ some path)
      ↔ (IsContainerId id × (pos 1 ≤ℤ t) × (t ≤ℤ pos 600) × (path ≡ stop_target id t))
unfolding stop_container_path
stop_container_path_iff id t path = (
  λ e. ground (arith, (is_valid_container_id_iff id).0),
  λ h. ground (arith, (is_valid_container_id_iff id).1 h.0),
)

-- `kill_container_path` gives a target exactly for a well-formed id.
pub kill_container_path_iff :
    (id path : Bytes)
    → (kill_container_path id ≡ some path) ↔ (IsContainerId id × (path ≡ kill_target id))
unfolding kill_container_path
kill_container_path_iff id path = (
  λ e. ground (arith, (is_valid_container_id_iff id).0),
  λ h. ground (arith, (is_valid_container_id_iff id).1 h.0),
)

-- A visible ASCII character: no space, no CR or LF, no control byte.
abbrev pub IsVisible : ℕ → Type 0
IsVisible c = (32 < c) × (c < 127)

abbrev pub AllVisible : Bytes → Type 0
AllVisible = All IsVisible

IsVisible-digit : (c : ℕ) → within b'0' b'9' c ≡ true → IsVisible c
IsVisible-digit c h = ground arith

IsVisible-HexDigit : (c : ℕ) → HexDigit c → IsVisible c
IsVisible-HexDigit c (decimal v small e) = omega arith
IsVisible-HexDigit c (lower_case v small e) = omega arith
IsVisible-HexDigit c (upper_case v small e) = omega arith

IsVisible-show_int : (t : ℤ) → AllVisible (show_int t)
unfolding show_int
IsVisible-show_int (pos n) = All-map _ _ IsVisible-digit (to_string n) (to_string-digits n)
IsVisible-show_int (negsuc n) = (
  (omega arith, omega arith),
  All-map _ _ IsVisible-digit (to_string (suc n)) (to_string-digits (suc n)),
)

literals :
    AllVisible (text "/")
    × AllVisible docker_api_version
    × AllVisible (text "/containers/")
    × AllVisible (text "/stop?t=")
    × AllVisible (text "/kill?signal=SIGKILL")
unfolding text
literals = omega arith

IsVisible-target :
    (id rest : Bytes)
    → IsContainerId id
    → AllVisible rest
    → AllVisible (text "/" ++ (docker_api_version ++ (text "/containers/" ++ (id ++ rest))))
IsVisible-target id rest h r = All-append _ _ _ literals.0 (
    All-append _ _ _ literals.1 (
      All-append _ _ _ literals.2 (All-append _ id rest (All-map _ _ IsVisible-HexDigit id h.1) r)))

-- Whatever the id holds, a request target that is built has only visible ASCII characters: no
-- id can split the request line or add a header.
pub request_targets_visible :
    (id : Bytes) (t : ℤ) (path : Bytes)
    → (stop_container_path id t ≡ some path) ⊎ (kill_container_path id ≡ some path)
    → AllVisible path
request_targets_visible id t path (inl e) =
    let (valid, _, _, shape) = (stop_container_path_iff id t path).0 e in
    rw shape (IsVisible-target id _ valid (All-append _ _ _ literals.3 (IsVisible-show_int t)))
request_targets_visible id t path (inr e) =
    let (valid, shape) = (kill_container_path_iff id path).0 e in
    rw shape (IsVisible-target id _ valid literals.4)

-- Normalizing drops the leading slashes and nothing else.
pub normalize_container_name_lem :
    (raw : Bytes)
    → (slashes : Bytes) × (raw ≡ slashes ++ normalize_container_name raw)
      × All (λ c. c ≡ b'/') slashes
      × ((rest : Bytes) → normalize_container_name raw ≢ b'/' ∷ rest)
unfolding normalize_container_name
normalize_container_name_lem [] = ([], refl, tt, λ rest e. cc)
normalize_container_name_lem (c ∷ cs) = elim (Bool-cases (c == b'/')) [
  | inl slash ↦
      let (slashes, split, all, head) = normalize_container_name_lem cs in
      (c ∷ slashes, rw slash (ap (◌∷◌ c) split), (ground arith, all), rw slash head)
  | inr other ↦ ([], rw other, tt, λ rest e. ground arith)
]
