-- ===== src/Chaos/Budget.antt =====
-- `action_budget` of src/chaos.cpp.
pub mod Bounds
use chaos_forger.Prelude.{
  ℕ, Bool, true, false, ◌&&◌, List, [], ◌∷◌, ltb, leb, length, take, if◌then◌else◌, ℤ, pos,
  pos_part, ltb_ℤ, leb_ℤ, ◌-ℤ◌,
}

-- `allowed` as the function leaves it: the cycle's cap, or what is left of the run's budget.
unfoldable pub allowed_actions : ℤ → ℤ → ℤ → ℕ
unfolding ◌-ℤ◌
allowed_actions max_per_cycle max_per_run already_used =
    let allowed = pos_part max_per_cycle in
    if ltb_ℤ (pos 0) max_per_run
    then (let remaining = max_per_run -ℤ already_used in
        let remaining_sz = if ltb_ℤ (pos 0) remaining then pos_part remaining else 0 in
        if ltb remaining_sz allowed then remaining_sz else allowed)
    else allowed

-- The two clamps at the head of the function.
unfoldable pub clamp_cycle : ℤ → ℤ
clamp_cycle max_per_cycle = if ltb_ℤ max_per_cycle (pos 1) then pos 1 else max_per_cycle

unfoldable pub clamp_run : ℤ → ℤ
clamp_run max_per_run = if ltb_ℤ max_per_run (pos 0) then pos 0 else max_per_run

unfoldable pub action_budget {ℓ} : {A : Type ℓ} → List A → ℤ → ℤ → ℤ → List A
action_budget armed max_per_cycle max_per_run already_used =
    let per_cycle = clamp_cycle max_per_cycle in
    let per_run = clamp_run max_per_run in
    if ltb_ℤ (pos 0) per_run && leb_ℤ per_run already_used
    then []
    else (let allowed = allowed_actions per_cycle per_run already_used in
        if leb (length armed) allowed then armed else take allowed armed)
