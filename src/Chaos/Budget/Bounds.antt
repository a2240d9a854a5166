-- ===== src/Chaos/Budget/Bounds.antt =====
-- What the budget promises: a prefix of the armed containers, as long as the two caps allow.
use chaos_forger.Prelude.{
  ◌∙◌, ltb_ℤ, leb_ℤ, ◌&&◌, append-nil, sym, drop, ℕ, ◌-◌, ◌<◌, ◌≡◌, refl, ◌++◌, inl, inr, List, [],
  length, take-append-drop, length-take, min, leb→le, take, if◌then◌else◌, ◌≤ℤ◌, arith, ℤ, pos,
  negsuc, pos_part, Bool-cases, leb,
}
use Prim.Native.Nat.{max}
use chaos_forger.Chaos.Budget.{allowed_actions, clamp_cycle, clamp_run, action_budget}

-- What is left of the run's budget, and the cycle's cap, whichever is less.
abbrev pub room : ℤ → ℕ → ℕ → ℕ
room c r u = min (max 1 (pos_part c)) (r - u)

pos_part-clamp_cycle : (c : ℤ) → pos_part (clamp_cycle c) ≡ max 1 (pos_part c)
unfolding clamp_cycle
pos_part-clamp_cycle (pos c) = ground arith
pos_part-clamp_cycle (negsuc c) = ground arith

clamp_run-pos : (r : ℕ) → clamp_run (pos r) ≡ pos r
unfolding clamp_run
clamp_run-pos r = ground arith

clamp_run-nonpos : (r : ℤ) → r ≤ℤ pos 0 → clamp_run r ≡ pos 0
unfolding clamp_run
clamp_run-nonpos (pos r) h = ground arith
clamp_run-nonpos (negsuc r) h = ground arith

allowed_actions-pos :
    (c : ℤ) (r u : ℕ) → 0 < r → allowed_actions c (pos r) (pos u) ≡ min (pos_part c) (r - u)
unfolding allowed_actions
allowed_actions-pos c r u h = ground arith

allowed_actions-zero : (c u : ℤ) → allowed_actions c (pos 0) u ≡ pos_part c
unfolding allowed_actions
allowed_actions-zero c u = refl

module _ {ℓ} {A : Type ℓ} (armed : List A) where
  length_when_fits :
      (n : ℕ) → length (if leb (length armed) n then armed else take n armed) ≡ min (length armed) n
  length_when_fits n = elim (Bool-cases (leb (length armed) n)) [
    | inl fits ↦ rw fits (omega (arith, leb→le (length armed) n fits))
    | inr cut ↦ rw cut (omega (arith, length-take n armed))
  ]

  -- For a run budget `r` that is positive the cycle strikes as many as are armed, but at most `c`
  -- (at least one), and no more than what is left of `r` after `u`.
  pub length-action_budget_limited :
      (c : ℤ) (r u : ℕ)
      → 0 < r
      → length (action_budget armed c (pos r) (pos u)) ≡ min (length armed) (room c r u)
  unfolding action_budget
  length-action_budget_limited c r u h = elim (Bool-cases (leb r u)) [
    | inl spent ↦ rw (clamp_run-pos r) (ground arith)
    | inr left ↦
        rw (clamp_run-pos r, allowed_actions-pos (clamp_cycle c) r u h)
          (ground (
            arith,
            length_when_fits (min (pos_part (clamp_cycle c)) (r - u)),
            pos_part-clamp_cycle c,
          ))
  ]

  -- A run budget that is not positive leaves the cycle's cap alone.
  pub length-action_budget_unlimited :
      (c r u : ℤ)
      → r ≤ℤ pos 0
      → length (action_budget armed c r u) ≡ min (length armed) (max 1 (pos_part c))
  unfolding action_budget
  length-action_budget_unlimited c r u h =
      rw (clamp_run-nonpos r h, allowed_actions-zero (clamp_cycle c) u)
        (length_when_fits (pos_part (clamp_cycle c)) ∙ rw (pos_part-clamp_cycle c))

  -- What is selected is a prefix of what is armed, in match order.
  pub action_budget-prefix :
      (c r u : ℤ) → (rest : List A) × (armed ≡ action_budget armed c r u ++ rest)
  unfolding action_budget
  action_budget-prefix c r u =
      elim (Bool-cases (ltb_ℤ (pos 0) (clamp_run r) && leb_ℤ (clamp_run r) u)) [
        | inl spent ↦ (armed, rw spent)
        | inr more ↦
            let n = allowed_actions (clamp_cycle c) (clamp_run r) u in
            elim (Bool-cases (leb (length armed) n)) [
              | inl fits ↦ ([], rw (more, fits) (sym (append-nil armed)))
              | inr cut ↦ (drop n armed, rw (more, cut) (sym (take-append-drop n armed)))
            ]
      ]
