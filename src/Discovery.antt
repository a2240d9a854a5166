-- ===== src/Discovery.antt =====
-- include/forger/discovery.hpp and src/discovery.cpp: which containers the rules select.
pub mod Occurs
pub mod FirstMatch
use chaos_forger.Prelude.{
  ℕ, suc, Bool, true, false, ◌||◌, List, [], ◌∷◌, Option, none, some, Bytes, find?, is_empty,
  if◌then◌else◌,
}
use chaos_forger.Config.{TargetRule}
use chaos_forger.Docker.Api.{Container}

unfoldable pub contains_substring : Bytes → Bytes → Bool
contains_substring haystack needle =
    if is_empty needle then false else elim (find? haystack needle) [ none ↦ false | some _ ↦ true ]

pub record MatchedContainer : Type 0 where
  pub container : Container
  pub rule_index : ℕ

-- The innermost loop: `hit` after the names.
unfoldable pub name_hit : List Bytes → Bytes → Bool
name_hit [] pattern = false
name_hit (name ∷ names) pattern = contains_substring name pattern || name_hit names pattern

-- The loop over the rules from index `r` on, up to the first hit.
unfoldable pub first_rule : List Bytes → List TargetRule → ℕ → Option ℕ
first_rule names [] r = none
first_rule names (rule ∷ rules) r =
    let rest = first_rule names rules (suc r) in
    if name_hit names rule.name_match then some r else rest

unfoldable pub match_containers : List Container → List TargetRule → List MatchedContainer
match_containers [] rules = []
match_containers (c ∷ cs) rules =
    let rest = match_containers cs rules in
    elim (first_rule c.names rules 0) [
      | none ↦ rest
      | some r ↦ record { container = c; rule_index = r } ∷ rest
    ]
