-- ===== src/Discovery/FirstMatch.antt =====
-- `match_containers` implements the policy of discovery.hpp: names only, first matching rule,
-- one entry for each container, in the order of the containers.
use mathlib.Core.Path.{subst}
use chaos_forger.Prelude.{
  ℕ, zero, suc, ◌+◌, ◌<◌, ◌≡◌, refl, sym, true, false, List, [], ◌∷◌, none, some, inl, inr,
  Bool-cases, Option-cases, Bytes, get_elem?, length, All, arith,
}
use chaos_forger.Config.{TargetRule}
use chaos_forger.Docker.Api.{Container}
use chaos_forger.Discovery.{
  MatchedContainer, contains_substring, name_hit, first_rule, match_containers,
}
use chaos_forger.Discovery.Occurs.{Occurs, contains_substring_iff}

-- One of the names holds the rule's text.
pub data Hits (rule : TargetRule) : List Bytes → Type 0 where
  here :
      {name : Bytes} {names : List Bytes} → Occurs rule.name_match name → Hits rule (name ∷ names)
  there : {name : Bytes} {names : List Bytes} → Hits rule names → Hits rule (name ∷ names)

name_hit-Hits :
    (rule : TargetRule) (names : List Bytes)
    → name_hit names rule.name_match ≡ true
    → Hits rule names
unfolding name_hit
name_hit-Hits rule [] h = cc
name_hit-Hits rule (n ∷ ns) h = elim (Bool-cases (contains_substring n rule.name_match)) [
  | inl e ↦ here ((contains_substring_iff n rule.name_match).0 e)
  | inr e ↦ there (name_hit-Hits rule ns (ground arith))
]

Hits-name_hit :
    (rule : TargetRule) (names : List Bytes)
    → Hits rule names
    → name_hit names rule.name_match ≡ true
unfolding name_hit
Hits-name_hit rule _ (here {name} o) =
    let e = (contains_substring_iff name rule.name_match).1 o in ground arith
Hits-name_hit rule _ (there {name} {names} t) = let e = Hits-name_hit rule names t in ground arith

-- Rule `r` is the first of the rules that hits one of the names.
pub record IsFirst (names : List Bytes) (rules : List TargetRule) (r : ℕ) : Type 0 where
  pub rule : TargetRule
  pub at_index : get_elem? rules r ≡ some rule
  pub hits : Hits rule names
  pub earlier_miss :
      (j : ℕ) (q : TargetRule) → j < r → get_elem? rules j ≡ some q → ¬ (Hits q names)

abbrev pub NoRule : List Bytes → List TargetRule → Type 0
NoRule names rules = All (λ q. ¬ (Hits q names)) rules

miss :
    (rule : TargetRule) (names : List Bytes)
    → name_hit names rule.name_match ≡ false
    → ¬ (Hits rule names)
miss rule names e h = cc (Hits-name_hit rule names h)

earlier_miss-suc :
    {names : List Bytes} {rules : List TargetRule} {r : ℕ} (rule : TargetRule)
    → ¬ (Hits rule names)
    → IsFirst names rules r
    → (j : ℕ) (q : TargetRule) → j < suc r
    → get_elem? (rule ∷ rules) j ≡ some q
    → ¬ (Hits q names)
earlier_miss-suc {names} rule m f zero q lt e h = m (subst (λ x. Hits x names) (cc) h)
earlier_miss-suc rule m f (suc k) q lt e h = f.earlier_miss k q (omega arith) e h

IsFirst-suc :
    {names : List Bytes} {rules : List TargetRule} {r : ℕ} (rule : TargetRule)
    → ¬ (Hits rule names)
    → IsFirst names rules r
    → IsFirst names (rule ∷ rules) (suc r)
IsFirst-suc rule m f = record {
  rule = f.rule;
  at_index = f.at_index;
  hits = f.hits;
  earlier_miss = earlier_miss-suc rule m f;
}

first_rule-none :
    (names : List Bytes) (rules : List TargetRule) (k : ℕ)
    → first_rule names rules k ≡ none
    → NoRule names rules
unfolding first_rule
first_rule-none names [] k h = tt
first_rule-none names (q ∷ qs) k h = elim (Bool-cases (name_hit names q.name_match)) [
  | inl hit ↦ absurd (ground arith)
  | inr e ↦ (miss q names e, first_rule-none names qs (suc k) (ground arith))
]

first_rule-some :
    (names : List Bytes) (rules : List TargetRule) (k r : ℕ)
    → first_rule names rules k ≡ some r
    → (i : ℕ) × (r ≡ k + i) × IsFirst names rules i
unfolding first_rule
first_rule-some names [] k r h = cc
first_rule-some names (q ∷ qs) k r h = elim (Bool-cases (name_hit names q.name_match)) [
  | inl hit ↦ (
    0,
    ground arith,
    record {
      rule = q;
      at_index = refl;
      hits = name_hit-Hits q names hit;
      earlier_miss = λ j p lt e. absurd (omega arith);
    },
  )
  | inr e ↦
      let (i, eq, first) = first_rule-some names qs (suc k) r (ground arith) in
      (suc i, omega arith, IsFirst-suc q (miss q names e) first)
]

-- What discovery should select: for each container in turn its first matching rule, if any.
pub data Selects (rules : List TargetRule) : List Container → List MatchedContainer → Type 0 where
  done : Selects rules [] []
  skip :
      {c : Container} {cs : List Container} {ms : List MatchedContainer}
      → NoRule c.names rules
      → Selects rules cs ms
      → Selects rules (c ∷ cs) ms
  select :
      {c : Container} {cs : List Container} {ms : List MatchedContainer} (r : ℕ)
      → IsFirst c.names rules r
      → Selects rules cs ms
      → Selects rules (c ∷ cs) (record { container = c; rule_index = r } ∷ ms)

pub lt-length_of_get_elem? {ℓ} :
    {A : Type ℓ} (xs : List A) (i : ℕ) {a : A} → get_elem? xs i ≡ some a → i < length xs
lt-length_of_get_elem? [] i e = cc
lt-length_of_get_elem? (x ∷ xs) zero e = omega arith
lt-length_of_get_elem? (x ∷ xs) (suc i) e = omega (arith, lt-length_of_get_elem? xs i e)

Selects-in_range :
    {rules : List TargetRule} {cs : List Container} {ms : List MatchedContainer}
    → Selects rules cs ms
    → All (λ m. m.rule_index < length rules) ms
Selects-in_range done = tt
Selects-in_range (skip _ t) = Selects-in_range t
Selects-in_range {rules} (select r f t) =
    (lt-length_of_get_elem? rules r f.at_index, Selects-in_range t)

-- `match_containers` selects, in order, each container that some rule hits, once, under the first
-- such rule, and no other container.
pub match_containers-Selects :
    (cs : List Container) (rules : List TargetRule) → Selects rules cs (match_containers cs rules)
unfolding match_containers
match_containers-Selects [] rules = done
match_containers-Selects (c ∷ cs) rules = elim (Option-cases (first_rule c.names rules 0)) [
  | inl e ↦
      rw (e, match_containers)
        (skip (first_rule-none c.names rules 0 e) (match_containers-Selects cs rules))
  | inr (r, e) ↦
      let (i, eq, first) = first_rule-some c.names rules 0 r e in
      let r≡i : r ≡ i = omega arith in
      rw (e, match_containers)
        (select r (subst (IsFirst c.names rules) (sym r≡i) first)
          (match_containers-Selects cs rules))
]

-- Every rule index that is handed on is a valid index into the rules.
pub match_containers-in_range :
    (cs : List Container) (rules : List TargetRule)
    → All (λ m. m.rule_index < length rules) (match_containers cs rules)
match_containers-in_range cs rules = Selects-in_range (match_containers-Selects cs rules)
