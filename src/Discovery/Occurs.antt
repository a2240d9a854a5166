-- ===== src/Discovery/Occurs.antt =====
-- `contains_substring` against what it means for a text to occur in another.
use chaos_forger.Prelude.{
  ◌≡◌, ◌≢◌, refl, ◌↔◌, inl, inr, true, [], ◌∷◌, ◌++◌, Option-cases, Bytes, find?, find?-append,
  find?_sound, arith,
}
use chaos_forger.Discovery.{contains_substring}

-- The needle is not empty and stands somewhere in the haystack.
abbrev pub Occurs : Bytes → Bytes → Type 0
Occurs needle haystack =
    (needle ≢ []) × ((b : Bytes) × (a : Bytes) × (haystack ≡ b ++ (needle ++ a)))

contains-Occurs : (h n : Bytes) → contains_substring h n ≡ true → Occurs n h
unfolding contains_substring
contains-Occurs h [] e = cc
contains-Occurs h (x ∷ n) e = elim (Option-cases (find? h (x ∷ n))) [
  | inl missing ↦ absurd (ground arith)
  | inr (i, found) ↦
      let (b, a, split, _) = find?_sound h (x ∷ n) i found in ((λ q. cc), (b, a, split))
]

Occurs-contains : (h n : Bytes) → Occurs n h → contains_substring h n ≡ true
unfolding contains_substring
Occurs-contains h [] (ne, _) = absurd (ne refl)
Occurs-contains h (x ∷ n) (ne, (b, a, split)) =
    let (i, found, _) = find?-append b (x ∷ n) a in ground arith

-- `contains_substring` answers yes exactly when a non-empty needle occurs in the haystack.
pub contains_substring_iff :
    (haystack needle : Bytes) → (contains_substring haystack needle ≡ true) ↔ Occurs needle haystack
contains_substring_iff h n = (contains-Occurs h n, Occurs-contains h n)
