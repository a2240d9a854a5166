-- ===== src/Config/Words/Actions.antt =====
-- `action_from_string` of src/config.cpp against the words it reads.
use chaos_forger.Prelude.{
  ℕ, ◌+◌, ◌≡◌, ◌↔◌, ◌⊎◌, inl, inr, refl, subst, ap, ◌∙◌, true, false, Bool-cases, ◌&&◌, [], ◌∷◌,
  ◌++◌, Bytes, text, same, same_iff, within, tolower, is_empty, All, ok, arith,
}
use chaos_forger.Config.{Action, stop, kill, action_name}
use chaos_forger.Config.Words.{to_lower, is_blank, skip_blank, drop_blank, trim, action_from_string}

-- A space, a tab, a carriage return or a line feed.
abbrev pub IsBlank : ℕ → Type 0
IsBlank c = ((c ≡ 32) ⊎ (c ≡ 9)) ⊎ ((c ≡ 13) ⊎ (c ≡ 10))

-- The word is the given one, in small letters, with any of its letters in capitals.
abbrev pub InAnyCase : Bytes → Bytes → Type 0
InAnyCase [] [] = Unit
InAnyCase (c ∷ cs) (letter ∷ more) = ((c ≡ letter) ⊎ (c + 32 ≡ letter)) × InAnyCase cs more
InAnyCase _ _ = ⊥

-- A text that is the name of the action in any case, with blanks around it.
pub record Spells (s : Bytes) (a : Action) : Type 0 where
  pub front : Bytes
  pub word : Bytes
  pub back : Bytes
  pub parts : s ≡ front ++ (word ++ back)
  pub blank_front : All IsBlank front
  pub blank_back : All IsBlank back
  pub named : InAnyCase word (action_name a)

IsBlank-is_blank : (c : ℕ) → is_blank c ≡ true → IsBlank c
IsBlank-is_blank c h = ground arith

is_blank-IsBlank : (c : ℕ) → IsBlank c → is_blank c ≡ true
is_blank-IsBlank c h = ground arith

skip_blank-split : (s : Bytes) → (front : Bytes) × (s ≡ front ++ skip_blank s) × All IsBlank front
unfolding skip_blank
skip_blank-split [] = ([], refl, tt)
skip_blank-split (c ∷ cs) = elim (Bool-cases (is_blank c)) [
  | inl blank ↦
      let (front, e, all) = skip_blank-split cs in
      (c ∷ front, rw blank (ap (◌∷◌ c) e), (IsBlank-is_blank c blank, all))
  | inr other ↦ ([], rw other refl, tt)
]

drop_blank-split : (s : Bytes) → (back : Bytes) × (s ≡ drop_blank s ++ back) × All IsBlank back
unfolding drop_blank
drop_blank-split [] = ([], refl, tt)
drop_blank-split (c ∷ cs) =
    let (back, e, all) = drop_blank-split cs in
    elim (Bool-cases (is_empty (drop_blank cs) && is_blank c)) [
      | inl gone ↦ (
        c ∷ back,
        rw gone (ap (◌∷◌ c) (ground (arith, e))),
        (IsBlank-is_blank c (ground arith), all),
      )
      | inr kept ↦ (back, rw kept (ap (◌∷◌ c) e), all)
    ]

skip_blank-front : (front s : Bytes) → All IsBlank front → skip_blank (front ++ s) ≡ skip_blank s
unfolding skip_blank
skip_blank-front [] s h = refl
skip_blank-front (c ∷ front) s h = rw (is_blank-IsBlank c h.0) (skip_blank-front front s h.1)

skip_blank-all : (s : Bytes) → All IsBlank s → skip_blank s ≡ []
unfolding skip_blank
skip_blank-all [] h = refl
skip_blank-all (c ∷ s) h = rw (is_blank-IsBlank c h.0) (skip_blank-all s h.1)

drop_blank-all : (s : Bytes) → All IsBlank s → drop_blank s ≡ []
unfolding drop_blank
drop_blank-all [] h = refl
drop_blank-all (c ∷ s) h = rw (drop_blank-all s h.1, is_blank-IsBlank c h.0) refl

abbrev Unblank : ℕ → Type 0
Unblank c = is_blank c ≡ false

drop_blank-back :
    (word back : Bytes) → All Unblank word → All IsBlank back → drop_blank (word ++ back) ≡ word
unfolding drop_blank
drop_blank-back [] back h k = drop_blank-all back k
drop_blank-back (c ∷ word) back h k = rw (drop_blank-back word back h.1 k) (ground (arith, h.0))

trim-parts :
    (front word back : Bytes)
    → All IsBlank front
    → All Unblank word
    → All IsBlank back
    → trim (front ++ (word ++ back)) ≡ word
unfolding trim
trim-parts front [] back f w b =
    ap drop_blank (skip_blank-front front back f ∙ skip_blank-all back b)
    ∙ (unfold drop_blank in refl)
trim-parts front (c ∷ word) back f w b =
    let stays : skip_blank (c ∷ (word ++ back)) ≡ c ∷ (word ++ back) =
      unfold skip_blank in (rw (w.0) refl) in
    ap drop_blank (skip_blank-front front (c ∷ (word ++ back)) f ∙ stays)
    ∙ drop_blank-back (c ∷ word) back w b

to_lower-InAnyCase : (word : Bytes) → InAnyCase word (to_lower word)
unfolding to_lower
to_lower-InAnyCase [] = tt
to_lower-InAnyCase (c ∷ word) = (ground arith, to_lower-InAnyCase word)

abbrev IsSmall : ℕ → Type 0
IsSmall c = within b'a' b'z' c ≡ true

InAnyCase-to_lower :
    (word name : Bytes)
    → All IsSmall name
    → InAnyCase word name
    → (to_lower word ≡ name) × All Unblank word
unfolding to_lower
InAnyCase-to_lower [] [] h k = (refl, tt)
InAnyCase-to_lower [] (l ∷ name) h k = absurd k
InAnyCase-to_lower (c ∷ word) [] h k = absurd k
InAnyCase-to_lower (c ∷ word) (l ∷ name) h k =
    let (lowered, unblank) = InAnyCase-to_lower word name h.1 k.1 in
    let small : IsSmall l = h.0 in
    let letter : (c ≡ l) ⊎ (c + 32 ≡ l) = k.0 in
    let first : tolower c ≡ l = ground arith in (rw (first, lowered) refl, (ground arith, unblank))

small : (a : Action) → All IsSmall (action_name a)
unfolding action_name text
small stop = (refl, (refl, (refl, (refl, tt))))
small kill = (refl, (refl, (refl, (refl, tt))))

kill-not_stop : same (text "kill") (text "stop") ≡ false
unfolding same text
kill-not_stop = refl

action_from_string-trim :
    (s : Bytes) (a : Action) → (action_from_string s ≡ ok a) ↔ (to_lower (trim s) ≡ action_name a)
unfolding action_from_string action_name
action_from_string-trim s stop =
    let v = same_iff (to_lower (trim s)) (text "stop") in
    (λ h. ground (arith, v), λ e. ground (arith, v))
action_from_string-trim s kill =
    let v = same_iff (to_lower (trim s)) (text "kill") in
    (
      λ h. ground (arith, v),
      λ e. rw (e, kill-not_stop, (same_iff (text "kill") (text "kill")).1 refl),
    )

Spells-trim : (s : Bytes) (a : Action) → to_lower (trim s) ≡ action_name a → Spells s a
unfolding trim
Spells-trim s a e =
    let (front, cut, blanks) = skip_blank-split s in
    let (back, cut', blanks') = drop_blank-split (skip_blank s) in
    record {
      front = front;
      word = trim s;
      back = back;
      parts = cut ∙ ap (◌++◌ front) cut';
      blank_front = blanks;
      blank_back = blanks';
      named = subst (InAnyCase (trim s)) e (to_lower-InAnyCase (trim s));
    }

trim-Spells : (s : Bytes) (a : Action) → Spells s a → to_lower (trim s) ≡ action_name a
trim-Spells s a h =
    let (lowered, unblank) = InAnyCase-to_lower h.word (action_name a) (small a) h.named in
    ap (λ x. to_lower (trim x)) h.parts
    ∙ (ap to_lower (trim-parts h.front h.word h.back h.blank_front unblank h.blank_back) ∙ lowered)

-- `action_from_string` yields an action exactly for its name, each letter small or capital, with
-- any spaces, tabs and line breaks in front of it and behind it.
pub action_from_string_iff : (s : Bytes) (a : Action) → (action_from_string s ≡ ok a) ↔ Spells s a
action_from_string_iff s a =
    let (there, back) = action_from_string-trim s a in
    (λ h. Spells-trim s a (there h), λ h. back (trim-Spells s a h))
