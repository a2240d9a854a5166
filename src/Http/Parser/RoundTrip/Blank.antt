-- ===== src/Http/Parser/RoundTrip/Blank.antt =====
-- Where the first lines of a response end, and where its header block does.
use chaos_forger.Prelude.{
  ℕ, ◌+◌, ◌≤◌, ◌<◌, ◌≡◌, refl, sym, ap, ◌∙◌, false, List, [], ◌∷◌, ◌++◌, append_assoc, none, some,
  Bytes, length, length-append, All, has_prefix, find?, find?_at_start, find?-cons, find?-append,
  find?_sound, find?-fits, has_prefix_self, is_empty, ◌==◌, Option-cases, inl, inr, arith,
}
use chaos_forger.Http.Parser.Fields.{crlf, blank_line}

abbrev pub IsPlain : ℕ → Type 0
IsPlain c = (c == b'\r') ≡ false

abbrev pub NoBreak : Bytes → Type 0
NoBreak = All IsPlain

abbrev pub IsLine : Bytes → Type 0
IsLine line = NoBreak line × (is_empty line ≡ false)

-- Lines, with a line break between each and the next.
abbrev pub joined : Bytes → List Bytes → Bytes
joined line [] = line
joined line (next ∷ more) = line ++ (crlf ++ joined next more)

-- A text without the first byte of the pattern is passed over.
pub find?_skips :
    (k : ℕ) (line rest pattern : Bytes) (i : ℕ)
    → All (λ c. (c == k) ≡ false) line
    → find? rest (k ∷ pattern) ≡ some i
    → find? (line ++ rest) (k ∷ pattern) ≡ some (length line + i)
unfolding has_prefix
find?_skips k [] rest pattern i h e = rw e (ap some (omega arith))
find?_skips k (c ∷ cs) rest pattern i h e =
    rw
      (find?-cons c (cs ++ rest) (k ∷ pattern) (rw h.0 refl), find?_skips k cs rest pattern i h.1 e)
      (ap some (omega arith))

pub find?_absent :
    (k : ℕ) (line pattern : Bytes)
    → All (λ c. (c == k) ≡ false) line
    → find? line (k ∷ pattern) ≡ none
unfolding find? has_prefix
find?_absent k [] pattern h = refl
find?_absent k (c ∷ cs) pattern h = rw (h.0, find?_absent k cs pattern h.1) refl

pub find?_line :
    (line rest : Bytes) → NoBreak line → find? (line ++ (crlf ++ rest)) crlf ≡ some (length line)
find?_line line rest h =
    find?_skips b'\r' line (crlf ++ rest) (b'\n' ∷ []) 0 h
      (find?_at_start (crlf ++ rest) crlf (has_prefix_self crlf rest))
    ∙ ap some (omega arith)

joined-opens :
    (line : Bytes) (more : List Bytes) (rest : Bytes)
    → IsLine line
    → has_prefix (joined line more ++ rest) crlf ≡ false
unfolding has_prefix
joined-opens [] more rest h = absurd (ground arith)
joined-opens (c ∷ cs) [] rest h = rw (h.0.0) refl
joined-opens (c ∷ cs) (next ∷ more) rest h = rw (h.0.0) refl

-- The first blank line stands behind the last of the lines.
pub find?_blank :
    (line : Bytes) (more : List Bytes) (rest : Bytes)
    → IsLine line
    → All IsLine more
    → find? (joined line more ++ (blank_line ++ rest)) blank_line ≡ some (length (joined line more))
unfolding has_prefix
find?_blank line [] rest h k =
    find?_skips b'\r' line (blank_line ++ rest) _ 0 h.0
      (find?_at_start (blank_line ++ rest) blank_line (has_prefix_self blank_line rest))
    ∙ ap some (omega arith)
find?_blank line (next ∷ more) rest h k =
    let inner = joined next more ++ (blank_line ++ rest) in
    let later : find? (crlf ++ inner) blank_line ≡ some (2 + length (joined next more)) =
      rw
        (
          find?-cons b'\r' (b'\n' ∷ inner) blank_line (joined-opens next more _ k.0),
          find?-cons b'\n' inner blank_line refl,
          find?_blank next more rest k.0 k.1,
        )
        (ap some (omega arith)) in
    rw (append_assoc line (crlf ++ joined next more) (blank_line ++ rest)) (
      find?_skips b'\r' line (crlf ++ inner) _ _ h.0 later
      ∙ ap some (omega (arith, length-append line (crlf ++ joined next more))))

-- A beginning of the wire that is shorter than the header block with its blank line has none.
pub find?-none :
    (seen later : Bytes) (line : Bytes) (more : List Bytes) (rest : Bytes)
    → IsLine line
    → All IsLine more
    → seen ++ later ≡ joined line more ++ (blank_line ++ rest)
    → length seen < length (joined line more) + 4
    → find? seen blank_line ≡ none
find?-none seen later line more rest h k whole short = elim (Option-cases (find? seen blank_line)) [
  | inl missing ↦ missing
  | inr (i, found) ↦
      let (b, a, split, at_i) = find?_sound seen blank_line i found in
      let (j, first, le) = find?-append b blank_line (a ++ later) in
      let again : seen ++ later ≡ b ++ (blank_line ++ (a ++ later)) =
        ap (λ s. s ++ later) split ∙ append_assoc b (blank_line ++ a) later in
      let one : some j ≡ some (length (joined line more)) =
        sym first
        ∙ (ap (λ s. find? s blank_line) (sym again ∙ whole) ∙ find?_blank line more rest h k) in
      absurd (ground (arith, find?-fits seen blank_line i found))
]

-- Two ways to split a text, of which the first part of one is no longer than that of the other.
pub append-split :
    (us vs xs ys : Bytes)
    → xs ++ ys ≡ us ++ vs
    → length us ≤ length xs
    → (m : Bytes) × (xs ≡ us ++ m) × (m ++ ys ≡ vs)
append-split [] vs xs ys e le = (xs, refl, e)
append-split (u ∷ us) vs [] ys e le = absurd (omega arith)
append-split (u ∷ us) vs (x ∷ xs) ys e le =
    let (m, one, two) = append-split us vs xs ys (ground arith) (omega arith) in
    (m, ground arith, two)

-- A beginning of a line with its break that is shorter has no break.
pub line-short :
    (line rest buf later : Bytes)
    → NoBreak line
    → buf ++ later ≡ line ++ (crlf ++ rest)
    → length buf < length line + 2
    → find? buf crlf ≡ none
line-short line rest buf later h e short = elim (Option-cases (find? buf crlf)) [
  | inl missing ↦ missing
  | inr (i, found) ↦
      let (b, a, split, at_i) = find?_sound buf crlf i found in
      let (j, first, le) = find?-append b crlf (a ++ later) in
      let again : buf ++ later ≡ b ++ (crlf ++ (a ++ later)) =
        ap (λ s. s ++ later) split ∙ append_assoc b (crlf ++ a) later in
      let one : some j ≡ some (length line) =
        sym first ∙ (ap (λ s. find? s crlf) (sym again ∙ e) ∙ find?_line line rest h) in
      absurd (ground (arith, find?-fits buf crlf i found))
]
