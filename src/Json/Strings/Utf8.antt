-- ===== src/Json/Strings/Utf8.antt =====
-- `append_utf8` of src/json.cpp against a decoder of UTF-8.
use chaos_forger.Prelude.{
  ℕ, ◌+◌, ◌*◌, ◌-◌, ◌≡◌, ◌≤◌, ◌<◌, refl, ◌∙◌, Bool, true, ◌&&◌, [], ◌∷◌, Option, none, some, Bytes,
  ltb, within, if◌then◌else◌, if_cases, ap, arith,
}
use chaos_forger.Json.Strings.{append_utf8}

abbrev continues : ℕ → Bool
continues = within 0x80 0xBF

-- A code point that needs a sequence of this length.
abbrev at_least : ℕ → ℕ → Option ℕ
at_least least cp = if ltb cp least then none else some cp

-- The code point that a text encodes, of one to four bytes, with the bits of each byte where
-- RFC 3629 (section 3) has them. As there, a sequence is read only if no shorter one encodes the
-- code point; surrogates are included.
unfoldable pub decode : Bytes → Option ℕ
decode (a ∷ []) = if ltb a 0x80 then some a else none
decode (a ∷ b ∷ []) =
    if within 0xC0 0xDF a && continues b then at_least 0x80 ((a - 0xC0) * 64 + (b - 0x80)) else none
decode (a ∷ b ∷ c ∷ []) =
    if within 0xE0 0xEF a && (continues b && continues c)
    then at_least 0x800 ((a - 0xE0) * 4096 + (b - 0x80) * 64 + (c - 0x80))
    else none
decode (a ∷ b ∷ c ∷ e ∷ []) =
    if within 0xF0 0xF7 a && (continues b && (continues c && continues e))
    then at_least 0x10000 ((a - 0xF0) * 262144 + (b - 0x80) * 4096 + (c - 0x80) * 64 + (e - 0x80))
    else none
decode _ = none

within-true : (lo hi c : ℕ) → lo ≤ c → c ≤ hi → within lo hi c ≡ true
within-true lo hi c h k = ground arith

at_least-some : (least cp : ℕ) → least ≤ cp → at_least least cp ≡ some cp
at_least-some least cp h = ground arith

decode_two :
    (cp a b : ℕ)
    → (0xC0 ≤ a) × (a ≤ 0xDF)
    → (0x80 ≤ b) × (b ≤ 0xBF)
    → (a - 0xC0) * 64 + (b - 0x80) ≡ cp
    → 0x80 ≤ cp
    → decode (a ∷ b ∷ []) ≡ some cp
unfolding decode
decode_two cp a b (h, h') (k, k') e least =
    rw (within-true 0xC0 0xDF a h h', within-true 0x80 0xBF b k k')
      (ap (at_least 0x80) e ∙ at_least-some 0x80 cp least)

decode_three :
    (cp a b c : ℕ)
    → (0xE0 ≤ a) × (a ≤ 0xEF)
    → (0x80 ≤ b) × (b ≤ 0xBF)
    → (0x80 ≤ c) × (c ≤ 0xBF)
    → (a - 0xE0) * 4096 + (b - 0x80) * 64 + (c - 0x80) ≡ cp
    → 0x800 ≤ cp
    → decode (a ∷ b ∷ c ∷ []) ≡ some cp
unfolding decode
decode_three cp a b c (h, h') (k, k') (l, l') e least =
    rw (within-true 0xE0 0xEF a h h', within-true 0x80 0xBF b k k', within-true 0x80 0xBF c l l')
      (ap (at_least 0x800) e ∙ at_least-some 0x800 cp least)

decode_four :
    (cp a b c d : ℕ)
    → (0xF0 ≤ a) × (a ≤ 0xF7)
    → (0x80 ≤ b) × (b ≤ 0xBF)
    → (0x80 ≤ c) × (c ≤ 0xBF)
    → (0x80 ≤ d) × (d ≤ 0xBF)
    → (a - 0xF0) * 262144 + (b - 0x80) * 4096 + (c - 0x80) * 64 + (d - 0x80) ≡ cp
    → 0x10000 ≤ cp
    → decode (a ∷ b ∷ c ∷ d ∷ []) ≡ some cp
unfolding decode
decode_four cp a b c d (h, h') (k, k') (l, l') (m, m') e least =
    rw
      (
        within-true 0xF0 0xF7 a h h',
        within-true 0x80 0xBF b k k',
        within-true 0x80 0xBF c l l',
        within-true 0x80 0xBF d m m',
      )
      (ap (at_least 0x10000) e ∙ at_least-some 0x10000 cp least)

-- A decoder of UTF-8, which reads no overlong form, finds every code point again, surrogates included, in the bytes that
-- `append_utf8` appends for it.
pub decode-append_utf8 : (cp : ℕ) → cp < 0x110000 → decode (append_utf8 cp) ≡ some cp
unfolding append_utf8
decode-append_utf8 cp h =
    if_cases (λ z. decode z ≡ some cp) (ltb cp 0x80) (λ small. unfold decode in rw (small) refl)
      (λ h0.
        if_cases (λ z. decode z ≡ some cp) (ltb cp 0x800)
          (λ h1.
            decode_two cp _ _ (ground arith, ground arith) (ground arith, ground arith)
              (ground arith) (ground arith))
          (λ h1.
            if_cases (λ z. decode z ≡ some cp) (ltb cp 0x10000)
              (λ h2.
                decode_three cp _ _ _ (ground arith, ground arith) (ground arith, ground arith)
                  (ground arith, ground arith) (ground arith) (ground arith))
              (λ h2.
                decode_four cp _ _ _ _ (ground arith, ground arith) (ground arith, ground arith)
                  (ground arith, ground arith) (ground arith, ground arith) (ground arith)
                  (ground arith))))
