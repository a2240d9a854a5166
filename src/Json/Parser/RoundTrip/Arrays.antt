-- ===== src/Json/Parser/RoundTrip/Arrays.antt =====
-- The loop of `parse_array` of src/json.cpp on the elements as they are written.
use chaos_forger.Prelude.{
  ℕ, zero, suc, ◌+◌, ◌≡◌, ◌<◌, refl, ap, ◌∙◌, Bool, true, false, ◌||◌, [], ◌∷◌, ◌++◌, Bytes, text,
  is_digit, is_empty, All, ◌==◌, arith,
}
use chaos_forger.Double.{Double}
use chaos_forger.Json.{
  Json, Items, Members, null, boolean, number, string, array, object, nil, cons, end, member,
}
use chaos_forger.Json.Cursor.{Cursor, Parse, parsed, starts, skip_ws, blanks, is_space}
use chaos_forger.Json.Strings.{quote}
use chaos_forger.Json.Strings.RoundTrip.{at, at-eq}
use chaos_forger.Json.Parser.{Values, array_loop}
use chaos_forger.Json.Parser.Writer.{
  Numeral, signed, IsDigit, IsNumeral, spell_onto, fraction_onto, print_onto, items_onto,
  members_onto, Writable, WritableItems,
}
use chaos_forger.Json.Parser.Numbers.{Delimited}

-- The characters with which a value begins.
abbrev pub opens : ℕ → Bool
opens c =
    is_digit c
    || (c == b'-'
        || (c == b'{' || (c == b'[' || (c == quote || (c == b't' || (c == b'f' || c == b'n'))))))

abbrev pub Opens : Bytes → Type 0
Opens [] = ⊥
Opens (c ∷ cs) = opens c ≡ true

pub skip_ws-Opens :
    (bs : Bytes) (pos : ℕ) (message : Bytes)
    → Opens bs
    → skip_ws (at bs pos message) ≡ at bs pos message
unfolding skip_ws blanks
skip_ws-Opens [] pos message h = absurd h
skip_ws-Opens (c ∷ cs) pos message h =
    let solid : is_space c ≡ false = ground arith in
    rw (solid) (at-eq (c ∷ cs) message (omega arith))

pub starts-Opens : (bs : Bytes) → Opens bs → (starts b']' bs ≡ false) × (starts b'}' bs ≡ false)
unfolding starts
starts-Opens [] h = absurd h
starts-Opens (c ∷ cs) h = (ground arith, ground arith)

-- The value is read and the text behind it is left.
abbrev pub Reads {ℓ} : {A : Type ℓ} → A → Bytes → Bytes → Parse A → Type ℓ
Reads x tail message p = (pos : ℕ) × (p ≡ parsed x (at tail pos message))

module _ (d : Double) (numeral : d.Carrier → Numeral) where
  spell_onto-Opens : (n : Numeral) (tail : Bytes) → IsNumeral n → Opens (spell_onto n tail)
  spell_onto-Opens n tail h = by_parts n.negative n.whole h.0 h.1 (fraction_onto n.decimals tail)
    where
      by_parts :
          (negative : Bool) (whole : Bytes)
          → is_empty whole ≡ false
          → All IsDigit whole
          → (rest : Bytes) → Opens (signed negative (whole ++ rest))
      by_parts true whole h k rest = refl
      by_parts false [] h k rest = cc
      by_parts false (x ∷ xs) h k rest = rw (k.0) refl

  pub print_onto-Opens :
      (levels : ℕ) (v : Json d) (tail : Bytes)
      → Writable d numeral levels v
      → Opens (print_onto d numeral v tail)
  unfolding print_onto Writable text
  print_onto-Opens zero v tail h = absurd h
  print_onto-Opens (suc levels) null tail h = refl
  print_onto-Opens (suc levels) (boolean true) tail h = refl
  print_onto-Opens (suc levels) (boolean false) tail h = refl
  print_onto-Opens (suc levels) (number v) tail h = spell_onto-Opens (numeral v) tail h.0
  print_onto-Opens (suc levels) (string s) tail h = refl
  print_onto-Opens (suc levels) (array nil) tail h = refl
  print_onto-Opens (suc levels) (array (cons x r)) tail h = refl
  print_onto-Opens (suc levels) (object end) tail h = refl
  print_onto-Opens (suc levels) (object (member name v r)) tail h = refl

  -- How many elements or members there are.
  abbrev pub size_items : Items d → ℕ
  size_items nil = 0
  size_items (cons x rest) = suc (size_items rest)

  pub items_onto-Delimited :
      (items : Items d) (tail : Bytes) → Delimited (items_onto d numeral items tail)
  unfolding items_onto
  items_onto-Delimited nil tail = refl
  items_onto-Delimited (cons x rest) tail = refl

  pub members_onto-Delimited :
      (members : Members d) (tail : Bytes) → Delimited (members_onto d numeral members tail)
  unfolding members_onto
  members_onto-Delimited end tail = refl
  members_onto-Delimited (member name v rest) tail = refl

  -- What is to be shown of the values with some levels of nesting.
  abbrev pub ReadsBack : ℕ → Values d → Type 0
  ReadsBack levels value =
      (v : Json d) (tail : Bytes) (pos : ℕ) (message : Bytes)
      → Writable d numeral levels v
      → Delimited tail
      → Reads v tail message (value (at (print_onto d numeral v tail) pos message))

  pub behind_blanks :
      (levels : ℕ) (value : Values d)
      → ReadsBack levels value
      → (v : Json d) (tail : Bytes) (pos : ℕ) (message : Bytes) → Writable d numeral levels v
      → Delimited tail
      → Reads v tail message (value (skip_ws (at (print_onto d numeral v tail) pos message)))
  behind_blanks levels value good v tail pos message w k =
      let (q, e) = good v tail pos message w k in
      (q, ap value (skip_ws-Opens _ pos message (print_onto-Opens levels v tail w)) ∙ e)

  array_loop-last :
      (value : Values d) (fuel : ℕ) (c : Cursor) (x : Json d) (tail : Bytes) (pos : ℕ)
      (message : Bytes)
      → value (skip_ws c) ≡ parsed x (at (b']' ∷ tail) pos message)
      → Reads (cons x nil) tail message (array_loop d value (suc fuel) c)
  unfolding array_loop skip_ws blanks starts
  array_loop-last value fuel c x tail pos message h = rw (array_loop, h) (_, refl)

  array_loop-next :
      (value : Values d) (fuel : ℕ) (c : Cursor) (x : Json d) (rest : Items d) (more tail : Bytes)
      (pos : ℕ) (message : Bytes)
      → value (skip_ws c) ≡ parsed x (at (b',' ∷ more) pos message)
      → ((q : ℕ) → Reads rest tail message (array_loop d value fuel (at more q message)))
      → Reads (cons x rest) tail message (array_loop d value (suc fuel) c)
  unfolding array_loop skip_ws blanks starts
  array_loop-next value fuel c x rest more tail pos message h later =
      let (q, e) = later (pos + 0 + 1) in rw (array_loop, h, e) (q, refl)

  pub array_loop-Reads :
      (levels : ℕ) (value : Values d)
      → ReadsBack levels value
      → (fuel : ℕ) (x : Json d) (rest : Items d) (tail : Bytes) (pos : ℕ) (message : Bytes)
      → size_items rest < fuel
      → Writable d numeral levels x
      → WritableItems d numeral levels rest
      → Reads (cons x rest) tail message (
          array_loop d value fuel
            (at (print_onto d numeral x (items_onto d numeral rest tail)) pos message))
  unfolding items_onto WritableItems
  array_loop-Reads levels value good zero x rest tail pos message h w ws = absurd (omega arith)
  array_loop-Reads levels value good (suc fuel) x nil tail pos message h w ws =
      let (q, e) =
        behind_blanks levels value good x _ pos message w (items_onto-Delimited nil tail) in
      array_loop-last value fuel _ x tail q message e
  array_loop-Reads levels value good (suc fuel) x (cons y rest) tail pos message h w ws =
      let (q, e) =
        behind_blanks levels value good x _ pos message w
          (items_onto-Delimited (cons y rest) tail) in
      array_loop-next value fuel _ x (cons y rest) _ tail q message e (λ q'.
        array_loop-Reads levels value good fuel y rest tail q' message (omega arith) ws.0 ws.1)
