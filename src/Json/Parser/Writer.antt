-- ===== src/Json/Parser/Writer.antt =====
-- A writer of JSON documents, an independent description of what the parser reads.
use chaos_forger.Prelude.{
  ℕ, zero, suc, ◌≡◌, Bool, true, false, [], ◌∷◌, ◌++◌, some, Bytes, text, is_empty, is_digit, All,
  if◌then◌else◌,
}
use chaos_forger.Double.{Double}
use chaos_forger.Json.{
  Json, Items, Members, null, boolean, number, string, array, object, nil, cons, end, member,
}
use chaos_forger.Json.Strings.{quote}
use chaos_forger.Json.Strings.RoundTrip.{between_quotes}
use chaos_forger.Json.Parser.{before}

-- The digits of a number before and behind the point.
pub record Numeral : Type 0 where
  pub negative : Bool
  pub whole : Bytes
  pub decimals : Bytes

abbrev pub signed : Bool → Bytes → Bytes
signed negative tail = if negative then b'-' ∷ tail else tail

abbrev pub fraction_onto : Bytes → Bytes → Bytes
fraction_onto [] tail = tail
fraction_onto (x ∷ xs) tail = b'.' ∷ ((x ∷ xs) ++ tail)

abbrev pub spell_onto : Numeral → Bytes → Bytes
spell_onto n tail = signed n.negative (n.whole ++ fraction_onto n.decimals tail)

abbrev pub IsDigit : ℕ → Type 0
IsDigit c = is_digit c ≡ true

abbrev pub IsNumeral : Numeral → Type 0
IsNumeral n = (is_empty n.whole ≡ false) × All IsDigit n.whole × All IsDigit n.decimals

module _ (d : Double) where
  -- The keys of the members come after the key.
  abbrev pub After : Bytes → Members d → Type 0
  After key end = Unit
  After key (member name v rest) = (before key name ≡ true) × After key rest

module _ (d : Double) (numeral : d.Carrier → Numeral) where
  -- The text of a value in front of another text, without blanks.
  unfoldable mutual
    pub print_onto : Json d → Bytes → Bytes
    print_onto null tail = text "null" ++ tail
    print_onto (boolean true) tail = text "true" ++ tail
    print_onto (boolean false) tail = text "false" ++ tail
    print_onto (number v) tail = spell_onto (numeral v) tail
    print_onto (string s) tail = quote ∷ (between_quotes s ++ quote ∷ tail)
    print_onto (array nil) tail = b'[' ∷ b']' ∷ tail
    print_onto (array (cons x rest)) tail = b'[' ∷ print_onto x (items_onto rest tail)
    print_onto (object end) tail = b'{' ∷ b'}' ∷ tail
    print_onto (object (member name v rest)) tail =
        b'{' ∷ quote ∷ (between_quotes name ++ quote ∷ b':' ∷ print_onto v (members_onto rest tail))

    pub items_onto : Items d → Bytes → Bytes
    items_onto nil tail = b']' ∷ tail
    items_onto (cons x rest) tail = b',' ∷ print_onto x (items_onto rest tail)

    pub members_onto : Members d → Bytes → Bytes
    members_onto end tail = b'}' ∷ tail
    members_onto (member name v rest) tail =
        b',' ∷ quote ∷ (between_quotes name ++ quote ∷ b':' ∷ print_onto v (members_onto rest tail))

  abbrev pub print : Json d → Bytes
  print v = print_onto v []

  -- The values that are nested at most so many levels deep, whose objects have their members in
  -- order, each key once, and whose numbers are what their numerals denote.
  unfoldable mutual
    pub Writable : ℕ → Json d → Type 0
    Writable zero v = ⊥
    Writable (suc levels) (number v) =
        IsNumeral (numeral v) × (d.stod (spell_onto (numeral v) []) ≡ some v)
    Writable (suc levels) (array items) = WritableItems levels items
    Writable (suc levels) (object members) = WritableMembers levels members
    Writable (suc levels) _ = Unit

    pub WritableItems : ℕ → Items d → Type 0
    WritableItems levels nil = Unit
    WritableItems levels (cons x rest) = Writable levels x × WritableItems levels rest

    pub WritableMembers : ℕ → Members d → Type 0
    WritableMembers levels end = Unit
    WritableMembers levels (member name v rest) =
        Writable levels v × After d name rest × WritableMembers levels rest
