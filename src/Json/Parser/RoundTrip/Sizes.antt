-- ===== src/Json/Parser/RoundTrip/Sizes.antt =====
-- The length of a document's text, against the counts of its elements and members.
use chaos_forger.Prelude.{
  ◌+◌, ◌≤◌, ◌<◌, Bool, true, false, [], ◌∷◌, ◌++◌, Bytes, text, length, length-append, arith,
}
use chaos_forger.Double.{Double}
use chaos_forger.Json.{
  Json, Items, Members, null, boolean, number, string, array, object, nil, cons, end, member,
}
use chaos_forger.Json.Strings.{quote}
use chaos_forger.Json.Strings.RoundTrip.{between_quotes}
use chaos_forger.Json.Parser.Writer.{
  Numeral, signed, fraction_onto, spell_onto, print_onto, items_onto, members_onto,
}
use chaos_forger.Json.Parser.RoundTrip.Arrays.{size_items}
use chaos_forger.Json.Parser.RoundTrip.Objects.{size_members}

length-behind : (bs tail : Bytes) → length tail ≤ length (bs ++ tail)
length-behind bs tail = omega (arith, length-append bs tail)

length-signed : (negative : Bool) (rest : Bytes) → length rest ≤ length (signed negative rest)
length-signed true rest = omega arith
length-signed false rest = omega arith

length-fraction_onto : (decimals tail : Bytes) → length tail ≤ length (fraction_onto decimals tail)
length-fraction_onto [] tail = omega arith
length-fraction_onto (x ∷ xs) tail = omega (arith, length-behind xs tail)

length-spell_onto : (n : Numeral) (tail : Bytes) → length tail ≤ length (spell_onto n tail)
length-spell_onto n tail = omega (
  arith,
  length-signed n.negative (n.whole ++ fraction_onto n.decimals tail),
  length-behind n.whole (fraction_onto n.decimals tail),
  length-fraction_onto n.decimals tail,
)

pub length-quoted : (s tail : Bytes) → length tail < length (between_quotes s ++ quote ∷ tail)
length-quoted s tail = omega (arith, length-behind (between_quotes s) (quote ∷ tail))

module _ (d : Double) (numeral : d.Carrier → Numeral) where
  mutual
    unfolding print_onto items_onto members_onto

    pub length-print_onto :
        (v : Json d) (tail : Bytes) → length tail ≤ length (print_onto d numeral v tail)
    length-print_onto null tail = length-behind (text "null") tail
    length-print_onto (boolean true) tail = length-behind (text "true") tail
    length-print_onto (boolean false) tail = length-behind (text "false") tail
    length-print_onto (number v) tail = length-spell_onto (numeral v) tail
    length-print_onto (string s) tail = omega (arith, length-quoted s tail)
    length-print_onto (array nil) tail = omega arith
    length-print_onto (array (cons x rest)) tail =
        omega
          (arith, length-print_onto x (items_onto d numeral rest tail), length-items_onto rest tail)
    length-print_onto (object end) tail = omega arith
    length-print_onto (object (member name v rest)) tail = omega (
      arith,
      length-quoted name (b':' ∷ print_onto d numeral v (members_onto d numeral rest tail)),
      length-print_onto v (members_onto d numeral rest tail),
      length-members_onto rest tail,
    )

    pub length-items_onto :
        (items : Items d) (tail : Bytes)
        → size_items d numeral items + length tail < length (items_onto d numeral items tail)
    length-items_onto nil tail = omega arith
    length-items_onto (cons x rest) tail =
        omega
          (arith, length-print_onto x (items_onto d numeral rest tail), length-items_onto rest tail)

    pub length-members_onto :
        (members : Members d) (tail : Bytes)
        → size_members d numeral members + length tail
          < length (members_onto d numeral members tail)
    length-members_onto end tail = omega arith
    length-members_onto (member name v rest) tail = omega (
      arith,
      length-quoted name (b':' ∷ print_onto d numeral v (members_onto d numeral rest tail)),
      length-print_onto v (members_onto d numeral rest tail),
      length-members_onto rest tail,
    )
