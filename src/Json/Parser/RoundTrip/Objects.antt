-- ===== src/Json/Parser/RoundTrip/Objects.antt =====
-- The loop of `parse_object` of src/json.cpp on the members as they are written.
use chaos_forger.Prelude.{
  ℕ, zero, suc, ◌+◌, ◌≡◌, ◌<◌, refl, sym, ap, ◌∙◌, subst, ◌∷◌, ◌++◌, Bytes, arith,
}
use chaos_forger.Double.{Double}
use chaos_forger.Json.{Json, Members, end, member}
use chaos_forger.Json.Cursor.{Cursor, parsed, starts, skip_ws, blanks}
use chaos_forger.Json.Strings.{quote, parse_string}
use chaos_forger.Json.Strings.RoundTrip.{at, between_quotes, parse_string-between_quotes}
use chaos_forger.Json.Parser.{Values, parse_member, object_loop, insert}
use chaos_forger.Json.Parser.Writer.{
  Numeral, print_onto, members_onto, After, Writable, WritableMembers,
}
use chaos_forger.Json.Parser.Numbers.{Delimited}
use chaos_forger.Json.Parser.RoundTrip.Arrays.{
  skip_ws-Opens, Reads, ReadsBack, behind_blanks, members_onto-Delimited,
}
use chaos_forger.Json.Parser.RoundTrip.Order.{
  append, Precedes, insert-append, append-append, Precedes-append,
}

module _ (d : Double) (numeral : d.Carrier → Numeral) where
  abbrev pub size_members : Members d → ℕ
  size_members end = 0
  size_members (member name v rest) = suc (size_members rest)

  -- A key with its value, in front of a text.
  abbrev pub member_onto : Bytes → Json d → Bytes → Bytes
  member_onto name v tail =
      quote ∷ (between_quotes name ++ quote ∷ b':' ∷ print_onto d numeral v tail)

  member_colon :
      (value : Values d) (c : Cursor) (name more tail : Bytes) (v : Json d) (pos : ℕ)
      (message : Bytes)
      → parse_string (skip_ws c) ≡ parsed name (at (b':' ∷ more) pos message)
      → ((q : ℕ) → Reads v tail message (value (skip_ws (at more q message))))
      → Reads (name, v) tail message (parse_member d value c)
  unfolding parse_member skip_ws blanks starts
  member_colon value c name more tail v pos message h later =
      let (q, e) = later (pos + 0 + 1) in rw (parse_member, h, e) (q, refl)

  parse_member-Reads :
      (levels : ℕ) (value : Values d)
      → ReadsBack d numeral levels value
      → (name : Bytes) (v : Json d) (tail : Bytes) (pos : ℕ) (message : Bytes)
      → Writable d numeral levels v
      → Delimited tail
      → Reads
          (name, v)
          tail
          message
          (parse_member d value (at (member_onto name v tail) pos message))
  parse_member-Reads levels value good name v tail pos message w k =
      member_colon value _ name _ tail v _ message
        (ap parse_string (skip_ws-Opens (member_onto name v tail) pos message refl)
          ∙ parse_string-between_quotes name (b':' ∷ print_onto d numeral v tail) pos message)
        (λ q. behind_blanks d numeral levels value good v tail q message w k)

  object_loop-last :
      (value : Values d) (fuel : ℕ) (obj : Members d) (c : Cursor) (name : Bytes) (v : Json d)
      (tail : Bytes) (pos : ℕ) (message : Bytes)
      → parse_member d value c ≡ parsed (name, v) (at (b'}' ∷ tail) pos message)
      → Reads (insert d name v obj) tail message (object_loop d value (suc fuel) obj c)
  unfolding object_loop skip_ws blanks starts
  object_loop-last value fuel obj c name v tail pos message h = rw (object_loop, h) (_, refl)

  object_loop-next :
      (value : Values d) (fuel : ℕ) (obj all : Members d) (c : Cursor) (name : Bytes) (v : Json d)
      (more tail : Bytes) (pos : ℕ) (message : Bytes)
      → parse_member d value c ≡ parsed (name, v) (at (b',' ∷ more) pos message)
      → ((q : ℕ)
          → Reads all tail message
              (object_loop d value fuel (insert d name v obj) (at more q message)))
      → Reads all tail message (object_loop d value (suc fuel) obj c)
  unfolding object_loop skip_ws blanks starts
  object_loop-next value fuel obj all c name v more tail pos message h later =
      let (q, e) = later (pos + 0 + 1) in rw (object_loop, h, e) (q, refl)

  pub object_loop-Reads :
      (levels : ℕ) (value : Values d)
      → ReadsBack d numeral levels value
      → (fuel : ℕ) (obj : Members d) (name : Bytes) (v : Json d) (rest : Members d) (tail : Bytes)
        (pos : ℕ) (message : Bytes)
      → size_members rest < fuel
      → Writable d numeral levels v
      → After d name rest
      → WritableMembers d numeral levels rest
      → Precedes d obj (member name v rest)
      → Reads (append d obj (member name v rest)) tail message (
          object_loop d value fuel obj
            (at (member_onto name v (members_onto d numeral rest tail)) pos message))
  unfolding members_onto WritableMembers
  object_loop-Reads levels value good zero obj name v rest tail pos message h w after ws sorted =
      absurd (omega arith)
  object_loop-Reads levels value good (suc fuel) obj name v end tail pos message h w after ws
        sorted =
      let (q, e) =
        parse_member-Reads levels value good name v _ pos message w
          (members_onto-Delimited d numeral end tail) in
      let (q', e') = object_loop-last value fuel obj _ name v tail q message e in
      (q', e' ∙ ap (λ ms. parsed ms (at tail q' message)) (insert-append d name v obj sorted.0))
  object_loop-Reads levels value good (suc fuel) obj name v (member next y rest) tail pos message h
        w after ws sorted =
      let (q, e) =
        parse_member-Reads levels value good name v _ pos message w
          (members_onto-Delimited d numeral (member next y rest) tail) in
      let inserted = insert-append d name v obj sorted.0 in
      object_loop-next value fuel obj _ _ name v _ tail q message e (λ q'.
        let (r, e') =
          object_loop-Reads levels value good fuel (insert d name v obj) next y rest tail q' message
            (omega arith) ws.0 ws.1 ws.2
            (subst (λ ms. Precedes d ms (member next y rest)) (sym inserted)
              (Precedes-append d obj name v (member next y rest) sorted.1 after)) in
        (
          r,
          e'
              ∙ ap (λ ms. parsed (append d ms (member next y rest)) (at tail r message)) inserted
              ∙ ap (λ ms. parsed ms (at tail r message))
                  (append-append d obj name v (member next y rest)),
        ))
