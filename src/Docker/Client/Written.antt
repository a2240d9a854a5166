-- ===== src/Docker/Client/Written.antt =====
-- The document in which the daemon lists containers, as Docker documents it, and the listing that
-- is read from it.
use chaos_forger.Prelude.{
  ℕ, suc, ◌≡◌, refl, ap, ◌∙◌, true, false, Bool-cases, inl, inr, List, [], ◌∷◌, some, Bytes, text,
  same, ◌==◌, is_empty, All, arith,
}
use chaos_forger.Double.{Double}
use chaos_forger.Json.{Json, Items, string, array, object, nil, cons, end, member, lookup, find}
use chaos_forger.Json.Parser.{before}
use chaos_forger.Json.Parser.Writer.{Numeral, Writable, WritableItems}
use chaos_forger.Docker.Api.{Container}
use chaos_forger.Docker.Paths.{is_valid_container_id, normalize_container_name}
use chaos_forger.Docker.Paths.Wire.{is_valid_container_id_iff}
use chaos_forger.Docker.Client.{
  names_of, names_field, text_field, listed, container_of, entry_of, add_entry, entries,
}
use chaos_forger.Docker.Client.Accepted.{IsPlainName, IsAccepted}

normalize-IsPlainName : (name : Bytes) → IsPlainName name → normalize_container_name name ≡ name
unfolding normalize_container_name
normalize-IsPlainName [] h = refl
normalize-IsPlainName (c ∷ cs) h = elim (Bool-cases (c == b'/')) [
  | inl slash ↦ absurd (h.no_slash cs (ap (λ x. x ∷ cs) (ground arith)))
  | inr other ↦ rw other refl
]

normalize-slash :
    (name : Bytes) → normalize_container_name (b'/' ∷ name) ≡ normalize_container_name name
unfolding normalize_container_name
normalize-slash name = refl

module _ (d : Double) where
  -- The names, each with the slash that the daemon puts in front.
  abbrev slashed : List Bytes → Items d
  slashed [] = nil
  slashed (name ∷ more) = cons (string (b'/' ∷ name)) (slashed more)

  abbrev written : Container → Json d
  written c = object (
      member (text "Id") (string c.id) (
        member (text "Image") (string c.image) (
          member (text "Names") (array (slashed c.names)) (
            member (text "State") (string c.state)
              (member (text "Status") (string c.status) end)))))

  -- The elements of the array.
  abbrev pub document_of : List Container → Items d
  document_of [] = nil
  document_of (c ∷ cs) = cons (written c) (document_of cs)

  names_of-slashed :
      (names : List Bytes) → All IsPlainName names → names_of d (slashed names) ≡ names
  unfolding names_of
  names_of-slashed [] h = refl
  names_of-slashed (name ∷ more) h =
      let normal : normalize_container_name (b'/' ∷ name) ≡ name =
        normalize-slash name ∙ normalize-IsPlainName name h.0 in
      let filled : is_empty name ≡ false = nonempty name h.0 in
      rw (normal, filled, names_of-slashed more h.1) refl
    where
      nonempty : (name : Bytes) → IsPlainName name → is_empty name ≡ false
      nonempty [] h = absurd (h.some_byte refl)
      nonempty (c ∷ cs) h = refl

  container_of-written :
      (c : Container) → All IsPlainName c.names → container_of d (written c) c.id ≡ c
  unfolding container_of names_field text_field find lookup same text
  container_of-written c h =
      ap
        (λ names. record {
          id = c.id;
          names = names;
          image = c.image;
          state = c.state;
          status = c.status;
        })
        (names_of-slashed c.names h)

  entry_of-written :
      (c : Container)
      → IsAccepted c
      → entry_of d (written c) (find d (written c) (text "Id")) ≡ listed c
  unfolding entry_of
  entry_of-written c h =
      let valid : is_valid_container_id c.id ≡ true = (is_valid_container_id_iff c.id).1 h.id_ok in
      let found : find d (written c) (text "Id") ≡ some (string c.id) =
        unfold find lookup same text in refl in
      rw (found, valid) (ap listed (container_of-written c h.names_ok))

  pub entries-document_of :
      (cs : List Container)
      → All IsAccepted cs
      → entries d (document_of cs) ≡ record { containers = cs; warnings = [] }
  unfolding entries add_entry
  entries-document_of [] h = refl
  entries-document_of (c ∷ cs) h = rw (entry_of-written c h.0, entries-document_of cs h.1) refl

  module _ (numeral : d.Carrier → Numeral) where
    WritableItems-slashed :
        (n : ℕ) (names : List Bytes) → WritableItems d numeral (suc n) (slashed names)
    unfolding Writable
    WritableItems-slashed n [] = tt
    WritableItems-slashed n (name ∷ more) = (tt, WritableItems-slashed n more)

    WritableItems-document_of :
        (n : ℕ) (cs : List Container)
        → WritableItems d numeral (suc (suc (suc (suc n)))) (document_of cs)
    unfolding Writable before text
    WritableItems-document_of n [] = tt
    WritableItems-document_of n (c ∷ cs) = (
      (
        tt,
        (refl, (refl, (refl, (refl, tt)))),
        (
          tt,
          (refl, (refl, (refl, tt))),
          (
            WritableItems-slashed (suc n) c.names,
            (refl, (refl, tt)),
            (tt, (refl, tt), (tt, tt, tt)),
          ),
        ),
      ),
      WritableItems-document_of n cs,
    )

    pub Writable-document_of :
        (cs : List Container) → Writable d numeral 65 (array (document_of cs))
    unfolding Writable
    Writable-document_of cs = WritableItems-document_of 60 cs
