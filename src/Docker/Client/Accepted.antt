-- ===== src/Docker/Client/Accepted.antt =====
-- What the container list lets through.
use chaos_forger.Prelude.{
  ℕ, suc, ◌+◌, ◌≡◌, ◌≢◌, refl, ap, not, [], ◌∷◌, Option, none, some, Bytes, text, length, is_empty,
  if_cases, All, arith, ok,
}
use chaos_forger.Double.{Double}
use chaos_forger.Json.{Json, Items, string, array, nil, cons, find}
use chaos_forger.Json.Parser.{parse}
use chaos_forger.Docker.Api.{Container}
use chaos_forger.Docker.Paths.{is_valid_container_id, normalize_container_name}
use chaos_forger.Docker.Paths.Wire.{
  IsContainerId, is_valid_container_id_iff, normalize_container_name_lem,
}
use chaos_forger.Docker.Client.{
  names_of, names_field, Entry, listed, skipped, container_of, entry_of, Listing, add_entry,
  entries, listing_of, parse_container_list,
}

-- A name with no slash in front, and not empty.
pub record IsPlainName (name : Bytes) : Type 0 where
  pub some_byte : name ≢ []
  pub no_slash : (rest : Bytes) → name ≢ b'/' ∷ rest

pub record IsAccepted (c : Container) : Type 0 where
  pub id_ok : IsContainerId c.id
  pub names_ok : All IsPlainName c.names

module _ (d : Double) where
  abbrev pub count : Items d → ℕ
  count nil = 0
  count (cons entry more) = suc (count more)

  names_of-IsPlainName : (items : Items d) → All IsPlainName (names_of d items)
  unfolding names_of
  names_of-IsPlainName nil = tt
  names_of-IsPlainName (cons (string raw) more) =
      let rest = names_of-IsPlainName more in
      if_cases (All IsPlainName) (is_empty (normalize_container_name raw)) (λ _. rest)
        (λ full. (
          record {
            some_byte = λ gone. cc (full, ap is_empty gone);
            no_slash = (normalize_container_name_lem raw).3;
          },
          rest,
        ))
  names_of-IsPlainName (cons _ more) = names_of-IsPlainName more

  names_field-IsPlainName : (o : Option (Json d)) → All IsPlainName (names_field d o)
  unfolding names_field
  names_field-IsPlainName (some (array items)) = names_of-IsPlainName items
  names_field-IsPlainName (some _) = tt
  names_field-IsPlainName none = tt

  abbrev Fits : Entry d → Type 0
  Fits (listed c) = IsAccepted c
  Fits (skipped line) = Unit

  entry_of-Fits : (entry : Json d) (o : Option (Json d)) → Fits (entry_of d entry o)
  unfolding entry_of container_of
  entry_of-Fits entry (some (string id)) =
      if_cases Fits (not (is_valid_container_id id)) (λ _. tt)
        (λ valid. record {
          id_ok = (is_valid_container_id_iff id).0 (ground arith);
          names_ok = names_field-IsPlainName (find d entry (text "Names"));
        })
  entry_of-Fits entry (some _) = tt
  entry_of-Fits entry none = tt

  -- The listing of `n` entries: accepted containers only, and a warning for each other entry.
  abbrev Sorted : ℕ → Listing d → Type 0
  Sorted n l = All IsAccepted l.containers × (length l.containers + length l.warnings ≡ n)

  add_entry-Sorted :
      (e : Entry d) (n : ℕ) (l : Listing d) → Fits e → Sorted n l → Sorted (suc n) (add_entry d e l)
  unfolding add_entry
  add_entry-Sorted (listed c) n l fits (all, counted) = ((fits, all), omega arith)
  add_entry-Sorted (skipped line) n l fits (all, counted) = (all, omega arith)

  entries-Sorted : (items : Items d) → Sorted (count items) (entries d items)
  unfolding entries
  entries-Sorted nil = (tt, refl)
  entries-Sorted (cons entry more) =
      add_entry-Sorted _ (count more) (entries d more) (entry_of-Fits entry _) (entries-Sorted more)

  -- Of a body that is a JSON array, the listing has only containers whose id is 64 hex digits and
  -- whose names are not empty and start with no slash; each other entry has its warning.
  pub parse_container_list-IsAccepted :
      (body : Bytes) (items : Items d)
      → parse d body ≡ ok (array items)
      → (l : Listing d) × (parse_container_list d body ≡ ok l)
        × All IsAccepted l.containers
        × (length l.containers + length l.warnings ≡ count items)
  unfolding parse_container_list listing_of
  parse_container_list-IsAccepted body items e =
      let (all, counted) = entries-Sorted items in (entries d items, rw e refl, all, counted)
