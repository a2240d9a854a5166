-- ===== src/Json/Parser/RoundTrip/Order.antt =====
-- The insertion of members whose keys come in order.
use chaos_forger.Prelude.{◌≡◌, refl, ap, true, false, [], ◌∷◌, Bytes, same, arith}
use chaos_forger.Double.{Double}
use chaos_forger.Json.{Json, Members, end, member}
use chaos_forger.Json.Parser.{before, insert}
use chaos_forger.Json.Parser.Writer.{After}

before-asym : (j k : Bytes) → before j k ≡ true → (same k j ≡ false) × (before k j ≡ false)
unfolding before same
before-asym [] [] h = cc
before-asym [] (y ∷ ys) h = (refl, refl)
before-asym (x ∷ xs) [] h = cc
before-asym (x ∷ xs) (y ∷ ys) h = ground (arith, before-asym xs ys)

module _ (d : Double) where
  abbrev pub append : Members d → Members d → Members d
  append end ms = ms
  append (member name v rest) ms = member name v (append rest ms)

  -- The keys of the members come before the key.
  abbrev pub Before : Members d → Bytes → Type 0
  Before end key = Unit
  Before (member name v rest) key = (before name key ≡ true) × Before rest key

  abbrev pub Precedes : Members d → Members d → Type 0
  Precedes ms end = Unit
  Precedes ms (member name v rest) = Before ms name × Precedes ms rest

  pub insert-append :
      (key : Bytes) (v : Json d) (ms : Members d)
      → Before ms key
      → insert d key v ms ≡ append ms (member key v end)
  unfolding insert
  insert-append key v end h = refl
  insert-append key v (member name old rest) (h, hs) =
      let (differs, behind) = before-asym name key h in
      rw (differs, behind) (ap (member name old) (insert-append key v rest hs))

  pub append-append :
      (ms : Members d) (key : Bytes) (v : Json d) (rest : Members d)
      → append (append ms (member key v end)) rest ≡ append ms (member key v rest)
  append-append end key v rest = refl
  append-append (member name old more) key v rest =
      ap (member name old) (append-append more key v rest)

  Before-append :
      (ms : Members d) (key : Bytes) (v : Json d) (later : Bytes)
      → Before ms later
      → before key later ≡ true
      → Before (append ms (member key v end)) later
  Before-append end key v later h k = (k, tt)
  Before-append (member name old rest) key v later (h, hs) k =
      (h, Before-append rest key v later hs k)

  pub Precedes-append :
      (ms : Members d) (key : Bytes) (v : Json d) (rest : Members d)
      → Precedes ms rest
      → After d key rest
      → Precedes (append ms (member key v end)) rest
  Precedes-append ms key v end h k = tt
  Precedes-append ms key v (member name old rest) (h, hs) (k, ks) =
      (Before-append ms key v name h k, Precedes-append ms key v rest hs ks)

  pub Precedes-end : (rest : Members d) → Precedes end rest
  Precedes-end end = tt
  Precedes-end (member name v rest) = (tt, Precedes-end rest)
