-- ===== src/Http/Parser/RoundTrip/Cuts.antt =====
-- A text cut into pieces, and the feeds behind the end of a response.
use chaos_forger.Prelude.{
  ◌≤◌, ◌≡◌, ◌⊎◌, inl, inr, refl, true, false, List, [], ◌∷◌, ◌++◌, Option, Bytes, length,
  length-append, arith,
}
use chaos_forger.Http.Parser.Fields.{State, Parser, HttpResponse, is_done, is_error}
use chaos_forger.Http.Parser.{feed}
use chaos_forger.Http.Parser.Bounds.{feeds}

abbrev pub concat : List Bytes → Bytes
concat [] = []
concat (piece ∷ more) = piece ++ concat more

-- The last piece has three bytes at least.
abbrev pub LongEnd : List Bytes → Type 0
LongEnd [] = Unit
LongEnd (piece ∷ []) = 3 ≤ length piece
LongEnd (piece ∷ next ∷ more) = LongEnd (next ∷ more)

-- What is still to come: nothing, or three bytes at least.
abbrev pub Later : Bytes → Type 0
Later later = (later ≡ []) ⊎ (3 ≤ length later)

length-concat :
    (piece : Bytes) (more : List Bytes)
    → LongEnd (piece ∷ more)
    → 3 ≤ length (concat (piece ∷ more))
length-concat piece [] h = omega (arith, length-append piece [])
length-concat piece (next ∷ more) h =
    omega (arith, length-append piece (concat (next ∷ more)), length-concat next more h)

pub concat-Later : (pieces : List Bytes) → LongEnd pieces → Later (concat pieces)
concat-Later [] h = inl refl
concat-Later (piece ∷ more) h = inr (length-concat piece more h)

pub LongEnd-later : (piece : Bytes) (more : List Bytes) → LongEnd (piece ∷ more) → LongEnd more
LongEnd-later piece [] h = tt
LongEnd-later piece (next ∷ more) h = h

pub nothing-left : (m ys : Bytes) → m ++ ys ≡ [] → m ≡ []
nothing-left [] ys e = refl
nothing-left (x ∷ m) ys e = absurd (ground arith)

-- The parser is done, with this response.
pub record Holds (resp : HttpResponse) (p : Parser) : Type 0 where
  pub ended : is_done p.state ≡ true
  pub answered : p.resp ≡ resp

pub error-not_done : (s : State) → is_error s ≡ true → is_done s ≡ false
error-not_done s h = ground arith

pub feeds-failed :
    (pieces : List (Option Bytes)) (p : Parser) → is_error p.state ≡ true → feeds pieces p ≡ p
unfolding feeds feed
feeds-failed [] p h = refl
feeds-failed (piece ∷ more) p h = rw (error-not_done p.state h, h) (feeds-failed more p h)

pub feeds-done :
    (pieces : List (Option Bytes)) (p : Parser) → is_done p.state ≡ true → feeds pieces p ≡ p
unfolding feeds feed
feeds-done [] p h = refl
feeds-done (piece ∷ more) p h = rw h (feeds-done more p h)
