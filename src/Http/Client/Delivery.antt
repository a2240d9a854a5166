-- ===== src/Http/Client/Delivery.antt =====
-- A request whose response arrives: the loop of `request` over the parser.
use chaos_forger.Prelude.{ℕ, ◌≤◌, ◌≡◌, true, List, [], ◌∷◌, some, Bytes, length, All, ok}
use chaos_forger.Http.Parser.Fields.{Parser, default_limits}
use chaos_forger.Http.Parser.RoundTrip.Written.{Response, wire, WellFormed}
use chaos_forger.Http.Parser.RoundTrip.Cuts.{concat}
use chaos_forger.Http.Parser.RoundTrip.Pieces.{Room, Cut}
use chaos_forger.Http.Client.{received, Transport, receive}
use chaos_forger.Http.Client.Exchange.{sent}

module _ (t : Transport) where
  -- The next reads hand back these bytes.
  abbrev pub Gives : List Bytes → t.Conn → Type 0
  Gives [] c = Unit
  Gives (piece ∷ more) c =
      ((t.read_some 8192 c).0 ≡ received piece) × Gives more (t.read_some 8192 c).1

  -- What the loop leaves with.
  abbrev Leaves : ℕ → Parser → Parser → t.Conn → Type 0
  Leaves fuel q p c = (d : t.Conn) × (receive t fuel p c ≡ some (ok q, d))

  -- The connection opens and takes the request, and the reads hand back these pieces, which make up
  -- a well-formed response: they have at most `k` bytes, for which the default limits give room, and
  -- the last one of a chunked response has three bytes at least.
  pub record Delivers (k : ℕ) (r : Response) (pieces : List Bytes) (request_bytes : Bytes)
      (c : t.Conn) : Type 0 where
    pub well_formed : WellFormed r
    pub room : Room true default_limits r k
    pub short : All (λ piece. length piece ≤ k) pieces
    pub cut : Cut r.content pieces
    pub whole : concat pieces ≡ wire r
    pub opens : (t.connect c).0 ≡ ok tt
    pub takes : (t.send_all request_bytes (t.connect c).1).0 ≡ ok tt
    pub gives : Gives pieces (sent t request_bytes c)
