-- ===== src/Http/Parser/RoundTrip/Chunkwise.antt =====
-- A chunked body, in pieces.
use chaos_forger.Prelude.{
  ◌+◌, ◌≡◌, refl, sym, ap, subst, ◌∙◌, Bool, List, [], ◌∷◌, ◌++◌, map, append_assoc, some, Bytes,
  length, length-append, inl, arith,
}
use chaos_forger.Http.Parser.Fields.{Parser}
use chaos_forger.Http.Parser.{step_body, step, feed_bytes, feed_live, feed}
use chaos_forger.Http.Parser.Chunks.{Round, stop, again, body_step_chunked}
use chaos_forger.Http.Parser.Progress.{Decodes, returns, goes_on, body_step_chunked-Decodes}
use chaos_forger.Http.Parser.Bounds.{feeds}
use chaos_forger.Http.Parser.RoundTrip.Cuts.{
  concat, LongEnd, Later, concat-Later, LongEnd-later, feeds-done,
}
use chaos_forger.Http.Parser.RoundTrip.Chunked.{
  Todo, idle, inside, remaining, left_of, chunks_of, decoding, decoded,
}
use chaos_forger.Http.Parser.RoundTrip.Arrival.{AllChunks, Fits, Comes, waits, ends, idles, insides}

abbrev next_of : Parser → Round → Parser
next_of p (stop r) = p
next_of p (again q) = q

-- The decoder's passes determine its result.
Decodes-unique : {p : Parser} {r s : Bool × Parser} → Decodes p r → Decodes p s → r ≡ s
Decodes-unique (returns h) (returns k) = ground arith
Decodes-unique (returns h) (goes_on k d) = absurd (ground arith)
Decodes-unique (goes_on h d) (returns k) = absurd (ground arith)
Decodes-unique {s} (goes_on {q} h d) (goes_on k e) =
    Decodes-unique d (subst (λ x. Decodes x s) (ap (next_of q) (sym k ∙ h)) e)

module _ (base : Parser) where
  decoding-eq :
      (body : Bytes) (todo : Todo) (buf : Bytes) (r : Bool × Parser)
      → Decodes (decoding base body todo buf) r
      → body_step_chunked (decoding base body todo buf) ≡ r
  decoding-eq body todo buf r d =
      Decodes-unique
        (body_step_chunked-Decodes (decoding base body todo buf) (λ e. absurd (ground arith))) d

  comes :
      (body : Bytes) (todo : Todo) (buf later : Bytes)
      → Later later
      → AllChunks base (chunks_of todo)
      → Fits base (length body + length (left_of todo))
      → buf ++ later ≡ remaining todo
      → Comes base later (body ++ left_of todo) (decoding base body todo buf)
  comes body (idle cs) buf later l ok fits e = idles base cs body buf later l ok fits e
  comes body (inside rest cs) buf later l ok fits e =
      insides base cs (idles base cs) body rest buf later l ok fits e

  feed-decoding :
      (body : Bytes) (todo : Todo) (buf piece : Bytes)
      → feed (some piece) (decoding base body todo buf)
        ≡ body_step_chunked (decoding base body todo (buf ++ piece))
  unfolding feed feed_live feed_bytes step step_body
  feed-decoding body todo buf piece = refl

  -- Behind the header block, what is left of the chunks.
  pub receives :
      (pieces : List Bytes) (body : Bytes) (todo : Todo) (buf : Bytes)
      → LongEnd pieces
      → AllChunks base (chunks_of todo)
      → Fits base (length body + length (left_of todo))
      → buf ++ concat pieces ≡ remaining todo
      → feeds (map some pieces) (body_step_chunked (decoding base body todo buf)).1
        ≡ decoded base (body ++ left_of todo)
  unfolding feeds
  receives [] body todo buf long ok fits e = elim (comes body todo buf [] (inl refl) ok fits e) [
    | waits _ _ _ _ _ _ _ le ↦ absurd (omega arith)
    | ends nil d ↦ ap (λ r. r.1) (decoding-eq body todo buf _ d)
  ]
  receives (piece ∷ more) body todo buf long ok fits e =
      elim (comes body todo buf (concat (piece ∷ more)) (concat-Later (piece ∷ more) long) ok fits
        e) [
          | waits body' todo' buf' d here whole ok' le ↦
              ap (λ r. feeds (map some (piece ∷ more)) r.1) (decoding-eq body todo buf _ d)
              ∙ (ap (λ r. feeds (map some more) r.1) (feed-decoding body' todo' buf' piece)
                  ∙ (receives more body' todo' (buf' ++ piece) (LongEnd-later piece more long) ok'
                        (subst (Fits base)
                          (omega (
                            arith,
                            ap length whole,
                            length-append body (left_of todo),
                            length-append body' (left_of todo'),
                          ))
                          fits)
                        (append_assoc buf' piece (concat more) ∙ here)
                      ∙ ap (decoded base) whole))
          | ends nil d ↦
              ap (λ r. feeds (map some (piece ∷ more)) r.1) (decoding-eq body todo buf _ d)
              ∙ feeds-done (map some (piece ∷ more)) (decoded base (body ++ left_of todo)) refl
        ]
