-- ===== src/Http/Parser/RoundTrip/Plain.antt =====
-- A body whose length was given, in pieces.
use chaos_forger.Prelude.{
  ◌<◌, ◌≡◌, refl, sym, ap, ◌∙◌, true, false, List, [], ◌∷◌, ◌++◌, map, append_assoc, append-nil,
  some, Bytes, length, drop_all, ltb, Bool-cases, inl, inr, arith, take_all,
}
use chaos_forger.Http.Parser.Fields.{body_content_length, done, Parser}
use chaos_forger.Http.Parser.{
  body_step_content_length, step_body, step, feed_bytes, feed_live, feed,
}
use chaos_forger.Http.Parser.Bounds.{feeds}
use chaos_forger.Http.Parser.RoundTrip.Blank.{append-split}
use chaos_forger.Http.Parser.RoundTrip.Written.{plain}
use chaos_forger.Http.Parser.RoundTrip.Heads.{framed}
use chaos_forger.Http.Parser.RoundTrip.Cuts.{concat, nothing-left, feeds-done}

module _ (base : Parser) (body : Bytes) where
  -- With a part of the body in the buffer.
  abbrev pub receiving : Bytes → Parser
  receiving seen = record (framed (plain body) base) { buf = seen; state = body_content_length }

  abbrev pub complete : Parser
  complete = record (receiving []) { state = done; resp = record (base.resp) { body = body } }

  body-partial :
      (seen : Bytes)
      → length seen < length body
      → body_step_content_length (receiving seen) ≡ (true, receiving seen)
  unfolding body_step_content_length
  body-partial seen h =
      let less : ltb (length seen) (length body) ≡ true = ground arith in
      rw (less, body_step_content_length) refl

  body-whole : body_step_content_length (receiving body) ≡ (true, complete)
  unfolding body_step_content_length
  body-whole =
      let enough : ltb (length body) (length body) ≡ false = ground arith in
      rw
        (enough, body_step_content_length, take_all (length body) body (omega arith), drop_all body)
        refl

  -- Behind the header block, the rest of the body.
  pub receives :
      (pieces : List Bytes) (seen : Bytes)
      → seen ++ concat pieces ≡ body
      → feeds (map some pieces) (body_step_content_length (receiving seen)).1 ≡ complete
  unfolding feeds feed feed_live feed_bytes step step_body
  receives [] seen e = rw (sym (append-nil seen) ∙ e, body-whole) refl
  receives (piece ∷ more) seen e = elim (Bool-cases (ltb (length seen) (length body))) [
    | inl partial ↦
        rw (body-partial seen (ground arith))
          (receives more (seen ++ piece) (append_assoc seen piece (concat more) ∙ e))
    | inr whole ↦
        let (m, one, two) =
          append-split body [] seen (concat (piece ∷ more)) (e ∙ sym (append-nil body))
            (ground arith) in
        let same : seen ≡ body = one ∙ (ap (◌++◌ body) (nothing-left m _ two) ∙ append-nil body) in
        rw (same, body-whole) (feeds-done (map some (piece ∷ more)) complete refl)
  ]
