-- ===== src/Http/Parser/RoundTrip/Arrival.antt =====
-- The decoder on what has come of a chunked body: it waits for more, or it is done.
use chaos_forger.Prelude.{
  ℕ, ◌+◌, ◌≤◌, ◌<◌, ◌^◌, ◌≡◌, inl, inr, refl, sym, ap, subst, ◌∙◌, true, false, List, [], ◌∷◌, ◌++◌,
  append_assoc, append-nil, none, Bytes, length, length-append, All, is_empty, ltb, ltb→lt, arith,
  find?, Bool-cases,
}
use chaos_forger.Http.Parser.Fields.{Parser, crlf}
use chaos_forger.Http.Parser.Chunks.{again, chunk_end, chunk_header, chunk_round}
use chaos_forger.Http.Parser.Progress.{Decodes, returns, goes_on}
use chaos_forger.Http.Parser.RoundTrip.Blank.{line-short, append-split}
use chaos_forger.Http.Parser.RoundTrip.Cuts.{Later}
use chaos_forger.Http.Parser.RoundTrip.Chunked.{
  Chunk, size_line, IsChunk, last_chunk_text, Todo, idle, inside, encoded, remaining, payload,
  left_of, chunks_of, decoding, decoded, size_line-NoBreak,
}
use chaos_forger.Http.Parser.RoundTrip.Decoder.{
  Decodes-same, payload-whole, payload-part, end-partial, end-whole, last-whole, line-read,
}

long : (later : Bytes) → Later later → 0 < length later → 3 ≤ length later
long later (inl nil) h = absurd (omega (arith, ap length nil))
long later (inr le) h = le

module _ (base : Parser) where
  abbrev pub AllChunks : List Chunk → Type 0
  AllChunks = All (IsChunk base.limits.max_chunk_line_bytes)

  -- The limits that a chunked body of so many bytes needs.
  pub record Fits (size : ℕ) : Type 0 where
    pub body_fits : size ≤ base.limits.max_body_bytes
    pub small : base.limits.max_body_bytes < 2 ^ 64
    pub line_room : 2 ≤ base.limits.max_chunk_line_bytes

  pub data Comes (later : Bytes) (whole : Bytes) (p : Parser) : Type 0 where
    waits :
        (body : Bytes) (todo : Todo) (buf : Bytes)
        → Decodes p (true, decoding base body todo buf)
        → buf ++ later ≡ remaining todo
        → body ++ left_of todo ≡ whole
        → AllChunks (chunks_of todo)
        → 3 ≤ length later
        → Comes later whole p
    ends : later ≡ [] → Decodes p (true, decoded base whole) → Comes later whole p

  Comes-same :
      {later whole : Bytes} {p q : Parser}
      → chunk_round p ≡ chunk_round q
      → Comes later whole q
      → Comes later whole p
  Comes-same e (waits body todo buf d h k ok le) = waits body todo buf (Decodes-same e d) h k ok le
  Comes-same e (ends h d) = ends h (Decodes-same e d)

  Comes-again :
      {later whole : Bytes} {p q : Parser}
      → chunk_round p ≡ again q
      → Comes later whole q
      → Comes later whole p
  Comes-again e (waits body todo buf d h k ok le) = waits body todo buf (goes_on e d) h k ok le
  Comes-again e (ends h d) = ends h (goes_on e d)

  -- The decoder between two chunks, on every beginning of what is still to come.
  abbrev Idles : List Chunk → Type 0
  Idles cs =
      (body buf later : Bytes)
      → Later later
      → AllChunks cs
      → Fits (length body + length (payload cs))
      → buf ++ later ≡ encoded cs
      → Comes later (body ++ payload cs) (decoding base body (idle cs) buf)

  -- The size line is not complete.
  header-waits :
      (body buf : Bytes) (cs : List Chunk)
      → find? buf crlf ≡ none
      → length buf ≤ base.limits.max_chunk_line_bytes
      → Decodes (decoding base body (idle cs) buf) (true, decoding base body (idle cs) buf)
  unfolding chunk_round chunk_header
  header-waits body buf cs missing le =
      let allowed : ltb base.limits.max_chunk_line_bytes (length buf) ≡ false = ground arith in
      returns (rw (missing, chunk_header, allowed) refl)

  Idles-last : Idles []
  Idles-last body buf later (inl nil) ok fits e =
      let here : buf ≡ last_chunk_text = sym (append-nil buf) ∙ (ap (◌++◌ buf) (sym nil) ∙ e) in
      subst (λ b. Comes later (body ++ []) (decoding base body (idle []) b)) (sym here)
        (subst (λ w. Comes later w (decoding base body (idle []) last_chunk_text))
          (sym (append-nil body)) (ends nil (returns (last-whole base body fits.line_room))))
  Idles-last body buf later (inr le) ok fits e =
      let size : length buf ≤ 2 = omega (arith, ap length e, length-append buf later) in
      waits body (idle []) buf
        (header-waits body buf [] (line-short (b'0' ∷ []) crlf buf later (refl, tt) e (omega arith))
          (omega (arith, fits.line_room)))
        e refl tt le

  inside-part :
      (body buf rest : Bytes) (cs : List Chunk)
      → is_empty rest ≡ false
      → Decodes
          (decoding base body (inside (buf ++ rest) cs) buf)
          (true, decoding base (body ++ buf) (inside rest cs) [])
  unfolding chunk_round
  inside-part body buf rest cs h = returns (payload-part base body buf rest cs h)

  -- The payload is complete.
  insides-end :
      (cs : List Chunk)
      → Idles cs
      → (body rest buf later : Bytes) → Later later
      → AllChunks cs
      → Fits (length body + length (rest ++ payload cs))
      → buf ++ later ≡ crlf ++ encoded cs
      → Comes later
          (body ++ (rest ++ payload cs))
          (decoding base body (inside rest cs) (rest ++ buf))
  unfolding chunk_round
  insides-end cs next body rest buf later l ok fits e =
      let at_end = payload-whole base body rest buf cs in
      let whole : (body ++ rest) ++ payload cs ≡ body ++ (rest ++ payload cs) =
        append_assoc body rest (payload cs) in
      elim (Bool-cases (ltb (length buf) 2)) [
        | inl less ↦
            waits (body ++ rest) (inside [] cs) buf
              (returns (at_end ∙ end-partial base (body ++ rest) buf cs (ground arith))) e whole ok
              (long later l
                (omega (arith, ap length e, length-append buf later, ltb→lt (length buf) 2 less)))
        | inr enough ↦
            let (m, one, two) = append-split crlf (encoded cs) buf later e (ground arith) in
            Comes-again
              (at_end
                ∙ (ap (λ b. chunk_end (decoding base (body ++ rest) (inside [] cs) b)) one
                    ∙ end-whole base (body ++ rest) m cs))
              (subst (λ w. Comes later w (decoding base (body ++ rest) (idle cs) m)) whole
                (next (body ++ rest) m later l ok
                  (subst Fits
                    (omega (arith, length-append body rest, length-append rest (payload cs))) fits)
                  two))
      ]

  pub insides :
      (cs : List Chunk)
      → Idles cs
      → (body rest buf later : Bytes) → Later later
      → AllChunks cs
      → Fits (length body + length (rest ++ payload cs))
      → buf ++ later ≡ rest ++ (crlf ++ encoded cs)
      → Comes later (body ++ (rest ++ payload cs)) (decoding base body (inside rest cs) buf)
  insides cs next body rest buf later l ok fits e =
      elim (Bool-cases (ltb (length buf) (length rest))) [
        | inl less ↦
            let (m, one, two) =
              append-split buf later rest (crlf ++ encoded cs) (sym e) (ground arith) in
            let filled : is_empty m ≡ false = ground (arith, length-append buf m) in
            waits (body ++ buf) (inside m cs) []
              (subst
                (λ r.
                  Decodes (decoding base body (inside r cs) buf)
                    (true, decoding base (body ++ buf) (inside m cs) []))
                (sym one) (inside-part body buf m cs filled))
              (sym two)
              (append_assoc body buf (m ++ payload cs)
                ∙ ap (◌++◌ body)
                    (sym (append_assoc buf m (payload cs)) ∙ ap (λ r. r ++ payload cs) (sym one)))
              ok (long later l (omega (arith, ap length two, length-append m (crlf ++ encoded cs))))
        | inr enough ↦
            let (m, one, two) = append-split rest (crlf ++ encoded cs) buf later e (ground arith) in
            subst
              (λ b.
                Comes later (body ++ (rest ++ payload cs)) (decoding base body (inside rest cs) b))
              (sym one) (insides-end cs next body rest m later l ok fits two)
      ]

  pub idles : (cs : List Chunk) → Idles cs
  unfolding chunk_round
  idles [] = Idles-last
  idles (c ∷ cs) = λ body buf later l ok fits e.
      elim (Bool-cases (ltb (length buf) (length (size_line c) + 2))) [
        | inl less ↦
            waits body (idle (c ∷ cs)) buf
              (header-waits body buf (c ∷ cs)
                (line-short (size_line c) _ buf later (size_line-NoBreak _ c ok.0) e (ground arith))
                (omega (arith, ok.0.line_fits, ltb→lt _ _ less)))
              e refl ok
              (long later l (
                omega (
                  arith,
                  ap length e,
                  length-append buf later,
                  length-append (size_line c) (crlf ++ (c.bytes ++ (crlf ++ encoded cs))),
                  ltb→lt _ _ less,
                )))
        | inr enough ↦
            let (m, one, two) =
              append-split (size_line c ++ crlf) (c.bytes ++ (crlf ++ encoded cs)) buf later
                (e ∙ sym (append_assoc (size_line c) crlf _))
                (ground (arith, length-append (size_line c) crlf)) in
            let here : buf ≡ size_line c ++ (crlf ++ m) = one ∙ append_assoc (size_line c) crlf m in
            subst
              (λ b.
                Comes later (body ++ (c.bytes ++ payload cs))
                  (decoding base body (idle (c ∷ cs)) b))
              (sym here)
              (Comes-same
                (line-read base body m c cs ok.0
                  (omega (arith, fits.body_fits, length-append c.bytes (payload cs))) fits.small)
                (insides cs (idles cs) body c.bytes m later l ok.1 fits two))
      ]
