-- ===== src/Http/Parser/RoundTrip/Chunked.antt =====
-- The chunked body as a server writes it, and the decoder's state while a part of it has come.
use chaos_forger.Prelude.{
  ℕ, ◌≤◌, ◌<◌, ◌≡◌, inl, inr, refl, ap, ◌∙◌, Bool, true, false, List, [], ◌∷◌, ◌++◌, append-nil,
  Option, none, some, Bytes, text, length, All, take-append, is_empty, All-append, find?,
  find?_at_start, has_prefix_self, Bool-cases, is_xdigit, ◌==◌, arith,
}
use chaos_forger.Http.Parser.Fields.{Parser, body_chunked, done, crlf}
use chaos_forger.Http.Parser.Headers.Numbers.{hex_value}
use chaos_forger.Http.Parser.Chunks.{all_xdigits, size_digits}
use chaos_forger.Http.Parser.RoundTrip.Blank.{IsPlain, NoBreak, find?_absent, find?_skips}

-- The digits of the size, an extension (from its semicolon on), and the bytes.
pub record Chunk : Type 0 where
  pub digits : Bytes
  pub extension : Option Bytes
  pub bytes : Bytes

abbrev pub size_line : Chunk → Bytes
size_line c = c.digits ++ elim c.extension [ none ↦ [] | some e ↦ b';' ∷ e ]

abbrev pub IsExtension : Option Bytes → Type 0
IsExtension none = Unit
IsExtension (some e) = NoBreak e

pub record IsChunk (max_line : ℕ) (c : Chunk) : Type 0 where
  pub all_hex : all_xdigits c.digits ≡ true
  pub written : is_empty c.digits ≡ false
  pub in_word : length c.digits ≤ 16
  pub sized : hex_value c.digits 0 ≡ length c.bytes
  pub filled : is_empty c.bytes ≡ false
  pub extended : IsExtension c.extension
  pub line_fits : length (size_line c) < max_line

abbrev pub last_chunk_text : Bytes
last_chunk_text = b'0' ∷ b'\r' ∷ b'\n' ∷ b'\r' ∷ b'\n' ∷ []

digits-unlike :
    (k : ℕ) (digits : Bytes)
    → is_xdigit k ≡ false
    → all_xdigits digits ≡ true
    → All (λ c. (c == k) ≡ false) digits
unfolding all_xdigits
digits-unlike k [] h e = tt
digits-unlike k (c ∷ cs) h e = (unlike, digits-unlike k cs h (ground arith))
  where
    unlike : (c == k) ≡ false
    unlike = elim (Bool-cases (c == k)) [ inl same ↦ absurd (ground arith) | inr other ↦ other ]

pub size_line-NoBreak : (max_line : ℕ) (c : Chunk) → IsChunk max_line c → NoBreak (size_line c)
size_line-NoBreak max_line c ok =
    All-append IsPlain c.digits _ (digits-unlike b'\r' c.digits refl ok.all_hex)
      (extension-NoBreak c.extension ok.extended)
  where
    extension-NoBreak :
        (e : Option Bytes) → IsExtension e → NoBreak (elim e [ none ↦ [] | some e ↦ b';' ∷ e ])
    extension-NoBreak none h = tt
    extension-NoBreak (some e) h = (refl, h)

-- The digits end at the semicolon.
pub size_digits-size_line :
    (max_line : ℕ) (c : Chunk) → IsChunk max_line c → size_digits (size_line c) ≡ c.digits
unfolding size_digits text
size_digits-size_line max_line c ok = by_extension c.extension
  where
    no_semicolon : All (λ d. (d == b';') ≡ false) c.digits
    no_semicolon = digits-unlike b';' c.digits refl ok.all_hex

    by_extension :
        (e : Option Bytes)
        → size_digits (c.digits ++ elim e [ none ↦ [] | some e ↦ b';' ∷ e ]) ≡ c.digits
    by_extension none =
        ap size_digits (append-nil c.digits)
        ∙ rw (size_digits, find?_absent b';' c.digits [] no_semicolon) refl
    by_extension (some e) =
        let found : find? (c.digits ++ (b';' ∷ e)) (b';' ∷ []) ≡ some (length c.digits) =
          find?_skips b';' c.digits (b';' ∷ e) [] 0 no_semicolon
            (find?_at_start (b';' ∷ e) (b';' ∷ []) (has_prefix_self (b';' ∷ []) e))
          ∙ ap some (omega arith) in
        rw (found, size_digits) (take-append c.digits (b';' ∷ e))

-- What is still to be read: chunks, or the rest of one and then chunks.
pub data Todo : Type 0 where
  idle : List Chunk → Todo
  inside : Bytes → List Chunk → Todo

abbrev pub encoded : List Chunk → Bytes
encoded [] = last_chunk_text
encoded (c ∷ cs) = size_line c ++ (crlf ++ (c.bytes ++ (crlf ++ encoded cs)))

abbrev pub remaining : Todo → Bytes
remaining (idle cs) = encoded cs
remaining (inside rest cs) = rest ++ (crlf ++ encoded cs)

abbrev pub payload : List Chunk → Bytes
payload [] = []
payload (c ∷ cs) = c.bytes ++ payload cs

abbrev pub left_of : Todo → Bytes
left_of (idle cs) = payload cs
left_of (inside rest cs) = rest ++ payload cs

abbrev pub chunks_of : Todo → List Chunk
chunks_of (idle cs) = cs
chunks_of (inside rest cs) = cs

abbrev pub is_inside : Todo → Bool
is_inside (idle cs) = false
is_inside (inside rest cs) = true

abbrev pub chunk_left : Todo → ℕ
chunk_left (idle cs) = 0
chunk_left (inside rest cs) = length rest

module _ (base : Parser) where
  -- With `body` decoded and `buf` still in the buffer.
  abbrev pub decoding : Bytes → Todo → Bytes → Parser
  decoding body todo buf = record base {
    state = body_chunked;
    resp = record (base.resp) { body = body };
    buf = buf;
    chunk_started = is_inside todo;
    chunk_remaining = chunk_left todo;
  }

  abbrev pub decoded : Bytes → Parser
  decoded body = record (decoding body (idle []) []) {
    state = done;
    trailer_bytes = 2;
    chunk_trailer_done = true;
  }
