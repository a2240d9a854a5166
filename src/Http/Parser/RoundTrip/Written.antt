-- ===== src/Http/Parser/RoundTrip/Written.antt =====
-- A response as a server writes it, with the length of its body or in chunks.
use chaos_forger.Prelude.{
  ℕ, ◌+◌, ◌/◌, ◌%◌, ◌^◌, ◌<◌, ◌≡◌, refl, Bool, true, false, List, [], ◌∷◌, ◌++◌, map, Bytes, text,
  length, All, All-append, is_empty, ◌==◌, arith, to_string, to_string-digits, is_digit, All-map,
  not, ◌&&◌,
}
use chaos_forger.Http.Parser.Fields.{blank_line}
use chaos_forger.Http.Parser.Headers.{ieq}
use chaos_forger.Http.Parser.RoundTrip.Blank.{IsPlain, NoBreak, IsLine, joined}
use chaos_forger.Http.Parser.RoundTrip.Chunked.{Chunk, encoded, payload}

pub record Field : Type 0 where
  pub name : Bytes
  pub value : Bytes

-- What a body is sent as.
pub data Content : Type 0 where
  plain : Bytes → Content
  in_chunks : List Chunk → Content

abbrev pub body_of : Content → Bytes
body_of (plain body) = body
body_of (in_chunks cs) = payload cs

-- The bytes behind the header block.
abbrev pub sent_as : Content → Bytes
sent_as (plain body) = body
sent_as (in_chunks cs) = encoded cs

-- The fields stand before and behind the one that tells the framing; `status` has three digits.
pub record Response : Type 0 where
  pub status : ℕ
  pub reason : Bytes
  pub before : List Field
  pub behind : List Field
  pub content : Content

abbrev pub coded : Response → Bytes
coded r =
    (b'0' + r.status / 100) ∷ (b'0' + r.status / 10 % 10) ∷ (b'0' + r.status % 10) ∷ b' ' ∷ r.reason

abbrev pub status_text : Response → Bytes
status_text r = text "HTTP/1.1 " ++ coded r

abbrev pub field_line : Field → Bytes
field_line f = f.name ++ (text ": " ++ f.value)

abbrev pub length_line : Bytes → Bytes
length_line body = text "Content-Length: " ++ to_string (length body)

abbrev pub framing_line : Content → Bytes
framing_line (plain body) = length_line body
framing_line (in_chunks cs) = text "Transfer-Encoding: chunked"

abbrev pub field_lines : Response → List Bytes
field_lines r = map field_line r.before ++ (framing_line r.content ∷ map field_line r.behind)

abbrev pub head : Response → Bytes
head r = joined (status_text r) (field_lines r)

abbrev pub wire : Response → Bytes
wire r = head r ++ (blank_line ++ sent_as r.content)

-- A field of another name than the two that the parser reads.
abbrev pub IsOther : Field → Type 0
IsOther f =
    (is_empty f.name ≡ false)
    × NoBreak f.name
    × All (λ c. (c == b':') ≡ false) f.name
    × NoBreak f.value
    × (ieq f.name (text "content-length") ≡ false)
    × (ieq f.name (text "transfer-encoding") ≡ false)

pub record WellFormed (r : Response) : Type 0 where
  pub three_digits : r.status < 1000
  pub one_line : NoBreak r.reason
  pub others_before : All IsOther r.before
  pub others_behind : All IsOther r.behind
  pub fits : length (body_of r.content) < 2 ^ 64

-- A test that computes on literals.
abbrev unbroken : Bytes → Bool
unbroken [] = true
unbroken (c ∷ cs) = not (c == b'\r') && unbroken cs

NoBreak-unbroken : (bs : Bytes) → unbroken bs ≡ true → NoBreak bs
NoBreak-unbroken [] h = tt
NoBreak-unbroken (c ∷ cs) h = (ground arith, NoBreak-unbroken cs (ground arith))

field-IsLine : (f : Field) → IsOther f → IsLine (field_line f)
unfolding text
field-IsLine f (filled, whole, _, single, _, _) =
    (All-append IsPlain f.name _ whole (refl, (refl, single)), filled_line f.name filled)
  where
    filled_line :
        (name : Bytes) → is_empty name ≡ false → is_empty (name ++ (text ": " ++ f.value)) ≡ false
    filled_line [] h = absurd (ground arith)
    filled_line (c ∷ cs) h = refl

digits-NoBreak : (bs : Bytes) → All (λ c. is_digit c ≡ true) bs → NoBreak bs
digits-NoBreak = All-map _ IsPlain (λ c h. ground arith)

length-IsLine : (body : Bytes) → IsLine (length_line body)
unfolding text
length-IsLine body = (
  All-append IsPlain (text "Content-Length: ") _ (NoBreak-unbroken (text "Content-Length: ") refl)
      (digits-NoBreak _ (to_string-digits (length body))),
  refl,
)

framing-IsLine : (c : Content) → IsLine (framing_line c)
unfolding text
framing-IsLine (plain body) = length-IsLine body
framing-IsLine (in_chunks cs) = (NoBreak-unbroken (text "Transfer-Encoding: chunked") refl, refl)

fields-AllLines : (fs : List Field) → All IsOther fs → All IsLine (map field_line fs)
fields-AllLines [] h = tt
fields-AllLines (f ∷ fs) h = (field-IsLine f h.0, fields-AllLines fs h.1)

pub field_lines-AllLines : (r : Response) → WellFormed r → All IsLine (field_lines r)
field_lines-AllLines r w =
    All-append IsLine (map field_line r.before) _ (fields-AllLines r.before w.others_before)
      (framing-IsLine r.content, fields-AllLines r.behind w.others_behind)

pub status_text-IsLine : (r : Response) → WellFormed r → IsLine (status_text r)
unfolding text
status_text-IsLine r w = (
  All-append IsPlain (text "HTTP/1.1 ") (coded r) (NoBreak-unbroken (text "HTTP/1.1 ") refl)
      (ground arith, (ground arith, (ground arith, (refl, w.one_line)))),
  refl,
)
