-- ===== src/Http/Parser/Fields.antt =====
-- The response, the limits, and the parser's fields.
use chaos_forger.Prelude.{
  ℕ, ◌*◌, Bool, true, false, ◌&&◌, [], ◌∷◌, Bytes, leb, ltb, ◌==◌, if◌then◌else◌,
}

pub record HttpResponse : Type 0 where
  pub status : ℕ
  pub status_text : Bytes
  pub body : Bytes

abbrev pub is_ok : HttpResponse → Bool
is_ok r = leb 200 r.status && ltb r.status 300

abbrev pub not_found : HttpResponse → Bool
not_found r = r.status == 404

abbrev pub conflict : HttpResponse → Bool
conflict r = r.status == 409

pub record Limits : Type 0 where
  pub max_body_bytes : ℕ
  pub max_header_bytes : ℕ
  pub max_chunk_line_bytes : ℕ

abbrev pub default_limits : Limits
default_limits = record {
  max_body_bytes = 16 * 1024 * 1024;
  max_header_bytes = 64 * 1024;
  max_chunk_line_bytes = 1024;
}

pub data State : Type 0 where
  status_line headers body_content_length body_chunked body_eof done error : State

pub data Framing : Type 0 where
  unframed by_content_length chunked eof : Framing

abbrev pub is_done : State → Bool
is_done done = true
is_done _ = false

abbrev pub is_error : State → Bool
is_error error = true
is_error _ = false

abbrev pub in_headers : State → Bool
in_headers status_line = true
in_headers headers = true
in_headers _ = false

abbrev pub in_body_eof : State → Bool
in_body_eof body_eof = true
in_body_eof _ = false

abbrev pub is_chunked : Framing → Bool
is_chunked chunked = true
is_chunked _ = false

-- `message` is the member `error_`.
pub record Parser : Type 0 where
  pub buf : Bytes
  pub state : State
  pub resp : HttpResponse
  pub message : Bytes
  pub limits : Limits
  pub allow_eof_termination : Bool
  pub trailer_bytes : ℕ
  pub framing : Framing
  pub content_length : ℕ
  pub chunk_started : Bool
  pub chunk_remaining : ℕ
  pub chunk_trailer_done : Bool

-- The constructor.
abbrev pub make : Bool → Limits → Parser
make allow limits = record {
  buf = [];
  state = status_line;
  resp = record { status = 0; status_text = []; body = [] };
  message = [];
  limits = limits;
  allow_eof_termination = allow;
  trailer_bytes = 0;
  framing = unframed;
  content_length = 0;
  chunk_started = false;
  chunk_remaining = 0;
  chunk_trailer_done = false;
}

unfoldable pub fail : Bytes → Parser → Bool × Parser
fail msg p = (false, if is_error p.state then p else record p { state = error; message = msg })

abbrev pub crlf : Bytes
crlf = b'\r' ∷ b'\n' ∷ []

abbrev pub blank_line : Bytes
blank_line = b'\r' ∷ b'\n' ∷ b'\r' ∷ b'\n' ∷ []
