-- ===== src/Tests/DeliveryWitnesses.antt =====
-- The theorems about responses in pieces, on a chunked one that comes in three reads.
use chaos_forger.Prelude.{
  ◌≤◌, ◌≡◌, refl, true, false, List, [], ◌∷◌, map, none, some, Bytes, text, All, length, same,
  arith,
}
use chaos_forger.Http.Parser.Fields.{make, default_limits}
use chaos_forger.Http.Parser.Headers.{ieq}
use chaos_forger.Http.Parser.Headers.Numbers.{hex_value}
use chaos_forger.Http.Parser.Chunks.{all_xdigits}
use chaos_forger.Http.Parser.Bounds.{feeds}
use chaos_forger.Http.Parser.RoundTrip.Cuts.{concat, Holds}
use chaos_forger.Http.Parser.RoundTrip.Chunked.{Chunk, IsChunk}
use chaos_forger.Http.Parser.RoundTrip.Written.{
  Field, plain, in_chunks, Response, IsOther, WellFormed, wire, body_of,
}
use chaos_forger.Http.Parser.RoundTrip.Pieces.{Room, feeds-wire}
use chaos_forger.Json.{array}
use chaos_forger.Json.Parser.Writer.{print}
use chaos_forger.Docker.Api.{Container}
use chaos_forger.Docker.Client.Written.{document_of}
use chaos_forger.Tests.Documents.{whole_numeral}
use chaos_forger.Tests.Example.{hundredths, full_id}
use chaos_forger.Tests.ClientWitnesses.{Script}

abbrev chunk : Chunk
chunk = record { digits = text "2"; extension = none; bytes = text "[]" }

abbrev server : Field
server = record { name = text "Server"; value = text "Docker" }

abbrev listing : Response
listing = record {
  status = 200;
  reason = text "OK";
  before = server ∷ [];
  behind = [];
  content = in_chunks (chunk ∷ []);
}

abbrev pieces : List Bytes
pieces =
    text "HTTP/1.1 200 OK\r\nServer: Docker\r\nTransfer-Encod"
    ∷ text "ing: chunked\r\n\r\n2\r\n["
    ∷ text "]\r\n0\r\n\r\n"
    ∷ []

chunk-IsChunk : IsChunk 1024 chunk
unfolding text hex_value all_xdigits
chunk-IsChunk = record {
  all_hex = refl;
  written = refl;
  in_word = omega arith;
  sized = refl;
  filled = refl;
  extended = tt;
  line_fits = omega arith;
}

server-IsOther : IsOther server
unfolding text ieq same
server-IsOther = ground arith

listing-WellFormed : WellFormed listing
unfolding text
listing-WellFormed = record {
  three_digits = omega arith;
  one_line = (refl, (refl, tt));
  others_before = (server-IsOther, tt);
  others_behind = tt;
  fits = omega arith;
}

listing-Room : Room true default_limits listing 8192
unfolding text
listing-Room = record {
  head_fits = omega arith;
  small_head = omega arith;
  body_fits = omega arith;
  small_body = omega arith;
  line_room = omega arith;
  chunks = (chunk-IsChunk, tt);
}

pieces-short : All (λ (piece : Bytes). length piece ≤ 8192) pieces
unfolding text
pieces-short = (omega arith, (omega arith, (omega arith, tt)))

last_long : 3 ≤ length (text "]\r\n0\r\n\r\n")
unfolding text
last_long = omega arith

pieces-wire : concat pieces ≡ wire listing
unfolding text
pieces-wire = refl

feeds-wire_example :
    Holds
      (record { status = 200; status_text = text "OK"; body = body_of listing.content })
      (feeds (map some pieces) (make true default_limits))
feeds-wire_example =
    feeds-wire true default_limits listing 8192 pieces listing-WellFormed listing-Room pieces-short
      last_long pieces-wire

abbrev script : Script
script = record { pending = pieces; is_open = false }

-- A container with two names, and the response that lists it, read at once.
abbrev web : Container
web = record {
  id = full_id;
  names = text "web-1" ∷ text "blog/web" ∷ [];
  image = text "nginx";
  state = text "running";
  status = text "Up 2 hours";
}

abbrev web_listing : Response
web_listing = record {
  status = 200;
  reason = text "OK";
  before = server ∷ [];
  behind = [];
  content = plain (print hundredths whole_numeral (array (document_of hundredths (web ∷ []))));
}

abbrev web_script : Script
web_script = record { pending = wire web_listing ∷ []; is_open = false }
