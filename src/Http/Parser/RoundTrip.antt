-- ===== src/Http/Parser/RoundTrip.antt =====
-- A writer of responses, against which `HttpResponseParser` is read: a status line, header fields
-- and a body framed by its length or in chunks, cut into pieces.
pub mod Decimal
pub mod Blank
pub mod Cuts
pub mod Written
pub mod Lines
pub mod Heads
pub mod Chunked
pub mod Decoder
pub mod Arrival
pub mod Plain
pub mod Chunkwise
pub mod Pieces
