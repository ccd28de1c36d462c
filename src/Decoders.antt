-- ===== src/Decoders.antt =====
-- httpx2/httpx2/_decoders.py: what turns the chunks of a response body into bytes, text and lines.
pub mod Chunker
pub mod Lines
