-- ===== src/Compress.antt =====
-- internal/compress/compress.go: bounded block compression of a stream. DEFLATE is the interface
-- `Codec`.
pub mod Encoder
pub mod Decoder
pub mod Wire
pub mod RoundTrip
