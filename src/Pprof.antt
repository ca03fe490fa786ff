-- ===== src/Pprof.antt =====
-- packages/pprof-decoder/src/index.ts: the decoder and the encoder of pprof profiles.
pub mod Double
pub mod Reader
pub mod Decode
pub mod Encode
pub mod Varint
pub mod Fields
pub mod Messages
pub mod Builder
pub mod RoundTrip
pub mod Bytes
pub mod Blob
pub mod Safe
pub mod Total
mod Tests
