-- ===== src/Codec.antt =====
-- compression.c: the dictionary, `compress` and `decompress`.
pub mod Bits
pub mod Dict
pub mod Compress
pub mod Decompress
pub mod Filling
pub mod RoundTrip
pub mod Tests
