-- ===== src/Stream.antt =====
-- source/forstio/stream_endian.h: `ShiftStreamValue`, numbers of 1, 2, 4 and 8 bytes, the lowest
-- byte first. A value is its bit pattern: `memcpy` between `T` and the unsigned type of its width
-- does not change it.
pub mod Defs
pub mod Bytes
pub mod Encode
pub mod Decode
