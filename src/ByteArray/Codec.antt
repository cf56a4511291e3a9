-- ===== src/ByteArray/Codec.antt =====
-- The typed reads and writes of ByteArray.cpp, and Endian.h.
pub mod Fixed
pub mod Varint
pub mod Zigzag
pub mod Text
pub mod Bytes
pub mod Laws
