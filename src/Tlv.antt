-- ===== src/Tlv.antt =====
-- TLV8, the format of the pairing messages: src/lib/apple-tv/tlv/encoder.ts and decoder.ts.
-- The loops over `offset` keep the part of the buffer that starts at `offset`.
pub mod Encode
pub mod Decode
pub mod Laws
pub mod Inverse
pub mod Dict
mod Runs
