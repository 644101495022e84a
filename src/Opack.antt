-- ===== src/Opack.antt =====
-- OPACK2, the serialisation of the pairing payloads: src/lib/apple-tv/encryption/opack2.ts, with
-- its constants in src/lib/apple-tv/constants.ts.
pub mod Value
pub mod Encode
pub mod Decode
pub mod Progress
pub mod Headers
pub mod Plain
pub mod ItemsRound
pub mod FieldsRound
pub mod RoundTrip
pub mod Limits
mod Runs
