-- ===== src/Encoding.antt =====
-- The text encodings of the standard library that the SDK uses.
pub mod Hex
pub mod Base64
pub mod Decimal
