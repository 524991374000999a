-- ===== src/Bech32.antt =====
-- internal/bech32/bech32.go: one module for the text helpers, one for the checksum, one for
-- `convertBits`, and one for `Encode` and `Decode`.
pub mod Text
pub mod Checksum
pub mod ConvertBits
pub mod Codec
mod Examples
mod Witnesses
