-- ===== src/Bip32.antt =====
-- The package bip32: one module for its 256-bit additions, one for keys, one for signatures.
pub mod Arithmetic
pub mod Keys
pub mod Sign
pub mod Examples
