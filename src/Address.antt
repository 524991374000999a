-- ===== src/Address.antt =====
-- The package address: one module for its types, one for the variable-length numbers of pointer
-- addresses, one for the bytes of an address, one for reading them, one for texts.
pub mod Types
pub mod VariableNat
pub mod Bytes
pub mod Byron
pub mod Parse
pub mod Text
pub mod Examples
