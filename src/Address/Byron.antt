-- ===== src/Address/Byron.antt =====
-- address/byron.go. The CBOR library and the CRC are parameters: what the file calls of them.
pub mod RoundTrip
use go_cardano_serialization.Base.{
  ℕ, Bool, true, false, not, ◌||◌, List, [], length, ◌==◌, if◌then◌else◌, Option, none, some, u32,
  Result, ok, err, panic, ◌>>=◌, ◌>>◌, guard,
}
use go_cardano_serialization.Bech32.Text.{Error}
use go_cardano_serialization.Address.Types.{ByronAddress, ByronAddressAttributes}

pub data AddressError : Type 0 where
  unsupported_address not_enough trailing_data unexpected_data : AddressError
  invalid_byron_address invalid_byron_checksum invalid_byron_parts cbor_error : AddressError
  invalid_hex : AddressError
  invalid_bech32 : Error → AddressError

-- `RawAddr`; the content is `none` where it is no byte string.
pub record RawAddr : Type 0 where
  pub tag_number : ℕ
  pub content : Option (List ℕ)
  pub checksum : ℕ

-- The calls of the package cbor, with `none` for an error, and `crc32.ChecksumIEEE`.
pub record ByronLibraries : Type 0 where
  pub marshal_parts : ByronAddress → Option (List ℕ)
  pub marshal_raw : ℕ → List ℕ → ℕ → Option (List ℕ)
  pub well_formed : List ℕ → Bool
  pub unmarshal_raw : List ℕ → Option RawAddr
  pub unmarshal_parts : List ℕ → Option ByronAddress
  pub checksum_ieee : List ℕ → ℕ

-- A result of the library, with its error passed on.
abbrev pub of_option : Option (List ℕ) → Result AddressError (List ℕ)
of_option none = err cbor_error
of_option (some bytes) = ok bytes

module _ (lib : ByronLibraries) where
  open lib use {
    marshal_parts, marshal_raw, well_formed, unmarshal_raw, unmarshal_parts, checksum_ieee,
  }

  -- `MarshalCBOR`: the parts, then tag 24 around them with their checksum.
  unfoldable pub byron_marshal_cbor : ByronAddress → Result AddressError (List ℕ)
  byron_marshal_cbor b = do
    raw ← of_option (marshal_parts b)
    of_option (marshal_raw 24 raw (checksum_ieee raw))

  -- `Bytes` drops the error, and is empty then.
  unfoldable pub byron_bytes : ByronAddress → List ℕ
  byron_bytes b = elim (byron_marshal_cbor b) [ ok bytes ↦ bytes | err _ ↦ [] | panic ↦ [] ]

  -- What `UnmarshalCBOR` does with the content of the tag.
  unfoldable pub read_parts : List ℕ → Result AddressError ByronAddress
  read_parts raw_tag = elim (unmarshal_parts raw_tag) [
    | none ↦ err cbor_error
    | some b ↦
        if not (length b.hash == 28) || not (b.tag == 0) then err invalid_byron_parts else ok b
  ]

  unfoldable pub read_raw : RawAddr → Result AddressError ByronAddress
  read_raw raw = elim raw.content [
    | none ↦ err invalid_byron_address
    | some raw_tag ↦ do
      guard (raw.tag_number == 24) invalid_byron_address
      guard (raw.checksum == checksum_ieee raw_tag) invalid_byron_checksum
      read_parts raw_tag
  ]

  unfoldable pub byron_unmarshal_cbor : List ℕ → Result AddressError ByronAddress
  byron_unmarshal_cbor input = elim (unmarshal_raw input) [
    | none ↦ err cbor_error
    | some raw ↦ read_raw raw
  ]

  -- `cbor.Unmarshal` into a type that has its own `UnmarshalCBOR`
  unfoldable pub unmarshal_byron : List ℕ → Result AddressError ByronAddress
  unmarshal_byron input = do guard (well_formed input) cbor_error; byron_unmarshal_cbor input
