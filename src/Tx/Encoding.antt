-- ===== src/Tx/Encoding.antt =====
-- tx/encoding.go: byte strings as the hexadecimal of their CBOR.
use go_cardano_serialization.Base.{
  ◌≡◌, refl, ℕ, List, All, IsByte, Option, none, some, Result, ok, err, ◌>>=◌,
}
use go_cardano_serialization.Base.Hex.{decode_string, encode_to_string}
use go_cardano_serialization.Base.Hex.RoundTrip.{decode_string-encode_to_string}

pub data HexError : Type 0 where
  invalid_hex invalid_cbor : HexError

-- `Marshal` of a slice of bytes and `Unmarshal` into one
pub record ByteStringLibraries : Type 0 where
  pub marshal_bytes : List ℕ → Option (List ℕ)
  pub unmarshal_bytes : List ℕ → Option (List ℕ)

module _ (lib : ByteStringLibraries) where
  unfoldable pub get_bytes_from_cbor_hex : List ℕ → Result HexError (List ℕ)
  get_bytes_from_cbor_hex cbor_hex = elim (decode_string cbor_hex) [
    | none ↦ err invalid_hex
    | some cbor_data ↦ elim (lib.unmarshal_bytes cbor_data) [
      | none ↦ err invalid_cbor
      | some data_bytes ↦ ok data_bytes
    ]
  ]

  unfoldable pub get_cbor_hex_from_bytes : List ℕ → Result HexError (List ℕ)
  get_cbor_hex_from_bytes data_bytes = elim (lib.marshal_bytes data_bytes) [
    | none ↦ err invalid_cbor
    | some cbor_data ↦ ok (encode_to_string cbor_data)
  ]

-- The text that GetCBORHexFromBytes makes of a slice of bytes is read back by
-- GetBytesFromCBORHex, if the library encodes the slice as bytes that it decodes to the slice.
get_bytes_from_cbor_hex-get_cbor_hex_from_bytes :
    (lib : ByteStringLibraries) (data_bytes encoded : List ℕ)
    → lib.marshal_bytes data_bytes ≡ some encoded
    → lib.unmarshal_bytes encoded ≡ some data_bytes
    → All IsByte encoded
    → (get_cbor_hex_from_bytes lib data_bytes >>= get_bytes_from_cbor_hex lib) ≡ ok data_bytes
unfolding get_bytes_from_cbor_hex get_cbor_hex_from_bytes
get_bytes_from_cbor_hex-get_cbor_hex_from_bytes lib data_bytes encoded written read bytes =
    rw (written, get_cbor_hex_from_bytes)
      (rw (decode_string-encode_to_string encoded bytes, get_bytes_from_cbor_hex) (rw read refl))
