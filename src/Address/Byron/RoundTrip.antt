-- ===== src/Address/Byron/RoundTrip.antt =====
-- What address/byron.go relies on in the CBOR library and the CRC, and the round trip of a Byron
-- address under it.
use go_cardano_serialization.Base.{ℕ, ◌^◌, ◌<◌, ◌≡◌, arith, true, List, ◌∷◌, length, some, ok}
use go_cardano_serialization.Address.Types.{ByronAddress}
use go_cardano_serialization.Address.Byron.{
  ByronLibraries, byron_marshal_cbor, byron_bytes, read_parts, read_raw, byron_unmarshal_cbor,
  unmarshal_byron,
}

-- Encoding does not fail on these types, decoding inverts it, an array of two items starts with
-- 0x82, and a CRC-32 fits 32 bits.
pub record ByronLaws (lib : ByronLibraries) : Type 0 where
  pub parts : ByronAddress → List ℕ
  pub parts_marshal : (b : ByronAddress) → lib.marshal_parts b ≡ some (parts b)
  pub parts_unmarshal : (b : ByronAddress) → lib.unmarshal_parts (parts b) ≡ some b
  pub raw : ℕ → List ℕ → ℕ → List ℕ
  pub raw_marshal :
      (n : ℕ) (content : List ℕ) (sum : ℕ)
      → lib.marshal_raw n content sum ≡ some (0x82 ∷ raw n content sum)
  pub raw_well_formed :
      (n : ℕ) (content : List ℕ) (sum : ℕ) → lib.well_formed (0x82 ∷ raw n content sum) ≡ true
  pub raw_unmarshal :
      (n : ℕ) (content : List ℕ) (sum : ℕ)
      → sum < 2 ^ 32
      → lib.unmarshal_raw (0x82 ∷ raw n content sum)
        ≡ some (record { tag_number = n; content = some content; checksum = sum })
  pub checksum_small : (content : List ℕ) → lib.checksum_ieee content < 2 ^ 32

module _ (lib : ByronLibraries) (laws : ByronLaws lib) (b : ByronAddress) where
  abbrev sum_of : ℕ
  sum_of = lib.checksum_ieee (laws.parts b)

  pub byron_bytes-eq : byron_bytes lib b ≡ 0x82 ∷ laws.raw 24 (laws.parts b) sum_of
  unfolding byron_bytes byron_marshal_cbor
  byron_bytes-eq = ground (arith, laws.parts_marshal b, laws.raw_marshal 24 (laws.parts b) sum_of)

  read_parts-ok : length b.hash ≡ 28 → b.tag ≡ 0 → read_parts lib (laws.parts b) ≡ ok b
  unfolding read_parts
  read_parts-ok h t = ground (arith, laws.parts_unmarshal b)

  -- `cbor.Unmarshal` gives back a Byron address that has a hash of 28 bytes and the tag 0.
  pub unmarshal_byron-byron_bytes :
      length b.hash ≡ 28 → b.tag ≡ 0 → unmarshal_byron lib (byron_bytes lib b) ≡ ok b
  unfolding unmarshal_byron byron_unmarshal_cbor read_raw
  unmarshal_byron-byron_bytes h t = rw byron_bytes-eq (
      ground (
        arith,
        laws.raw_well_formed 24 (laws.parts b) sum_of,
        laws.raw_unmarshal 24 (laws.parts b) sum_of,
        laws.checksum_small (laws.parts b),
        read_parts-ok h t,
      ))
