-- ===== src/Address/Text.antt =====
-- `String`, `NewAddress` and `NewAddressFromHex` of the package address. Base58 and the bech32 of
-- btcutil, which pointer addresses use, are parameters.
pub mod RoundTrip
pub mod Prefix
pub mod Canonical
use go_cardano_serialization.Base.{
  ℕ, Bool, true, false, ◌&&◌, ◌||◌, List, [], ◌∷◌, ◌==◌, if◌then◌else◌, Option, none, some, Result,
  ok, err, panic, ◌>>=◌,
}
use go_cardano_serialization.Base.Hex.{decode_string}
use go_cardano_serialization.Bech32.Text.{Error, codes}
use go_cardano_serialization.Bech32.Codec.{encode, decode}
use go_cardano_serialization.Address.Types.{
  Address, base, enterprise, reward, pointer, byron, BaseAddress, EnterpriseAddress, RewardAddress,
  PointerAddress, ByronAddress,
}
use go_cardano_serialization.Address.Byron.{
  ByronLibraries, AddressError, invalid_hex, invalid_bech32, byron_bytes,
}
use go_cardano_serialization.Address.Bytes.{
  base_bytes, enterprise_bytes, reward_bytes, pointer_bytes, base_prefix, enterprise_prefix,
  reward_prefix, pointer_prefix,
}
use go_cardano_serialization.Address.Parse.{new_address_from_bytes}

-- `base58` and `bech32` of btcutil; `none` is the error of its `Encode`.
pub record TextLibraries : Type 0 where
  pub byron_libraries : ByronLibraries
  pub base58_encode : List ℕ → List ℕ
  pub base58_decode : List ℕ → List ℕ
  pub btcutil_encode : List ℕ → List ℕ → Option (List ℕ)

-- `strings.HasPrefix(s, prefix)`, the prefix first
unfoldable pub has_prefix : List ℕ → List ℕ → Bool
has_prefix [] s = true
has_prefix (c ∷ cs) [] = false
has_prefix (c ∷ cs) (d ∷ ds) = c == d && has_prefix cs ds

-- `str, _ := bech32.Encode(…)`: an error leaves the empty text.
abbrev drop_error : Result Error (List ℕ) → Result AddressError (List ℕ)
drop_error (ok s) = ok s
drop_error (err _) = ok []
drop_error panic = panic

abbrev of_bech32 {ℓ} : {A : Type ℓ} → Result Error A → Result AddressError A
of_bech32 (ok a) = ok a
of_bech32 (err e) = err (invalid_bech32 e)
of_bech32 panic = panic

module _ (lib : TextLibraries) where
  open lib use {byron_libraries, base58_encode, base58_decode, btcutil_encode}

  -- The methods `String`.
  abbrev base_string : BaseAddress → Result AddressError (List ℕ)
  base_string b = drop_error (encode (base_prefix b) (base_bytes b))

  abbrev enterprise_string : EnterpriseAddress → Result AddressError (List ℕ)
  enterprise_string e = drop_error (encode (enterprise_prefix e) (enterprise_bytes e))

  abbrev reward_string : RewardAddress → Result AddressError (List ℕ)
  reward_string r = drop_error (encode (reward_prefix r) (reward_bytes r))

  abbrev pointer_string : PointerAddress → Result AddressError (List ℕ)
  pointer_string p = elim (btcutil_encode (pointer_prefix p) (pointer_bytes p)) [
    | none ↦ ok []
    | some s ↦ ok s
  ]

  abbrev byron_string : ByronAddress → Result AddressError (List ℕ)
  byron_string b = ok (base58_encode (byron_bytes byron_libraries b))

  -- `String` of the interface
  unfoldable pub to_string : Address → Result AddressError (List ℕ)
  to_string (base b) = base_string b
  to_string (enterprise e) = enterprise_string e
  to_string (reward r) = reward_string r
  to_string (pointer p) = pointer_string p
  to_string (byron b) = byron_string b

  -- `spare` is what the array of the decoded slice holds behind it.
  unfoldable pub new_address : List ℕ → List ℕ → Result AddressError Address
  new_address raw spare =
      if has_prefix (codes "addr") raw || has_prefix (codes "stake") raw
      then of_bech32 (decode raw) >>= (λ p. new_address_from_bytes byron_libraries p.1 spare)
      else new_address_from_bytes byron_libraries (base58_decode raw) spare

  unfoldable pub new_address_from_hex : List ℕ → List ℕ → Result AddressError Address
  new_address_from_hex hex_addr spare = elim (decode_string hex_addr) [
    | none ↦ err invalid_hex
    | some bytes ↦ new_address_from_bytes byron_libraries bytes spare
  ]
