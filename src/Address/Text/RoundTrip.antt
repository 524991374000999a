-- ===== src/Address/Text/RoundTrip.antt =====
-- `NewAddress` reads back what `String` wrote for base, enterprise and reward addresses.
use go_cardano_serialization.Base.{
  ℕ, ◌≤◌, ◌≡◌, refl, arith, Bool, true, false, List, ◌++◌, length, if◌then◌else◌, All, All-append,
  Result, ok, IsByte, ◌||◌,
}
use go_cardano_serialization.Bech32.Text.{codes}
use go_cardano_serialization.Bech32.Codec.{encode}
use go_cardano_serialization.Bech32.Codec.Symbols.{IsLowerCharacter}
use go_cardano_serialization.Bech32.Codec.RoundTrip.{decode-encode}
use go_cardano_serialization.Address.Types.{
  Address, base, enterprise, reward, pointer, byron, BaseAddress, EnterpriseAddress, RewardAddress,
}
use go_cardano_serialization.Address.Byron.{AddressError}
use go_cardano_serialization.Address.Bytes.{
  base_bytes, enterprise_bytes, reward_bytes, base_prefix, enterprise_prefix, reward_prefix,
}
use go_cardano_serialization.Address.Parse.{new_address_from_bytes}
use go_cardano_serialization.Address.Parse.Header.{copy_full, header_sums, network_small}
use go_cardano_serialization.Address.Parse.RoundTrip.{
  IsValid, base_round_trip, enterprise_round_trip, reward_round_trip,
}
use go_cardano_serialization.Address.Text.{
  TextLibraries, has_prefix, drop_error, to_string, new_address,
}

-- A prefix that `NewAddress` knows, in the form that `Encode` takes.
abbrev IsAddressPrefix : List ℕ → Type 0
IsAddressPrefix p =
    (1 ≤ length p)
    × All IsLowerCharacter p
    × ((rest : List ℕ)
        → (has_prefix (codes "addr") (p ++ rest) || has_prefix (codes "stake") (p ++ rest)) ≡ true)

addr-IsAddressPrefix : (b : Bool) → IsAddressPrefix (if b then codes "addr_test" else codes "addr")
unfolding has_prefix
addr-IsAddressPrefix true = (omega arith, omega arith, λ rest. refl)
addr-IsAddressPrefix false = (omega arith, omega arith, λ rest. refl)

stake-IsAddressPrefix :
    (b : Bool) → IsAddressPrefix (if b then codes "stake_test" else codes "stake")
unfolding has_prefix
stake-IsAddressPrefix true = (omega arith, omega arith, λ rest. refl)
stake-IsAddressPrefix false = (omega arith, omega arith, λ rest. refl)

-- The addresses whose texts this repository encodes itself: valid, with hashes of bytes.
abbrev pub IsBech32 : Address → Type 0
IsBech32 (base b) = IsValid (base b) × All IsByte b.payment.payload × All IsByte b.stake.payload
IsBech32 (enterprise e) = IsValid (enterprise e) × All IsByte e.payment.payload
IsBech32 (reward r) = IsValid (reward r) × All IsByte r.stake.payload
IsBech32 (pointer p) = ⊥
IsBech32 (byron b) = ⊥

pub base_bytes-IsByte : (b : BaseAddress) → IsBech32 (base b) → All IsByte (base_bytes b)
unfolding base_bytes
base_bytes-IsByte b ((hn, hp, hs), p, q) =
    rw (copy_full _ b.payment.payload hp.hash_size, copy_full _ b.stake.payload hs.hash_size)
      (
        omega (
          arith,
          header_sums b.network.network_id b.payment.kind b.stake.kind (network_small b.network hn)
              hp.kind_small hs.kind_small,
          network_small b.network hn,
          hp.kind_small,
          hs.kind_small,
        ),
        All-append IsByte _ _ p q,
      )

pub enterprise_bytes-IsByte :
    (e : EnterpriseAddress) → IsBech32 (enterprise e) → All IsByte (enterprise_bytes e)
unfolding enterprise_bytes
enterprise_bytes-IsByte e ((hn, hp), p) = rw (copy_full _ e.payment.payload hp.hash_size) (
  omega (
    arith,
    header_sums e.network.network_id e.payment.kind 0 (network_small e.network hn) hp.kind_small
        (omega arith),
    network_small e.network hn,
    hp.kind_small,
  ),
  p,
)

pub reward_bytes-IsByte : (r : RewardAddress) → IsBech32 (reward r) → All IsByte (reward_bytes r)
unfolding reward_bytes
reward_bytes-IsByte r ((hn, hp), p) = rw (copy_full _ r.stake.payload hp.hash_size) (
  omega (
    arith,
    header_sums r.network.network_id r.stake.kind 0 (network_small r.network hn) hp.kind_small
        (omega arith),
    network_small r.network hn,
    hp.kind_small,
  ),
  p,
)

module _ (lib : TextLibraries) (spare : List ℕ) where
  abbrev ReadsBack : Result AddressError (List ℕ) → Address → Type 0
  ReadsBack result a = (s : List ℕ) × (result ≡ ok s) × (new_address lib s spare ≡ ok a)

  encoded-ReadsBack :
      (p payload : List ℕ) (a : Address)
      → IsAddressPrefix p
      → All IsByte payload
      → new_address_from_bytes lib.byron_libraries payload spare ≡ ok a
      → ReadsBack (drop_error (encode p payload)) a
  unfolding new_address
  encoded-ReadsBack p payload a (pos, low, known) hb back =
      let (rest, there, again) = decode-encode p payload pos low hb in
      (p ++ rest, rw there, rw (known rest, again) back)

  -- String of a valid base, enterprise or reward address is a text from which NewAddress makes
  -- the same address.
  pub new_address-to_string :
      (a : Address)
      → IsBech32 a
      → (s : List ℕ) × (to_string lib a ≡ ok s) × (new_address lib s spare ≡ ok a)
  unfolding to_string base_prefix enterprise_prefix reward_prefix
  new_address-to_string (base b) v =
      encoded-ReadsBack _ (base_bytes b) (base b) (addr-IsAddressPrefix _) (base_bytes-IsByte b v)
        (base_round_trip lib.byron_libraries spare b v.0)
  new_address-to_string (enterprise e) v =
      encoded-ReadsBack _ (enterprise_bytes e) (enterprise e) (addr-IsAddressPrefix _)
        (enterprise_bytes-IsByte e v) (enterprise_round_trip lib.byron_libraries spare e v.0)
  new_address-to_string (reward r) v =
      encoded-ReadsBack _ (reward_bytes r) (reward r) (stake-IsAddressPrefix _)
        (reward_bytes-IsByte r v) (reward_round_trip lib.byron_libraries spare r v.0)
  new_address-to_string (pointer p) v = absurd v
  new_address-to_string (byron b) v = absurd v
