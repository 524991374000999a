-- ===== src/Address/Bytes.antt =====
-- The `Bytes` methods of address/base.go, enterprise.go, reward.go and pointer.go, and the
-- prefixes of their texts.
use go_cardano_serialization.Base.{
  ℕ, ◌&&◌, Option, List, [], ◌∷◌, ◌++◌, replicate, ◌==◌, if◌then◌else◌, bit_and, bit_or, ◌<<<◌, u8,
}
use go_cardano_serialization.Bech32.Text.{codes}
use go_cardano_serialization.Network.{NetworkInfo, test_net}
use go_cardano_serialization.Address.Types.{
  BaseAddress, EnterpriseAddress, RewardAddress, PointerAddress, Address, base, enterprise, reward,
  pointer, byron,
}
use go_cardano_serialization.Address.VariableNat.{variable_nat_encode}
use go_cardano_serialization.Address.Byron.{ByronLibraries, byron_bytes}

-- `copy(dst, src)`: the shorter length decides how much is overwritten.
unfoldable pub copy : List ℕ → List ℕ → List ℕ
copy [] src = []
copy (d ∷ dst) [] = d ∷ dst
copy (d ∷ dst) (x ∷ src) = x ∷ copy dst src

-- `bytes` is made of 57 zeros; 28 of them are for each credential.
unfoldable pub base_bytes : BaseAddress → List ℕ
base_bytes b =
    bit_or (bit_or (u8 (b.payment.kind <<< 4)) (u8 (b.stake.kind <<< 5)))
      (bit_and b.network.network_id 0xf)
    ∷ (copy (replicate 28 0) b.payment.payload ++ copy (replicate 28 0) b.stake.payload)

unfoldable pub enterprise_bytes : EnterpriseAddress → List ℕ
enterprise_bytes e =
    bit_or (bit_or 0b0110_0000 (u8 (e.payment.kind <<< 4))) (bit_and e.network.network_id 0xf)
    ∷ copy (replicate 28 0) e.payment.payload

unfoldable pub reward_bytes : RewardAddress → List ℕ
reward_bytes r =
    bit_or (bit_or 0b1110_0000 (u8 (r.stake.kind <<< 4))) (bit_and r.network.network_id 0xf)
    ∷ copy (replicate 28 0) r.stake.payload

unfoldable pub pointer_bytes : PointerAddress → List ℕ
pointer_bytes p =
    bit_or (bit_or 0b0100_0000 (u8 (p.payment.kind <<< 4))) (bit_and p.network.network_id 0xf)
    ∷ (p.payment.payload
        ++ (variable_nat_encode p.stake.slot
            ++ (variable_nat_encode p.stake.tx_index ++ variable_nat_encode p.stake.cert_index)))

-- `Bytes` of the interface
unfoldable pub address_bytes : ByronLibraries → Address → List ℕ
address_bytes lib (base b) = base_bytes b
address_bytes lib (enterprise e) = enterprise_bytes e
address_bytes lib (reward r) = reward_bytes r
address_bytes lib (pointer p) = pointer_bytes p
address_bytes lib (byron b) = byron_bytes lib b

abbrev addr_prefix : NetworkInfo → List ℕ
addr_prefix net = if net.network_id == test_net.network_id then codes "addr_test" else codes "addr"

unfoldable pub base_prefix : BaseAddress → List ℕ
base_prefix b = addr_prefix b.network

unfoldable pub enterprise_prefix : EnterpriseAddress → List ℕ
enterprise_prefix e = addr_prefix e.network

unfoldable pub reward_prefix : RewardAddress → List ℕ
reward_prefix r =
    if r.network.network_id == test_net.network_id then codes "stake_test" else codes "stake"

-- A pointer address compares the whole network record.
unfoldable pub pointer_prefix : PointerAddress → List ℕ
pointer_prefix p =
    if p.network.network_id == test_net.network_id
      && p.network.protocol_magic == test_net.protocol_magic
    then codes "addr_test"
    else codes "addr"

-- The methods `MarshalCBOR`, on the library's encoding of a slice of bytes
module _ (marshal_bytes : List ℕ → Option (List ℕ)) where
  unfoldable pub base_marshal_cbor : BaseAddress → Option (List ℕ)
  base_marshal_cbor b = marshal_bytes (base_bytes b)

  unfoldable pub enterprise_marshal_cbor : EnterpriseAddress → Option (List ℕ)
  enterprise_marshal_cbor e = marshal_bytes (enterprise_bytes e)

  unfoldable pub pointer_marshal_cbor : PointerAddress → Option (List ℕ)
  pointer_marshal_cbor p = marshal_bytes (pointer_bytes p)

-- `MarshalCBOR` of a reward address passes the method value `r.Bytes`, not its bytes, so it is on
-- the library's encoding of a function.
unfoldable pub reward_marshal_cbor :
    ((Unit {0} → List ℕ) → Option (List ℕ)) → RewardAddress → Option (List ℕ)
reward_marshal_cbor marshal_function r = marshal_function (λ _. reward_bytes r)
