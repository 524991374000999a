-- ===== src/Address/Types.antt =====
-- The address types of address/*.go and their constructor functions. A `Kind` is Go's byte.
use go_cardano_serialization.Base.{ℕ, List, Option, none, some}
use go_cardano_serialization.Network.{NetworkInfo, test_net, main_net}

pub record StakeCredential : Type 0 where
  pub kind : ℕ
  pub payload : List ℕ

abbrev pub key_stake_credential_type : ℕ
key_stake_credential_type = 0

abbrev pub script_stake_credential_type : ℕ
script_stake_credential_type = 1

abbrev pub new_key_stake_credential : List ℕ → StakeCredential
new_key_stake_credential hash = record { kind = key_stake_credential_type; payload = hash }

abbrev pub new_script_stake_credential : List ℕ → StakeCredential
new_script_stake_credential hash = record { kind = script_stake_credential_type; payload = hash }

pub record BaseAddress : Type 0 where
  pub network : NetworkInfo
  pub payment : StakeCredential
  pub stake : StakeCredential

pub record EnterpriseAddress : Type 0 where
  pub network : NetworkInfo
  pub payment : StakeCredential

pub record RewardAddress : Type 0 where
  pub network : NetworkInfo
  pub stake : StakeCredential

pub record StakePointer : Type 0 where
  pub slot : ℕ
  pub tx_index : ℕ
  pub cert_index : ℕ

pub record PointerAddress : Type 0 where
  pub network : NetworkInfo
  pub payment : StakeCredential
  pub stake : StakePointer

-- A nil pointer to the network byte is `none`.
pub record ByronAddressAttributes : Type 0 where
  pub payload : List ℕ
  pub network : Option ℕ

pub record ByronAddress : Type 0 where
  pub hash : List ℕ
  pub attributes : ByronAddressAttributes
  pub tag : ℕ

-- The implementations of the interface `Address`.
pub data Address : Type 0 where
  base : BaseAddress → Address
  enterprise : EnterpriseAddress → Address
  reward : RewardAddress → Address
  pointer : PointerAddress → Address
  byron : ByronAddress → Address

unfoldable pub new_base_address : NetworkInfo → StakeCredential → StakeCredential → BaseAddress
new_base_address net pay st = record { network = net; payment = pay; stake = st }

unfoldable pub new_enterprise_address : NetworkInfo → StakeCredential → EnterpriseAddress
new_enterprise_address net pay = record { network = net; payment = pay }

unfoldable pub new_reward_address : NetworkInfo → StakeCredential → RewardAddress
new_reward_address net st = record { network = net; stake = st }

unfoldable pub new_pointer : ℕ → ℕ → ℕ → StakePointer
new_pointer slot tx_index cert_index = record {
  slot = slot;
  tx_index = tx_index;
  cert_index = cert_index;
}

unfoldable pub new_pointer_address : NetworkInfo → StakeCredential → StakePointer → PointerAddress
new_pointer_address net pay st = record { network = net; payment = pay; stake = st }

-- `ToEnterprise` drops the stake part of a base address, and `ToReward` the payment part.
unfoldable pub to_enterprise : BaseAddress → EnterpriseAddress
to_enterprise b = new_enterprise_address b.network b.payment

unfoldable pub to_reward : BaseAddress → RewardAddress
to_reward b = new_reward_address b.network b.stake

-- A Byron address with a network attribute is one of the test network.
unfoldable pub byron_network_info : ByronAddress → NetworkInfo
byron_network_info b = elim b.attributes.network [ none ↦ main_net | some _ ↦ test_net ]

unfoldable pub network_info : Address → NetworkInfo
network_info (base b) = b.network
network_info (enterprise e) = e.network
network_info (reward r) = r.network
network_info (pointer p) = p.network
network_info (byron b) = byron_network_info b
