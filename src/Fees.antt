-- ===== src/Fees.antt =====
-- fees/linear.go, and the protocol parameters of protocol/protocol.go. A Go uint has 64 bits.
use go_cardano_serialization.Base.{ℕ, List, Option, none, some}

pub record LinearFee : Type 0 where
  pub tx_fee_per_byte : ℕ
  pub tx_fee_fixed : ℕ

unfoldable pub new_linear_fee : ℕ → ℕ → LinearFee
new_linear_fee fee_per_byte fixed_fee = record {
  tx_fee_per_byte = fee_per_byte;
  tx_fee_fixed = fixed_fee;
}

pub record ProtocolVersion : Type 0 where
  pub major : ℕ
  pub minor : ℕ

pub record Protocol : Type 0 where
  pub tx_fee_per_byte : ℕ
  pub tx_fee_fixed : ℕ
  pub max_tx_size : ℕ
  pub protocol_version : ProtocolVersion
  pub min_utxo_value : ℕ

pub data LoadError : Type 0 where
  read_failed json_failed : LoadError

-- `ioutil.ReadFile`, and `json.Unmarshal` into a zero `Protocol` with what it holds afterwards and
-- whether there was an error
pub record ProtocolLibraries : Type 0 where
  pub read_file : List ℕ → Option (List ℕ)
  pub unmarshal_protocol : List ℕ → Protocol × Option LoadError

-- `&Protocol{}`
abbrev pub zero_protocol : Protocol
zero_protocol = record {
  tx_fee_per_byte = 0;
  tx_fee_fixed = 0;
  max_tx_size = 0;
  protocol_version = record { major = 0; minor = 0 };
  min_utxo_value = 0;
}

unfoldable pub load_protocol_from_bytes : ProtocolLibraries → List ℕ → Protocol × Option LoadError
load_protocol_from_bytes lib p_byte = lib.unmarshal_protocol p_byte

unfoldable pub load_protocol : ProtocolLibraries → List ℕ → Protocol × Option LoadError
load_protocol lib fp = elim (lib.read_file fp) [
  | none ↦ (zero_protocol, some read_failed)
  | some p_byte ↦ load_protocol_from_bytes lib p_byte
]
