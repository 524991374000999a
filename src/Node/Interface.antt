-- ===== src/Node/Interface.antt =====
-- node/node.go and node/types.go: what every backend offers. An error stands for the pair of it and
-- of a value that callers drop.
use go_cardano_serialization.Base.{ℕ, List, Result}
use go_cardano_serialization.Address.Types.{Address}
use go_cardano_serialization.Fees.{Protocol}
use go_cardano_serialization.Tx.{TxInput}

pub record NetworkTip : Type 0 where
  pub slot : ℕ
  pub epoch : ℕ
  pub block : ℕ

-- `Node`, for a type of transactions and a backend's own errors
pub record Node (Transaction Error : Type 0) : Type 0 where
  pub utxos : Address → Result Error (List TxInput)
  pub submit_tx : Transaction → Result Error (List ℕ)
  pub protocol_parameters : Result Error Protocol
  pub query_tip : Result Error NetworkTip
