-- ===== src/Wallet/Payment/OnBlockfrost.antt =====
-- The run of txbuilder on the Blockfrost API, which is the node that it makes.
use go_cardano_serialization.Base.{
  ℕ, ◌^◌, ◌<◌, ◌≡◌, refl, ap, ◌∙◌, List, Option, some, map, All, ok, ◌>>=◌,
}
use go_cardano_serialization.Address.Types.{Address, BaseAddress, base}
use go_cardano_serialization.Address.Text.{TextLibraries, to_string, new_address}
use go_cardano_serialization.Bip32.Keys.{KeyLibraries}
use go_cardano_serialization.Bip32.Keys.Laws.{KeyLaws}
use go_cardano_serialization.Crypto.{HashLibraries, public_key_hash}
use go_cardano_serialization.Fees.{Protocol}
use go_cardano_serialization.Network.{test_net}
use go_cardano_serialization.Node.Blockfrost.{
  BlockfrostLibraries, BlockfrostNode, ApiClient, EpochParameters, Block, protocol_of,
  blockfrost_utxos, blockfrost_protocol_parameters, blockfrost_query_tip, blockfrost_submit_tx,
  blockfrost_node,
}
use go_cardano_serialization.Node.Blockfrost.Amounts.{
  Holding, IsHolding, described, held, blockfrost_utxos-held,
}
use go_cardano_serialization.Node.Interface.{NetworkTip}
use go_cardano_serialization.Tx.{TxInput, TxLibraries, Transaction}
use go_cardano_serialization.Tx.Builder.{TxBuilder, add_change_if_needed}
use go_cardano_serialization.Wallet.{create_root_key, generate_base_address}
use go_cardano_serialization.Wallet.Addresses.{HashLaws}
use go_cardano_serialization.Wallet.Payment.{prepare, pay, of_node, receiver_text}
use go_cardano_serialization.Wallet.Payment.Selection.{IsLast}
use go_cardano_serialization.Wallet.Payment.Submitted.{IsPayment, Answers, pay-submits}

abbrev pub tip_of : Block → NetworkTip
tip_of block = record { slot = block.slot; epoch = block.epoch; block = block.height }

-- What the server sends about an address, and the protocol parameters that it means
pub record Serves (client : ApiClient) (addr : List ℕ) (us : List Holding) (pr : Protocol)
    (block : Block) : Type 0 where
  pub parameters : EpochParameters
  pub parameters_sent : client.latest_epoch_parameters ≡ some parameters
  pub parameters_read : protocol_of parameters ≡ ok pr
  pub utxos_sent : client.address_utxos addr ≡ some (map described us)
  pub utxos_IsHolding : All IsHolding us
  pub block_sent : client.block_latest ≡ some block

module _ (lib : BlockfrostLibraries) (text : TextLibraries) (txs : TxLibraries)
    (b : BlockfrostNode) where
  blockfrost_node-Answers :
      (source : BaseAddress) (addr : List ℕ) (us : List Holding) (pr : Protocol) (block : Block)
      → to_string text (base source) ≡ ok addr
      → Serves b.client addr us pr block
      → Answers (blockfrost_node lib (to_string text) txs b) source pr (map held us) (tip_of block)
  unfolding blockfrost_node blockfrost_protocol_parameters blockfrost_query_tip
  blockfrost_node-Answers source addr us pr block printed s = record {
    protocol_answer = rw (s.parameters_sent) s.parameters_read;
    utxos_answer =
        ap (blockfrost_utxos b) printed
        ∙ blockfrost_utxos-held b addr us s.utxos_sent s.utxos_IsHolding;
    tip_answer = rw s.block_sent refl;
  }

-- Where the Blockfrost API sends protocol parameters that can be read, the latest block, and
-- utxos with their lovelace in decimal of which u is the last of at least 6.2 ADA, the run of
-- txbuilder on the Blockfrost node ends with what SubmitTx of that node returns for a payment
-- that spends u, with the receiver, change, time to live and signature of a payment from the
-- wallet's address. The address must have a text, amounts must fit in 64 bits, the body that
-- AddChangeIfNeeded leaves must have an encoding, and the hashes and the curve must keep their
-- laws.
pub pay-blockfrost :
    (lib : BlockfrostLibraries) (text : TextLibraries) (txs : TxLibraries) (b : BlockfrostNode)
    (keys : KeyLibraries) (laws : KeyLaws keys) (hashes : HashLibraries)
    (hash_laws : HashLaws hashes) (spare : List ℕ) (entropy : Option (List ℕ))
    (addr receiver_addr : List ℕ) (source : BaseAddress) (prv : List ℕ) (receiver : Address)
    (pr : Protocol) (us : List Holding) (u : TxInput) (block : Block) (tb' : TxBuilder txs keys)
    (bytes : List ℕ)
    → (create_root_key keys entropy >>= generate_base_address keys hashes test_net)
      ≡ ok (source, prv)
    → (receiver_text text source receiver_addr >>= λ raw. new_address text raw spare) ≡ ok receiver
    → to_string text (base source) ≡ ok addr
    → Serves b.client addr us pr block
    → IsLast (map held us) u
    → u.amount < 2 ^ 64
    → add_change_if_needed txs keys
        (base source)
        (prepare txs keys pr prv receiver (map held us) (tip_of block))
      ≡ ok tb'
    → txs.marshal_body tb'.tx.body ≡ some bytes
    → (t : Transaction txs) × (pay txs keys hashes text spare
          (blockfrost_node lib (to_string text) txs b)
          entropy
          receiver_addr
        ≡ of_node (blockfrost_submit_tx lib txs b t))
      × ((p : IsPayment txs keys laws (base source) receiver prv u (tip_of block) t)
          × (source.payment.payload ≡ public_key_hash hashes p.witness.vkey))
unfolding blockfrost_node
pay-blockfrost lib text txs b keys laws hashes hash_laws spare entropy addr receiver_addr source prv
      receiver pr us u block tb' bytes made parsed printed serves last small changed encoded =
    pay-submits txs keys laws hashes hash_laws text spare
      (blockfrost_node lib (to_string text) txs b) entropy receiver_addr source prv receiver pr
      (map held us) u (tip_of block) tb' bytes made parsed
      (blockfrost_node-Answers lib text txs b source addr us pr block printed serves) last small
      changed encoded
