-- ===== src/Wallet/Payment.antt =====
-- examples/transactions/txbuilder: the run that pays 5 ADA to a receiver.
pub mod Selection
pub mod Submitted
pub mod OnBlockfrost
use go_cardano_serialization.Base.{
  ℕ, ◌+◌, List, [], ◌∷◌, Option, none, some, u32, Result, ok, err, panic, ◌>>=◌, leb, if◌then◌else◌,
}
use go_cardano_serialization.Address.Types.{Address, BaseAddress, base}
use go_cardano_serialization.Address.Byron.{AddressError}
use go_cardano_serialization.Address.Text.{TextLibraries, to_string, new_address}
use go_cardano_serialization.Bip32.Arithmetic.{KeyError}
use go_cardano_serialization.Bip32.Keys.{KeyLibraries}
use go_cardano_serialization.Crypto.{HashLibraries}
use go_cardano_serialization.Fees.{Protocol}
use go_cardano_serialization.Network.{test_net}
use go_cardano_serialization.Node.Interface.{Node, NetworkTip}
use go_cardano_serialization.Tx.{TxInput, new_tx_output, TxLibraries, Transaction}
use go_cardano_serialization.Tx.Builder.{
  BuildError, of_key, TxBuilder, new_tx_builder, builder_add_inputs, builder_add_outputs, set_ttl,
  add_change_if_needed, build,
}
use go_cardano_serialization.Wallet.{create_root_key, generate_base_address}

abbrev pub send_amount : ℕ
send_amount = 5000000

-- `tx.TxInput{}`
abbrev pub zero_input : TxInput
zero_input = record { tx_hash = []; index = 0; amount = 0 }

-- The loop over the utxos: a later match replaces an earlier one.
unfoldable pub select_input : TxInput → List TxInput → TxInput
select_input first_match_input [] = first_match_input
select_input first_match_input (utxo ∷ utxos) =
    let matched =
      if leb (send_amount + 1000000 + 200000) utxo.amount then utxo else first_match_input in
    select_input matched utxos

-- The receiver that the flag names, or the wallet itself
unfoldable pub receiver_text : TextLibraries → BaseAddress → List ℕ → Result AddressError (List ℕ)
receiver_text text source_addr [] = to_string text (base source_addr)
receiver_text text source_addr (c ∷ cs) = ok (c ∷ cs)

-- What ends the program with `log.Fatal`
pub data PaymentError (Error : Type 0) : Type 0 where
  node_error : Error → PaymentError Error
  wallet_error : KeyError → PaymentError Error
  address_error : AddressError → PaymentError Error
  build_error : BuildError → PaymentError Error

module _ {Error : Type 0} where
  abbrev pub of_node {ℓ} : {A : Type ℓ} → Result Error A → Result (PaymentError Error) A
  of_node (ok a) = ok a
  of_node (err e) = err (node_error e)
  of_node panic = panic

  abbrev pub of_wallet {ℓ} : {A : Type ℓ} → Result KeyError A → Result (PaymentError Error) A
  of_wallet (ok a) = ok a
  of_wallet (err e) = err (wallet_error e)
  of_wallet panic = panic

  abbrev pub of_address {ℓ} : {A : Type ℓ} → Result AddressError A → Result (PaymentError Error) A
  of_address (ok a) = ok a
  of_address (err e) = err (address_error e)
  of_address panic = panic

  abbrev pub of_build {ℓ} : {A : Type ℓ} → Result BuildError A → Result (PaymentError Error) A
  of_build (ok a) = ok a
  of_build (err e) = err (build_error e)
  of_build panic = panic

module _ (txs : TxLibraries) (keys : KeyLibraries) where
  -- The calls of the builder up to `SetTTL`
  unfoldable pub prepare :
      Protocol → List ℕ → Address → List TxInput → NetworkTip → TxBuilder txs keys
  prepare pr prv receiver utxos tip =
      let builder = new_tx_builder txs keys pr (prv ∷ []) in
      let with_input = builder_add_inputs txs keys (select_input zero_input utxos ∷ []) builder in
      let with_output =
        builder_add_outputs txs keys (new_tx_output receiver send_amount ∷ []) with_input in
      set_ttl txs keys (u32 (u32 tip.slot + 300)) with_output

  -- `AddChangeIfNeeded` and `Build`
  unfoldable pub finish : Address → TxBuilder txs keys → Result BuildError (Transaction txs)
  finish source_addr builder =
      of_key (add_change_if_needed txs keys source_addr builder) >>= λ with_change.
      (build txs keys with_change).1

  -- `main`, on the node, the entropy of the mnemonic and the text of the receiver
  unfoldable pub pay :
      {Error : Type 0}
      → HashLibraries
      → TextLibraries
      → (spare : List ℕ) → Node (Transaction txs) Error
      → Option (List ℕ)
      → (receiver_addr : List ℕ) → Result (PaymentError Error) (List ℕ)
  pay hashes text spare cli entropy receiver_addr = do
    pr ← of_node cli.protocol_parameters
    root_key ← of_wallet (create_root_key keys entropy)
    (source_addr, utxo_prv_key) ← of_wallet (generate_base_address keys hashes test_net root_key)
    raw ← of_address (receiver_text text source_addr receiver_addr)
    receiver ← of_address (new_address text raw spare)
    utxos ← of_node (cli.utxos (base source_addr))
    tip ← of_node cli.query_tip
    tx_final ← of_build (finish (base source_addr) (prepare pr utxo_prv_key receiver utxos tip))
    of_node (cli.submit_tx tx_final)
