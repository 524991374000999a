-- ===== src/Wallet/Examples.antt =====
-- The wallet with small hashes, and a node that has two utxos.
use go_cardano_serialization.Base.{
  ℕ, zero, suc, ◌≡◌, refl, arith, List, [], ◌∷◌, some, ok, replicate, length-replicate, All, IsByte,
  inl, ◌>>=◌, ◌⊎◌,
}
use go_cardano_serialization.Address.Examples.{toy_texts}
use go_cardano_serialization.Address.Types.{BaseAddress, base, enterprise, to_enterprise}
use go_cardano_serialization.Address.Text.{to_string, new_address}
use go_cardano_serialization.Bip32.Examples.{toy, toy-KeyLaws}
use go_cardano_serialization.Crypto.{HashLibraries, public_key_hash}
use go_cardano_serialization.Fees.{Protocol}
use go_cardano_serialization.Network.{test_net}
use go_cardano_serialization.Node.Interface.{Node, NetworkTip}
use go_cardano_serialization.Tx.{TxInput, Tx}
use go_cardano_serialization.Tx.{new_tx, new_tx_witness_set, add_inputs, add_outputs}
use go_cardano_serialization.Tx.Builder.{
  TxBuilder, new_tx_builder, builder_add_inputs, builder_add_outputs, set_ttl, add_change_if_needed,
}
use go_cardano_serialization.Tx.Builder.Balance.{add_change_if_needed-HasChange}
use go_cardano_serialization.Tx.Examples.{toy_lib}
use go_cardano_serialization.Wallet.{
  create_root_key, generate_base_address, restore_base_address, generate_enterprise,
}
use go_cardano_serialization.Wallet.Addresses.{HashLaws, restore_base_address-reads_back}
use go_cardano_serialization.Wallet.Payment.{
  prepare, select_input, zero_input, pay, of_node, receiver_text,
}
use go_cardano_serialization.Wallet.Payment.Selection.{IsLast, IsSmall, select_input-cases}
use go_cardano_serialization.Wallet.Payment.Submitted.{IsPayment, Answers, pay-submits}

abbrev pub hashes : HashLibraries
hashes = record { blake2b = λ size s. replicate size 1 }

ones_are_bytes : (n : ℕ) → All IsByte (replicate n 1)
ones_are_bytes zero = tt
ones_are_bytes (suc n) = (omega arith, ones_are_bytes n)

pub hashes-HashLaws : HashLaws hashes
hashes-HashLaws = record {
  blake2b_bytes = λ size s. (length-replicate size 1, ones_are_bytes size);
}

abbrev pub mnemonic_entropy : List ℕ
mnemonic_entropy = 11 ∷ 22 ∷ 33 ∷ []

restore_base_address-reads_back_example :
    (b : BaseAddress) × (restore_base_address toy hashes test_net mnemonic_entropy ≡ ok b)
    × (generate_enterprise toy hashes test_net mnemonic_entropy ≡ ok (to_enterprise b))
    × ((prv : List ℕ) × ((create_root_key toy (some mnemonic_entropy)
            >>= generate_base_address toy hashes test_net)
          ≡ ok (b, prv)))
    × ((s : List ℕ) × (to_string toy_texts (base b) ≡ ok s)
        × (new_address toy_texts s [] ≡ ok (base b)))
    × ((s : List ℕ) × (to_string toy_texts (enterprise (to_enterprise b)) ≡ ok s)
        × (new_address toy_texts s [] ≡ ok (enterprise (to_enterprise b))))
restore_base_address-reads_back_example =
    restore_base_address-reads_back toy toy-KeyLaws hashes hashes-HashLaws toy_texts [] test_net
      mnemonic_entropy (inl refl)

abbrev large : TxInput
large = record { tx_hash = 1 ∷ []; index = 0; amount = 9000000 }

abbrev larger : TxInput
larger = record { tx_hash = 2 ∷ []; index = 1; amount = 70000000 }

abbrev small : TxInput
small = record { tx_hash = 3 ∷ []; index = 0; amount = 1000 }

abbrev utxos : List TxInput
utxos = large ∷ larger ∷ small ∷ []

second_taken : select_input zero_input utxos ≡ larger
unfolding select_input
second_taken = refl

select_input-cases_example :
    (All IsSmall utxos × (select_input zero_input utxos ≡ zero_input))
    ⊎ ((u : TxInput) × IsLast utxos u × (select_input zero_input utxos ≡ u))
select_input-cases_example = select_input-cases zero_input utxos

abbrev pub parameters : Protocol
parameters = record {
  tx_fee_per_byte = 44;
  tx_fee_fixed = 155381;
  max_tx_size = 16384;
  protocol_version = record { major = 8; minor = 0 };
  min_utxo_value = 0;
}

abbrev tip : NetworkTip
tip = record { slot = 500; epoch = 2; block = 10 }

-- A node that answers a submission with the fee of the transaction.
abbrev node : Node (Tx ℕ ℕ) (List ℕ)
node = record {
  utxos = λ a. ok utxos;
  submit_tx = λ t. ok (t.body.fee ∷ []);
  protocol_parameters = ok parameters;
  query_tip = ok tip;
}

larger-IsLast : IsLast utxos larger
larger-IsLast = record {
  front = large ∷ [];
  back = small ∷ [];
  parts = refl;
  enough = omega arith;
  later = (omega arith, tt);
}

-- An address of the wallet with its key, which the wallet reads back from its own text.
pub generated :
    (b : BaseAddress) × (prv : List ℕ) × ((create_root_key toy (some mnemonic_entropy)
        >>= generate_base_address toy hashes test_net)
      ≡ ok (b, prv))
    × ((receiver_text toy_texts b [] >>= λ raw. new_address toy_texts raw []) ≡ ok (base b))
    × (s : List ℕ) × (to_string toy_texts (base b) ≡ ok s)
unfolding receiver_text
generated =
    let (b, restored, other, (prv, made), (s, printed, read), rest) =
      restore_base_address-reads_back toy toy-KeyLaws hashes hashes-HashLaws toy_texts [] test_net
        mnemonic_entropy (inl refl) in
    (b, prv, made, rw printed read, s, printed)

-- What `AddChangeIfNeeded` makes of the payment from that address to itself.
pub changed :
    (us : List TxInput) (at : NetworkTip)
    → (tb' : TxBuilder toy_lib toy) × (add_change_if_needed toy_lib toy
          (base generated.0)
          (prepare toy_lib toy parameters generated.1 (base generated.0) us at)
        ≡ ok tb')
unfolding prepare new_tx_builder new_tx builder_add_inputs builder_add_outputs set_ttl add_inputs
    add_outputs
changed us at =
    let (tb', made, _) =
      add_change_if_needed-HasChange toy_lib toy (base generated.0)
        (prepare toy_lib toy parameters generated.1 (base generated.0) us at)
        (new_tx_witness_set toy_lib [] []) refl in
    (tb', made)

abbrev pub body_bytes : TxBuilder toy_lib toy → List ℕ
body_bytes tb = tb.tx.body.fee ∷ tb.tx.body.ttl ∷ tb.tx.body.auxiliary_data_hash

node-Answers : Answers node generated.0 parameters utxos tip
node-Answers = record { protocol_answer = refl; utxos_answer = refl; tip_answer = refl }

pay-submits_example :
    (t : Tx ℕ ℕ) × (pay toy_lib toy hashes toy_texts [] node (some mnemonic_entropy) []
      ≡ of_node (node.submit_tx t))
    × ((p : IsPayment toy_lib toy toy-KeyLaws
          (base generated.0)
          (base generated.0)
          generated.1
          larger
          tip
          t)
        × (generated.0.payment.payload ≡ public_key_hash hashes p.witness.vkey))
pay-submits_example =
    pay-submits toy_lib toy toy-KeyLaws hashes hashes-HashLaws toy_texts [] node
      (some mnemonic_entropy) [] generated.0 generated.1 (base generated.0) parameters utxos larger
      tip (changed utxos tip).0 (body_bytes (changed utxos tip).0) generated.2 generated.3
      node-Answers larger-IsLast (omega arith) (changed utxos tip).1 refl
