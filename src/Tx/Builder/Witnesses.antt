-- ===== src/Tx/Builder/Witnesses.antt =====
-- A library whose encodings have the sizes of CBOR's numbers, keys and signatures, and a payment
-- that is counted with it.
use go_cardano_serialization.Base.{
  ℕ, ◌+◌, ◌≤◌, ◌≡◌, refl, arith, List, [], ◌∷◌, length, replicate, length-replicate, Option, some,
  none, ok,
}
use go_cardano_serialization.Bip32.Examples.{toy, toy-KeyLaws, toy_key}
use go_cardano_serialization.Address.Types.{Address, enterprise}
use go_cardano_serialization.Network.{main_net}
use go_cardano_serialization.Fees.{Protocol, new_linear_fee}
use go_cardano_serialization.Tx.{
  TxInput, TxOutput, VKeyWitness, WitnessSet, Tx, TxLibraries, Transaction, fee,
}
use go_cardano_serialization.Tx.Builder.{
  sum_inputs, sum_outputs, TxBuilder, add_change_if_needed, build,
}
use go_cardano_serialization.Tx.Builder.Sizes.{
  plain, number_size, NoLargerOutputs, SameSizes, SizeLaws,
}
use go_cardano_serialization.Tx.Builder.Covered.{prepared, fee-build}

abbrev outputs_size : List TxOutput → ℕ
outputs_size [] = 0
outputs_size (o ∷ os) = number_size o.amount + outputs_size os

abbrev witnesses_size : List VKeyWitness → ℕ
witnesses_size [] = 0
witnesses_size (w ∷ ws) = length w.vkey + length w.signature + witnesses_size ws

abbrev held_size : Option (WitnessSet ℕ) → ℕ
held_size none = 0
held_size (some ws) = witnesses_size ws.witnesses

abbrev tx_size : Tx ℕ ℕ → ℕ
tx_size t = outputs_size t.body.outputs + number_size t.body.fee + held_size t.witness_set

abbrev sized_lib : TxLibraries
sized_lib = record {
  Script = ℕ;
  Auxiliary = ℕ;
  marshal_tx = λ t. some (replicate (tx_size t) 0);
  marshal_body = λ b. some (b.fee ∷ b.ttl ∷ []);
  marshal_auxiliary = λ a. some (a ∷ []);
  sum256 = λ s. s;
}

outputs_size-NoLargerOutputs :
    (os ps : List TxOutput) → NoLargerOutputs os ps → outputs_size os ≤ outputs_size ps
outputs_size-NoLargerOutputs [] [] h = omega arith
outputs_size-NoLargerOutputs [] (p ∷ ps) h = absurd h
outputs_size-NoLargerOutputs (o ∷ os) [] h = absurd h
outputs_size-NoLargerOutputs (o ∷ os) (p ∷ ps) (_, less, h) =
    omega (arith, less, outputs_size-NoLargerOutputs os ps h)

witnesses_size-SameSizes :
    (vs ws : List VKeyWitness) → SameSizes vs ws → witnesses_size vs ≡ witnesses_size ws
witnesses_size-SameSizes [] [] h = refl
witnesses_size-SameSizes [] (w ∷ ws) h = absurd h
witnesses_size-SameSizes (v ∷ vs) [] h = absurd h
witnesses_size-SameSizes (v ∷ vs) (w ∷ ws) (a, b, h) =
    omega (arith, a, b, witnesses_size-SameSizes vs ws h)

abbrev sized_lib-SizeLaws : SizeLaws sized_lib
sized_lib-SizeLaws = record {
  size = λ body ws. tx_size (plain sized_lib body ws);
  marshals_tx = λ body ws encodable. (
    replicate (tx_size (plain sized_lib body ws)) 0,
    refl,
    length-replicate (tx_size (plain sized_lib body ws)) 0,
  );
  marshals_body = λ b encodable. (b.fee ∷ b.ttl ∷ [], refl);
  size_NoLarger = λ b c vs ws eb ec h. omega (
    arith,
    outputs_size-NoLargerOutputs b.outputs c.outputs h.outputs,
    h.fees,
    witnesses_size-SameSizes vs ws h.witnesses,
  );
}

-- The parameters of the main network
abbrev parameters : Protocol
parameters = record {
  tx_fee_per_byte = 44;
  tx_fee_fixed = 155381;
  max_tx_size = 16384;
  protocol_version = record { major = 8; minor = 0 };
  min_utxo_value = 0;
}

abbrev my_address : Address
my_address =
    enterprise
      (record { network = main_net; payment = record { kind = 0; payload = replicate 28 1 } })

abbrev ten_ada : List TxInput
ten_ada = record { tx_hash = []; index = 0; amount = 10000000 } ∷ []

abbrev five_ada : List TxOutput
five_ada = record { address = my_address; amount = 5000000 } ∷ []

fee-build_example :
    (tb' : TxBuilder sized_lib toy) × (t : Transaction sized_lib) × (n : ℕ) × (add_change_if_needed
        sized_lib toy my_address
        (prepared sized_lib toy parameters toy_key ten_ada five_ada 7)
      ≡ ok tb')
    × ((build sized_lib toy tb').1 ≡ ok t)
    × (fee sized_lib (new_linear_fee 44 155381) t ≡ (t, ok n))
    × (n ≤ t.body.fee)
unfolding sum_inputs sum_outputs
fee-build_example =
    fee-build sized_lib toy toy-KeyLaws sized_lib-SizeLaws parameters toy_key ten_ada five_ada 7
      my_address (tt, tt) tt (omega arith) (refl, omega arith) (omega arith) (omega arith)
