-- ===== src/Tx/Examples.antt =====
-- Runs of the transaction builder, and its theorems at concrete transactions.
use go_cardano_serialization.Base.{
  ℕ, ◌≡◌, refl, arith, true, List, [], ◌∷◌, some, none, ok, Result, ◌+◌, ◌++◌, ◌≢◌, replicate, err,
  length, ◌>>=◌,
}
use go_cardano_serialization.Tx.Signing.{
  Ed25519Libraries, Ed25519Laws, get_verification_key_from_signing_key, sign_message, recovered,
  sign_message-seed,
}
use go_cardano_serialization.Tx.Encoding.{ByteStringLibraries}
use go_cardano_serialization.Address.Types.{Address, byron}
use go_cardano_serialization.Bip32.Arithmetic.{KeyError}
use go_cardano_serialization.Bip32.Examples.{toy, toy-KeyLaws, toy_key}
use go_cardano_serialization.Fees.{new_linear_fee}
use go_cardano_serialization.Tx.{
  new_tx_output, WitnessSet, TxLibraries, Tx, hash, calculate_auxiliary_data_hash, fee, set_fee,
  add_outputs,
}
use go_cardano_serialization.Tx.Builder.{
  TxBuilder, build, min_fee, add_change_if_needed, fee_tx, witnessed, sum_inputs, sum_outputs,
  set_last_amount, get_total_input_outputs,
}
use go_cardano_serialization.Tx.Builder.Balance.{HasChange, add_change_if_needed-HasChange}
use go_cardano_serialization.Tx.Builder.Counted.{completed, min_fee-counted}
use go_cardano_serialization.Tx.Builder.Signed.{IsSigned, build-IsSigned}

abbrev pub toy_lib : TxLibraries
toy_lib = record {
  Script = ℕ;
  Auxiliary = ℕ;
  marshal_tx = λ t. some (t.body.fee ∷ t.body.ttl ∷ []);
  marshal_body = λ b. some (b.fee ∷ b.ttl ∷ b.auxiliary_data_hash);
  marshal_auxiliary = λ a. some (a ∷ []);
  sum256 = λ s. s;
}

abbrev toy_address : Address
toy_address =
    byron (record { hash = []; attributes = record { payload = []; network = none }; tag = 0 })

abbrev toy_set : WitnessSet ℕ
toy_set = record { witnesses = []; scripts = [] }

abbrev toy_builder : TxBuilder toy_lib toy
toy_builder = record {
  tx = record {
    body = record {
      inputs = record { tx_hash = []; index = 0; amount = 1000 } ∷ [];
      outputs = record { address = toy_address; amount = 300 } ∷ [];
      fee = 0;
      ttl = 7;
      auxiliary_data_hash = [];
    };
    witness_set = some toy_set;
    valid = true;
    auxiliary_data = some 9;
  };
  xprvs = toy_key ∷ [];
  protocol = record {
    tx_fee_per_byte = 44;
    tx_fee_fixed = 100;
    max_tx_size = 16384;
    protocol_version = record { major = 8; minor = 0 };
    min_utxo_value = 0;
  };
}

-- What a run of `AddChangeIfNeeded` leaves of the fee and of the amounts.
abbrev summary : Result KeyError (TxBuilder toy_lib toy) → List ℕ
summary (ok tb) = tb.tx.body.fee ∷ sum_outputs 0 tb.tx.body.outputs ∷ []
summary _ = []

add_change_run : summary (add_change_if_needed toy_lib toy toy_address toy_builder) ≡ 188 ∷ 812 ∷ []
unfolding add_change_if_needed get_total_input_outputs sum_inputs sum_outputs new_tx_output
    add_outputs min_fee fee_tx witnessed new_linear_fee fee set_fee calculate_auxiliary_data_hash
    set_last_amount
add_change_run = refl

add_change_if_needed-HasChange_example :
    (tb' : TxBuilder toy_lib toy) × (add_change_if_needed toy_lib toy toy_address toy_builder
      ≡ ok tb')
    × HasChange toy_lib toy toy_address toy_builder tb'
add_change_if_needed-HasChange_example =
    add_change_if_needed-HasChange toy_lib toy toy_address toy_builder toy_set refl

min_fee-counted_example :
    (n : ℕ) × (min_fee toy_lib toy toy_builder
      ≡ ok (completed toy_lib toy toy_builder toy_set refl, n))
    × (min_fee toy_lib toy (completed toy_lib toy toy_builder toy_set refl)
        ≡ ok (completed toy_lib toy toy_builder toy_set refl, n))
min_fee-counted_example = min_fee-counted toy_lib toy toy_builder toy_set refl

toy_hash : (hash toy_lib toy_builder.tx).1 ≡ ok (0 ∷ 7 ∷ 9 ∷ [])
unfolding hash calculate_auxiliary_data_hash
toy_hash = refl

build-IsSigned_example :
    (t : Tx ℕ ℕ) × (build toy_lib toy toy_builder ≡ (record toy_builder { tx = t }, ok t))
    × IsSigned toy_lib toy toy-KeyLaws (0 ∷ 7 ∷ 9 ∷ []) (toy_key ∷ []) t
build-IsSigned_example =
    build-IsSigned toy_lib toy toy-KeyLaws toy_builder (0 ∷ 7 ∷ 9 ∷ []) ((refl, omega arith), tt)
      toy_hash

-- A string of bytes behind its length
abbrev byte_strings : ByteStringLibraries
byte_strings = record {
  marshal_bytes = λ s. some ((0x40 + length s) ∷ s);
  unmarshal_bytes = λ s. elim s [ [] ↦ none | h ∷ rest ↦ some rest ];
}

-- Every public key is made of nines, and a signature is the private key and the message.
abbrev nines : Ed25519Libraries
nines = record {
  new_key_from_seed = λ seed. seed ++ replicate 32 9;
  sign = λ key message. key ++ message;
}

nines-Ed25519Laws : Ed25519Laws nines
nines-Ed25519Laws = record {
  public = λ seed. replicate 32 9;
  seed_and_public = λ seed size. refl;
  public_size = λ seed. refl;
}

abbrev seed : List ℕ
seed = replicate 32 5

sign_message-seed_example :
    (length seed ≡ 32
      → (get_verification_key_from_signing_key nines seed >>= λ verification_key.
          sign_message nines seed verification_key (1 ∷ []))
        ≡ ok (nines.sign (nines.new_key_from_seed seed) (1 ∷ [])))
    × ((verification_key : List ℕ)
        → length seed + length verification_key ≢ 64
        → sign_message nines seed verification_key (1 ∷ []) ≡ err recovered)
sign_message-seed_example = sign_message-seed nines nines-Ed25519Laws seed (1 ∷ [])
