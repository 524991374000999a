-- ===== src/Tx.antt =====
-- tx/tx.go, tx/tx_body.go, tx/tx_input_output.go and the witness set of tx/tx_witness_set.go. CBOR
-- and blake2b are parameters, and so are the types of native scripts and of auxiliary data, which
-- these files only store and encode. A method that changes a transaction returns it with its result.
pub mod Builder
pub mod Metadata
pub mod Scripts
pub mod Encoding
pub mod Signing
pub mod Examples
use go_cardano_serialization.Base.{
  ℕ, ◌+◌, ◌*◌, Bool, true, List, [], ◌∷◌, ◌++◌, length, Option, none, some, u64, Result, ok, err,
  ◌>>=◌,
}
use go_cardano_serialization.Base.Hex.{decode_prefix, encode_to_string}
use go_cardano_serialization.Address.Types.{Address}
use go_cardano_serialization.Fees.{LinearFee}

pub record TxInput : Type 0 where
  pub tx_hash : List ℕ
  pub index : ℕ
  pub amount : ℕ

pub record TxOutput : Type 0 where
  pub address : Address
  pub amount : ℕ

-- `hash, _ := hex.DecodeString(txHash)`
unfoldable pub new_tx_input : List ℕ → ℕ → ℕ → TxInput
new_tx_input tx_hash tx_ix amount = record {
  tx_hash = decode_prefix tx_hash;
  index = tx_ix;
  amount = amount;
}

-- What `MarshalCBOR` of an input encodes, as an array
pub record ArrayInput : Type 0 where
  pub tx_hash : List ℕ
  pub index : ℕ

unfoldable pub input_marshal_cbor : (ArrayInput → Option (List ℕ)) → TxInput → Option (List ℕ)
input_marshal_cbor marshal tx_i = marshal (record { tx_hash = tx_i.tx_hash; index = tx_i.index })

unfoldable pub new_tx_output : Address → ℕ → TxOutput
new_tx_output addr amount = record { address = addr; amount = amount }

pub record TxBody : Type 0 where
  pub inputs : List TxInput
  pub outputs : List TxOutput
  pub fee : ℕ
  pub ttl : ℕ
  pub auxiliary_data_hash : List ℕ

unfoldable pub new_tx_body : TxBody
new_tx_body = record { inputs = []; outputs = []; fee = 0; ttl = 0; auxiliary_data_hash = [] }

pub record VKeyWitness : Type 0 where
  pub vkey : List ℕ
  pub signature : List ℕ

unfoldable pub new_vkey_witness : List ℕ → List ℕ → VKeyWitness
new_vkey_witness vkey signature = record { vkey = vkey; signature = signature }

pub record WitnessSet (Script : Type 0) : Type 0 where
  pub witnesses : List VKeyWitness
  pub scripts : List Script

-- A nil pointer is `none`.
pub record Tx (Script Auxiliary : Type 0) : Type 0 where
  pub body : TxBody
  pub witness_set : Option (WitnessSet Script)
  pub valid : Bool
  pub auxiliary_data : Option Auxiliary

pub data TxError : Type 0 where
  serialize_metadata marshal_failed : TxError

-- `cbor.Marshal` of each type, with `none` for an error, and `blake2b.Sum256`.
pub record TxLibraries : Type 1 where
  pub Script : Type 0
  pub Auxiliary : Type 0
  pub marshal_tx : Tx Script Auxiliary → Option (List ℕ)
  pub marshal_body : TxBody → Option (List ℕ)
  pub marshal_auxiliary : Auxiliary → Option (List ℕ)
  pub sum256 : List ℕ → List ℕ

abbrev pub of_marshal : Option (List ℕ) → Result TxError (List ℕ)
of_marshal none = err marshal_failed
of_marshal (some bytes) = ok bytes

module _ (lib : TxLibraries) where
  open lib use {Script, Auxiliary, marshal_tx, marshal_body, marshal_auxiliary, sum256}

  abbrev pub Transaction : Type 0
  Transaction = Tx Script Auxiliary

  unfoldable pub new_tx_witness_set : List Script → List VKeyWitness → WitnessSet Script
  new_tx_witness_set scripts witnesses = record { witnesses = witnesses; scripts = scripts }

  unfoldable pub new_tx : Transaction
  new_tx = record {
    body = new_tx_body;
    witness_set = some (new_tx_witness_set [] []);
    valid = true;
    auxiliary_data = none;
  }

  -- On an error the transaction is as it was.
  unfoldable pub calculate_auxiliary_data_hash :
      Transaction → Transaction × Result TxError (Unit {0})
  calculate_auxiliary_data_hash t = elim t.auxiliary_data [
    | none ↦ (t, ok tt)
    | some a ↦ elim (marshal_auxiliary a) [
      | none ↦ (t, err serialize_metadata)
      | some bytes ↦
          (record t { body = record t.body { auxiliary_data_hash = sum256 bytes } }, ok tt)
    ]
  ]

  -- `Bytes` and `Hex`
  unfoldable pub tx_bytes : Transaction → Transaction × Result TxError (List ℕ)
  tx_bytes t =
      let (t', done) = calculate_auxiliary_data_hash t in
      (t', done >>= λ _. of_marshal (marshal_tx t'))

  unfoldable pub tx_hex : Transaction → Transaction × Result TxError (List ℕ)
  tx_hex t = let (t', bytes) = tx_bytes t in (t', bytes >>= λ b. ok (encode_to_string b))

  -- `Hash` is of the body alone.
  unfoldable pub hash : Transaction → Transaction × Result TxError (List ℕ)
  hash t =
      let (t', done) = calculate_auxiliary_data_hash t in
      (t', done >>= λ _. of_marshal (marshal_body t'.body) >>= λ tx_body. ok (sum256 tx_body))

  unfoldable pub fee : LinearFee → Transaction → Transaction × Result TxError ℕ
  fee lfee t =
      let (t', done) = calculate_auxiliary_data_hash t in
      (
        t',
        done >>= λ _. of_marshal (marshal_tx t') >>= λ tx_cbor.
            ok (u64 (lfee.tx_fee_fixed + u64 (lfee.tx_fee_per_byte * length tx_cbor))),
      )

  unfoldable pub set_fee : ℕ → Transaction → Transaction
  set_fee fee t = record t { body = record t.body { fee = fee } }

  unfoldable pub add_inputs : List TxInput → Transaction → Transaction
  add_inputs inputs t = record t { body = record t.body { inputs = t.body.inputs ++ inputs } }

  unfoldable pub add_outputs : List TxOutput → Transaction → Transaction
  add_outputs outputs t = record t { body = record t.body { outputs = t.body.outputs ++ outputs } }

  -- `Bytes` and `Hex` of a body
  unfoldable pub tx_body_bytes : TxBody → Result TxError (List ℕ)
  tx_body_bytes b = of_marshal (marshal_body b)

  unfoldable pub tx_body_hex : TxBody → Result TxError (List ℕ)
  tx_body_hex b = tx_body_bytes b >>= λ by. ok (encode_to_string by)
