-- ===== src/Tx/Builder.antt =====
-- tx/tx_builder.go. The builder holds a pointer to its transaction, so every method that changes
-- the transaction returns the builder that holds the changed one.
pub mod Balance
pub mod Signed
pub mod Counted
pub mod Sizes
pub mod Covered
mod Witnesses
use go_cardano_serialization.Base.{
  ℕ, ◌+◌, ◌-◌, ◌^◌, true, List, [], ◌∷◌, ◌++◌, length, Option, none, some, u64, Result, ok, err,
  panic, ◌==◌, if◌then◌else◌, replicate, ◌>>=◌,
}
use go_cardano_serialization.Address.Types.{Address}
use go_cardano_serialization.Bip32.Arithmetic.{KeyError}
use go_cardano_serialization.Bip32.Keys.{KeyLibraries, public, public_key}
use go_cardano_serialization.Bip32.Sign.{sign}
use go_cardano_serialization.Fees.{LinearFee, new_linear_fee, Protocol}
use go_cardano_serialization.Tx.{
  TxInput, TxOutput, new_tx_output, TxBody, VKeyWitness, new_vkey_witness, WitnessSet, Tx, TxError,
  TxLibraries, Transaction, new_tx_witness_set, new_tx, calculate_auxiliary_data_hash, hash, fee,
  set_fee, add_inputs, add_outputs,
}

-- Subtraction of uints
abbrev pub sub64 : ℕ → ℕ → ℕ
sub64 a b = u64 (a + 2 ^ 64 - b)

-- The sums of the loops in `GetTotalInputOutputs`
unfoldable pub sum_inputs : ℕ → List TxInput → ℕ
sum_inputs inputs [] = inputs
sum_inputs inputs (inp ∷ rest) = sum_inputs (u64 (inputs + inp.amount)) rest

unfoldable pub sum_outputs : ℕ → List TxOutput → ℕ
sum_outputs outputs [] = outputs
sum_outputs outputs (out ∷ rest) = sum_outputs (u64 (outputs + out.amount)) rest

-- `Outputs[len(Outputs)-1].Amount = amount`; there is an output to set where it is called.
unfoldable pub set_last_amount : ℕ → List TxOutput → List TxOutput
set_last_amount amount [] = []
set_last_amount amount (out ∷ []) = record out { amount = amount } ∷ []
set_last_amount amount (out ∷ next ∷ rest) = out ∷ set_last_amount amount (next ∷ rest)

-- The errors of `Build`; the methods of a key have none of their own.
pub data BuildError : Type 0 where
  tx_error : TxError → BuildError
  key_error : KeyError → BuildError

abbrev pub of_tx {ℓ} : {A : Type ℓ} → Result TxError A → Result BuildError A
of_tx (ok a) = ok a
of_tx (err e) = err (tx_error e)
of_tx panic = panic

abbrev pub of_key {ℓ} : {A : Type ℓ} → Result KeyError A → Result BuildError A
of_key (ok a) = ok a
of_key (err e) = err (key_error e)
of_key panic = panic

module _ (lib : TxLibraries) (keys : KeyLibraries) where
  pub record TxBuilder : Type 0 where
    pub tx : Transaction lib
    pub xprvs : List (List ℕ)
    pub protocol : Protocol

  unfoldable pub new_tx_builder : Protocol → List (List ℕ) → TxBuilder
  new_tx_builder pr xprvs = record { tx = new_tx lib; xprvs = xprvs; protocol = pr }

  -- `Tx` of the builder
  unfoldable pub builder_tx : TxBuilder → Transaction lib
  builder_tx tb = tb.tx

  -- `Sign` of the builder
  unfoldable pub add_key : List ℕ → TxBuilder → TxBuilder
  add_key xprv tb = record tb { xprvs = tb.xprvs ++ (xprv ∷ []) }

  unfoldable pub set_ttl : ℕ → TxBuilder → TxBuilder
  set_ttl ttl tb = record tb { tx = record tb.tx { body = record tb.tx.body { ttl = ttl } } }

  -- `AddInputs` and `AddOutputs` of the builder
  unfoldable pub builder_add_inputs : List TxInput → TxBuilder → TxBuilder
  builder_add_inputs inputs tb = record tb { tx = add_inputs lib inputs tb.tx }

  unfoldable pub builder_add_outputs : List TxOutput → TxBuilder → TxBuilder
  builder_add_outputs outputs tb = record tb { tx = add_outputs lib outputs tb.tx }

  unfoldable pub get_total_input_outputs : TxBuilder → ℕ × ℕ
  get_total_input_outputs tb = (sum_inputs 0 tb.tx.body.inputs, sum_outputs 0 tb.tx.body.outputs)

  -- `fee, _ = feeTx.Fee(lfee)`
  abbrev pub or_zero : Result TxError ℕ → ℕ
  or_zero (ok n) = n
  or_zero (err e) = 0
  or_zero panic = 0

  -- A witness of zeros stands for the one that is missing.
  unfoldable pub witnessed : WitnessSet lib.Script → WitnessSet lib.Script
  witnessed ws =
      if length ws.witnesses == 0
      then record ws {
        witnesses = ws.witnesses ++ (new_vkey_witness (replicate 32 0) (replicate 64 0) ∷ []);
      }
      else ws

  -- `feeTx` has a body of its own, and shares the witness set of the builder's transaction.
  unfoldable pub fee_tx : TxBuilder → WitnessSet lib.Script → Transaction lib
  fee_tx tb ws =
      let start : Transaction lib = record {
        body = record {
          inputs = tb.tx.body.inputs;
          outputs = tb.tx.body.outputs;
          fee = tb.tx.body.fee;
          ttl = tb.tx.body.ttl;
          auxiliary_data_hash = [];
        };
        witness_set = some ws;
        valid = true;
        auxiliary_data = tb.tx.auxiliary_data;
      } in
      record (calculate_auxiliary_data_hash lib start).0 { witness_set = some (witnessed ws) }

  -- The fee is computed twice, the second time with the first fee in the body. The builder's
  -- transaction comes back with the witness that was appended. A nil witness set panics.
  unfoldable pub min_fee : TxBuilder → Result KeyError (TxBuilder × ℕ)
  min_fee tb = elim tb.tx.witness_set [
    | none ↦ panic
    | some ws ↦
        let lfee = new_linear_fee tb.protocol.tx_fee_per_byte tb.protocol.tx_fee_fixed in
        let (once, first) = fee lib lfee (fee_tx tb ws) in
        let (twice, second) = fee lib lfee (set_fee lib (or_zero first) once) in
        ok (record tb { tx = record tb.tx { witness_set = some (witnessed ws) } }, or_zero second)
  ]

  unfoldable pub add_change_if_needed : Address → TxBuilder → Result KeyError TxBuilder
  add_change_if_needed addr tb =
      let (total_i, total_o) = get_total_input_outputs tb in
      let change = sub64 (sub64 total_i total_o) tb.tx.body.fee in
      let with_change = record tb { tx = add_outputs lib (new_tx_output addr change ∷ []) tb.tx } in
      min_fee with_change >>= λ counted.
      let fee = counted.1 in
      let paid = set_fee lib fee counted.0.tx in
      ok (record counted.0 {
        tx = record paid {
          body = record paid.body {
            outputs = set_last_amount (sub64 (sub64 total_i total_o) fee) paid.body.outputs;
          };
        };
      })

  -- A witness for each key, in their order
  unfoldable pub sign_all : List ℕ → List (List ℕ) → Result BuildError (List VKeyWitness)
  sign_all digest [] = ok []
  sign_all digest (prv ∷ xprvs) = do
    xpub ← of_key (public keys prv)
    key ← of_key (public_key xpub)
    signature ← of_key (sign keys prv digest)
    rest ← sign_all digest xprvs
    ok (new_vkey_witness key signature ∷ rest)

  -- The first test of `Build` is on its result, whose witness set is nil there, so it never holds.
  unfoldable pub build : TxBuilder → TxBuilder × Result BuildError (Transaction lib)
  build tb =
      let (hashed, digest) = hash lib tb.tx in
      elim (of_tx digest >>= (λ d. sign_all d tb.xprvs)) [
        | ok tx_keys ↦
            let built = record hashed { witness_set = some (new_tx_witness_set lib [] tx_keys) } in
            (record tb { tx = built }, ok built)
        | err e ↦ (record tb { tx = hashed }, err e)
        | panic ↦ (record tb { tx = hashed }, panic)
      ]
