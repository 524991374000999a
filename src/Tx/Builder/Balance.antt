-- ===== src/Tx/Builder/Balance.antt =====
-- `AddChangeIfNeeded` balances a transaction, in uints of 64 bits.
use go_cardano_serialization.Base.{
  ℕ, ◌+◌, ◌^◌, ◌<◌, ◌≤◌, ◌≡◌, refl, ap, ◌∙◌, arith, List, [], ◌∷◌, ◌++◌, some, ok, u64, Option,
  none, Result, err, panic, ◌*◌, length, ◌>>=◌,
}
use go_cardano_serialization.Address.Types.{Address}
use go_cardano_serialization.Bip32.Keys.{KeyLibraries}
use go_cardano_serialization.Fees.{LinearFee, new_linear_fee}
use go_cardano_serialization.Tx.{
  TxInput, TxOutput, new_tx_output, WitnessSet, TxLibraries, Transaction, fee, set_fee, add_outputs,
  of_marshal, TxError, calculate_auxiliary_data_hash,
}
use go_cardano_serialization.Tx.Builder.{
  sub64, sum_inputs, sum_outputs, set_last_amount, TxBuilder, get_total_input_outputs, or_zero,
  min_fee, fee_tx, witnessed, add_change_if_needed,
}

pub sum_inputs-lt : (acc : ℕ) (xs : List TxInput) → acc < 2 ^ 64 → sum_inputs acc xs < 2 ^ 64
unfolding sum_inputs
sum_inputs-lt acc [] h = h
sum_inputs-lt acc (x ∷ xs) h = sum_inputs-lt (u64 (acc + x.amount)) xs (omega arith)

pub sum_outputs-lt : (acc : ℕ) (xs : List TxOutput) → acc < 2 ^ 64 → sum_outputs acc xs < 2 ^ 64
unfolding sum_outputs
sum_outputs-lt acc [] h = h
sum_outputs-lt acc (x ∷ xs) h = sum_outputs-lt (u64 (acc + x.amount)) xs (omega arith)

sum_outputs-append :
    (acc : ℕ) (xs : List TxOutput) (o : TxOutput)
    → sum_outputs acc (xs ++ (o ∷ [])) ≡ u64 (sum_outputs acc xs + o.amount)
unfolding sum_outputs
sum_outputs-append acc [] o = refl
sum_outputs-append acc (x ∷ xs) o = sum_outputs-append (u64 (acc + x.amount)) xs o

pub set_last_amount-append :
    (amount : ℕ) (xs : List TxOutput) (o : TxOutput)
    → set_last_amount amount (xs ++ (o ∷ [])) ≡ xs ++ (record o { amount = amount } ∷ [])
unfolding set_last_amount
set_last_amount-append amount [] o = refl
set_last_amount-append amount (x ∷ []) o = refl
set_last_amount-append amount (x ∷ y ∷ xs) o = ap (◌∷◌ x) (set_last_amount-append amount (y ∷ xs) o)

module _ (lib : TxLibraries) (keys : KeyLibraries) where
  -- What the balance of a transaction with one more output is, from the old totals.
  pub record HasChange (addr : Address) (tb tb' : TxBuilder lib keys) : Type 0 where
    pub change : ℕ
    pub keys_kept : tb'.xprvs ≡ tb.xprvs
    pub ttl_kept : tb'.tx.body.ttl ≡ tb.tx.body.ttl
    pub data_kept : tb'.tx.auxiliary_data ≡ tb.tx.auxiliary_data
    pub inputs_kept : tb'.tx.body.inputs ≡ tb.tx.body.inputs
    pub outputs_grown :
        tb'.tx.body.outputs
        ≡ tb.tx.body.outputs ++ (record { address = addr; amount = change } ∷ [])
    pub balanced :
        u64 (sum_outputs 0 tb'.tx.body.outputs + tb'.tx.body.fee) ≡ sum_inputs 0 tb'.tx.body.inputs
    pub exact :
        sum_outputs 0 tb.tx.body.outputs + tb'.tx.body.fee ≤ sum_inputs 0 tb.tx.body.inputs
        → sum_outputs 0 tb.tx.body.outputs + tb'.tx.body.fee + change
          ≡ sum_inputs 0 tb.tx.body.inputs

  counted-lt :
      (size_fee : ℕ → ℕ) (done : Result TxError (Unit {0})) (bytes : Option (List ℕ))
      → or_zero lib keys
          (done >>= λ _. of_marshal bytes >>= λ tx_cbor. ok (u64 (size_fee (length tx_cbor))))
        < 2 ^ 64
  counted-lt size_fee (ok tt) (some bytes) = omega arith
  counted-lt size_fee (ok tt) none = omega arith
  counted-lt size_fee (err e) bytes = omega arith
  counted-lt size_fee panic bytes = omega arith

  fee-lt : (lfee : LinearFee) (t : Transaction lib) → or_zero lib keys (fee lib lfee t).1 < 2 ^ 64
  unfolding fee
  fee-lt lfee t =
      counted-lt (λ size. lfee.tx_fee_fixed + u64 (lfee.tx_fee_per_byte * size))
        (calculate_auxiliary_data_hash lib t).1
        (lib.marshal_tx (calculate_auxiliary_data_hash lib t).0)

  -- `MinFee` of a transaction with a witness set returns a uint, and leaves in the transaction
  -- the witness set that it counted.
  pub min_fee-some :
      (tb : TxBuilder lib keys) (ws : WitnessSet lib.Script)
      → tb.tx.witness_set ≡ some ws
      → (n : ℕ) × (n < 2 ^ 64)
        × (min_fee lib keys tb
            ≡ ok
                (record tb { tx = record tb.tx { witness_set = some (witnessed lib keys ws) } }, n))
  unfolding min_fee
  min_fee-some tb ws e =
      let lfee = new_linear_fee tb.protocol.tx_fee_per_byte tb.protocol.tx_fee_fixed in
      let once = fee lib lfee (fee_tx lib keys tb ws) in
      let again = set_fee lib (or_zero lib keys once.1) once.0 in
      (or_zero lib keys (fee lib lfee again).1, fee-lt lfee again, rw e)

  -- For a transaction with a witness set, AddChangeIfNeeded appends one output to the address and
  -- sets the fee such that outputs and fee together are the inputs, modulo 2 ^ 64; where the
  -- inputs cover the old outputs and the fee, the change is exactly what they leave.
  pub add_change_if_needed-HasChange :
      (addr : Address) (tb : TxBuilder lib keys) (ws : WitnessSet lib.Script)
      → tb.tx.witness_set ≡ some ws
      → (tb' : TxBuilder lib keys) × (add_change_if_needed lib keys addr tb ≡ ok tb')
        × HasChange addr tb tb'
  unfolding add_change_if_needed new_tx_output add_outputs set_fee get_total_input_outputs
  add_change_if_needed-HasChange addr tb ws e =
      let total_i = sum_inputs 0 tb.tx.body.inputs in
      let total_o = sum_outputs 0 tb.tx.body.outputs in
      let i_lt : total_i < 2 ^ 64 = sum_inputs-lt 0 tb.tx.body.inputs (omega arith) in
      let o_lt : total_o < 2 ^ 64 = sum_outputs-lt 0 tb.tx.body.outputs (omega arith) in
      let first = sub64 (sub64 total_i total_o) tb.tx.body.fee in
      let with_change : TxBuilder lib keys = record tb {
        tx = add_outputs lib (new_tx_output addr first ∷ []) tb.tx;
      } in
      let (n, n_lt, counted) = min_fee-some with_change ws e in
      let change = sub64 (sub64 total_i total_o) n in
      let grown : set_last_amount change (tb.tx.body.outputs ++ (new_tx_output addr first ∷ []))
          ≡ tb.tx.body.outputs ++ (record { address = addr; amount = change } ∷ []) =
        set_last_amount-append change tb.tx.body.outputs (new_tx_output addr first) in
      (
        record tb {
          tx = record tb.tx {
            body = record tb.tx.body {
              outputs =
                  set_last_amount change (tb.tx.body.outputs ++ (new_tx_output addr first ∷ []));
              fee = n;
            };
            witness_set = some (witnessed lib keys ws);
          };
        },
        rw counted,
        record {
          change = change;
          keys_kept = refl;
          ttl_kept = refl;
          data_kept = refl;
          inputs_kept = refl;
          outputs_grown = grown;
          balanced =
              ap (λ (t : List TxOutput). u64 (sum_outputs 0 t + n)) grown
              ∙ ap (λ (t : ℕ). u64 (t + n))
                  (sum_outputs-append 0 tb.tx.body.outputs
                    (record { address = addr; amount = change }))
              ∙ omega (arith, i_lt, o_lt, n_lt);
          exact = λ covered. omega (arith, i_lt, o_lt, n_lt);
        },
      )
