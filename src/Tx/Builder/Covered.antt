-- ===== src/Tx/Builder/Covered.antt =====
-- The fee that `AddChangeIfNeeded` counts, against what `Fee` counts of the built transaction.
use native.Mathlib.Nat.{mul-le-mul_left}
use go_cardano_serialization.Base.{
  All, All-append, ℕ, ◌+◌, ◌-◌, ◌*◌, ◌^◌, ◌<◌, ◌≤◌, ◌≡◌, refl, ap, ◌∙◌, arith, List, [], ◌∷◌, ◌++◌,
  length, ok,
}
use go_cardano_serialization.Address.Types.{Address}
use go_cardano_serialization.Bip32.Keys.{KeyLibraries}
use go_cardano_serialization.Bip32.Keys.Laws.{KeyLaws}
use go_cardano_serialization.Fees.{LinearFee, new_linear_fee, Protocol}
use go_cardano_serialization.Tx.{
  TxInput, TxOutput, new_tx_output, TxBody, new_tx_body, VKeyWitness, new_vkey_witness, TxLibraries,
  Transaction, new_tx, new_tx_witness_set, calculate_auxiliary_data_hash, fee, set_fee, add_inputs,
  add_outputs,
}
use go_cardano_serialization.Tx.Builder.{
  sub64, sum_inputs, sum_outputs, TxBuilder, new_tx_builder, set_ttl, builder_add_inputs,
  builder_add_outputs, get_total_input_outputs, witnessed, fee_tx, min_fee, add_change_if_needed,
  build,
}
use go_cardano_serialization.Tx.Builder.Balance.{
  sum_inputs-lt, sum_outputs-lt, set_last_amount-append,
}
use go_cardano_serialization.Tx.Builder.Counted.{zero_witness}
use go_cardano_serialization.Tx.Builder.Signed.{IsSigner, Witnesses, build-no_data}
use go_cardano_serialization.Tx.Builder.Sizes.{
  HasEncoding, IsEncodable, number_size, number_size_mono, number_size_middle, SameSizes,
  NoLargerOutputs-last, SizeLaws, plain, fee-plain,
}

-- A builder with one key after `AddInputs`, `AddOutputs` and `SetTTL`
abbrev pub prepared :
    (lib : TxLibraries) (keys : KeyLibraries)
    → Protocol
    → (prv : List ℕ) → List TxInput
    → List TxOutput
    → ℕ
    → TxBuilder lib keys
prepared lib keys pr prv inputs outputs ttl = set_ttl lib keys ttl (
    builder_add_outputs lib keys outputs
      (builder_add_inputs lib keys inputs (new_tx_builder lib keys pr (prv ∷ []))))

module _ (lib : TxLibraries) (keys : KeyLibraries) (key_laws : KeyLaws keys) (laws : SizeLaws lib)
    (pr : Protocol) (prv : List ℕ) (inputs : List TxInput) (outputs : List TxOutput) (ttl : ℕ)
    (addr : Address) (old : All (λ o. HasEncoding o.address) outputs) (own : HasEncoding addr) where
  abbrev pub body_of : ℕ → ℕ → TxBody
  body_of change fee = record {
    inputs = inputs;
    outputs = outputs ++ (record { address = addr; amount = change } ∷ []);
    fee = fee;
    ttl = ttl;
    auxiliary_data_hash = [];
  }

  abbrev pub left_over : ℕ
  left_over = sub64 (sum_inputs 0 inputs) (sum_outputs 0 outputs)

  abbrev pub counted_fee : ℕ → ℕ
  counted_fee fee =
      pr.tx_fee_fixed + pr.tx_fee_per_byte * laws.size (body_of left_over fee) (zero_witness ∷ [])

  encodable : (change fee : ℕ) → IsEncodable (body_of change fee)
  encodable change fee = All-append (λ o. HasEncoding o.address) outputs _ old (own, tt)

  counted-NoLarger :
      (low high : ℕ)
      → number_size low ≤ number_size high
      → laws.size (body_of left_over low) (zero_witness ∷ [])
        ≤ laws.size (body_of left_over high) (zero_witness ∷ [])
  counted-NoLarger low high h =
      laws.size_NoLarger (body_of left_over low) (body_of left_over high) _ _
        (encodable left_over low) (encodable left_over high)
        (record {
          inputs = refl;
          outputs =
              NoLargerOutputs-last outputs (record { address = addr; amount = left_over })
                (record { address = addr; amount = left_over }) refl (omega arith);
          fees = h;
          ttl = refl;
          hashes = refl;
          witnesses = (refl, refl, tt);
        })

  -- The fee that is counted first, and the one that is kept.
  abbrev first : ℕ
  first = counted_fee 0

  abbrev second : ℕ
  second = counted_fee first

  module _ (small : counted_fee (2 ^ 32 - 1) < 2 ^ 32) where
    fee-bounded : (n : ℕ) → n < 2 ^ 32 → counted_fee n ≤ counted_fee (2 ^ 32 - 1)
    fee-bounded n h =
        let sizes =
          counted-NoLarger n (2 ^ 32 - 1) (number_size_mono n (2 ^ 32 - 1) (omega arith)) in
        grind (arith, sizes)

    lfee : LinearFee
    lfee = new_linear_fee pr.tx_fee_per_byte pr.tx_fee_fixed

    -- The builder that `MinFee` is called with, and the one that it leaves
    abbrev holding : List VKeyWitness → TxBuilder lib keys
    holding ws = record { tx = plain lib (body_of left_over 0) ws; xprvs = prv ∷ []; protocol = pr }

    first-lt : first < 2 ^ 32
    first-lt = omega (arith, fee-bounded 0 (omega arith), small)

    fee-counted :
        (n : ℕ)
        → n < 2 ^ 32
        → fee lib lfee (plain lib (body_of left_over n) (zero_witness ∷ []))
          ≡ (plain lib (body_of left_over n) (zero_witness ∷ []), ok (counted_fee n))
    unfolding lfee new_linear_fee
    fee-counted n h =
        fee-plain lib laws lfee (body_of left_over n) (zero_witness ∷ []) (encodable left_over n)
          (omega (arith, fee-bounded n h, small))

    min_fee-holding : min_fee lib keys (holding []) ≡ ok (holding (zero_witness ∷ []), second)
    unfolding min_fee fee_tx witnessed calculate_auxiliary_data_hash new_vkey_witness set_fee lfee
    min_fee-holding = rw (fee-counted 0 (omega arith)) (rw (fee-counted first first-lt) refl)

    change-added :
        add_change_if_needed lib keys addr (prepared lib keys pr prv inputs outputs ttl)
        ≡ ok (record {
          tx = plain lib (body_of (sub64 left_over second) second) (zero_witness ∷ []);
          xprvs = prv ∷ [];
          protocol = pr;
        })
    unfolding add_change_if_needed add_outputs set_ttl builder_add_outputs builder_add_inputs
        add_inputs new_tx_builder new_tx set_fee new_tx_body new_tx_output new_tx_witness_set
        get_total_input_outputs
    change-added = rw same_rest (
        rw min_fee-holding (
          rw
            (set_last_amount-append (sub64 left_over second) outputs
              (record { address = addr; amount = left_over }))
            refl))
      where
        same_rest : sub64 left_over 0 ≡ left_over
        same_rest = omega arith

    second-lt : second < 2 ^ 32
    second-lt = omega (arith, fee-bounded first first-lt, small)

    -- The change that is left is no more than the one that was counted.
    change_less :
        sum_outputs 0 outputs + counted_fee (2 ^ 32 - 1) ≤ sum_inputs 0 inputs
        → sub64 left_over second ≤ left_over
    change_less covered = omega (
      arith,
      covered,
      fee-bounded first first-lt,
      sum_inputs-lt 0 inputs (omega arith),
      sum_outputs-lt 0 outputs (omega arith),
    )

    one_witness :
        (digest : List ℕ) (ws : List VKeyWitness)
        → Witnesses lib keys key_laws digest (prv ∷ []) ws
        → SameSizes ws (zero_witness ∷ [])
    one_witness digest [] h = absurd h
    one_witness digest (w ∷ []) (h, none_left) =
        (ap length h.encodes ∙ key_laws.to_bytes_size h.point, h.signs.size, tt)
    one_witness digest (w ∷ v ∷ ws) (h, more) = absurd more

    -- The transaction that AddChangeIfNeeded and Build make of a builder with one key pays a fee
    -- that is no less than what Fee counts of it, if the fixed part of the fee is 2 ^ 16 at
    -- least, the fee stays below 2 ^ 32 the inputs cover it and the outputs, and the outputs go
    -- to base, enterprise and pointer addresses. The key must be of 96 bytes with a left half
    -- below 2 ^ 255. Signatures and CBOR must keep their laws.
    pub fee-build :
        IsSigner prv
        → 2 ^ 16 ≤ pr.tx_fee_fixed
        → sum_outputs 0 outputs + counted_fee (2 ^ 32 - 1) ≤ sum_inputs 0 inputs
        → (tb' : TxBuilder lib keys) × (t : Transaction lib) × (n : ℕ) × (add_change_if_needed lib
              keys addr
              (prepared lib keys pr prv inputs outputs ttl)
            ≡ ok tb')
          × ((build lib keys tb').1 ≡ ok t)
          × (fee lib (new_linear_fee pr.tx_fee_per_byte pr.tx_fee_fixed) t ≡ (t, ok n))
          × (n ≤ t.body.fee)
    unfolding lfee new_linear_fee
    fee-build signer fixed covered =
        let final = body_of (sub64 left_over second) second in
        let tb' : TxBuilder lib keys = record {
          tx = plain lib final (zero_witness ∷ []);
          xprvs = prv ∷ [];
          protocol = pr;
        } in
        let (bytes, encoded) =
          laws.marshals_body final (encodable (sub64 left_over second) second) in
        let (ws, built, signed) =
          build-no_data lib keys key_laws tb' bytes (signer, tt) refl encoded in
        let no_larger : laws.size final ws
            ≤ laws.size (body_of left_over first) (zero_witness ∷ []) =
          laws.size_NoLarger final (body_of left_over first) _ _
            (encodable (sub64 left_over second) second) (encodable left_over first)
            (record {
              inputs = refl;
              outputs =
                  NoLargerOutputs-last outputs
                    (record { address = addr; amount = sub64 left_over second })
                    (record { address = addr; amount = left_over }) refl
                    (number_size_mono (sub64 left_over second) left_over (change_less covered));
              fees = number_size_middle second first second-lt (omega (arith, fixed));
              ttl = refl;
              hashes = refl;
              witnesses = one_witness (lib.sum256 bytes) ws signed;
            }) in
        let n = pr.tx_fee_fixed + pr.tx_fee_per_byte * laws.size final ws in
        let enough : n ≤ second = omega (arith, mul-le-mul_left pr.tx_fee_per_byte no_larger) in
        (
          tb',
          plain lib final ws,
          n,
          change-added,
          built,
          fee-plain lib laws lfee final ws (encodable (sub64 left_over second) second)
              (omega (arith, enough, second-lt)),
          enough,
        )
