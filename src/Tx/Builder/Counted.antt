-- ===== src/Tx/Builder/Counted.antt =====
-- What `MinFee` leaves in the builder that it counted.
use mathlib.Core.Path.{subst}
use go_cardano_serialization.Base.{
  ℕ, ◌≡◌, refl, ap, ap₂, suc, ◌∙◌, arith, List, [], ◌∷◌, length, replicate, Option, some, none, ok,
  Result, ◌==◌, true, false,
}
use go_cardano_serialization.Bip32.Arithmetic.{KeyError}
use go_cardano_serialization.Bip32.Keys.{KeyLibraries}
use go_cardano_serialization.Fees.{new_linear_fee}
use go_cardano_serialization.Tx.{
  TxBody, VKeyWitness, new_vkey_witness, WitnessSet, TxLibraries, Transaction, fee, set_fee,
  calculate_auxiliary_data_hash,
}
use go_cardano_serialization.Tx.Builder.{TxBuilder, or_zero, witnessed, fee_tx, min_fee}

-- The witness of zeros.
abbrev pub zero_witness : VKeyWitness
zero_witness = record { vkey = replicate 32 0; signature = replicate 64 0 }

module _ (lib : TxLibraries) (keys : KeyLibraries) where
  witnessed-witnessed :
      (ws : WitnessSet lib.Script)
      → witnessed lib keys (witnessed lib keys ws) ≡ witnessed lib keys ws
  unfolding witnessed
  witnessed-witnessed ws = by_list ws.witnesses
    where
      by_list :
          (l : List VKeyWitness)
          → let ws' : WitnessSet lib.Script = record { witnesses = l; scripts = ws.scripts } in
            witnessed lib keys (witnessed lib keys ws') ≡ witnessed lib keys ws'
      by_list [] = refl
      by_list (w ∷ l) =
          let some_there : (suc (length l) == 0) ≡ false = ground arith in
          rw (some_there, witnessed) (rw some_there)

  -- The set that is counted: a witness of zeros where there is none, and else those that are
  -- there; the scripts stay.
  abbrev pub filled : List VKeyWitness → List VKeyWitness
  filled [] = zero_witness ∷ []
  filled (w ∷ ws) = w ∷ ws

  witnessed-filled :
      (ws : WitnessSet lib.Script)
      → witnessed lib keys ws ≡ record { witnesses = filled ws.witnesses; scripts = ws.scripts }
  unfolding witnessed new_vkey_witness
  witnessed-filled ws = by_list ws.witnesses
    where
      by_list :
          (l : List VKeyWitness)
          → witnessed lib keys (record { witnesses = l; scripts = ws.scripts })
            ≡ record { witnesses = filled l; scripts = ws.scripts }
      by_list [] = refl
      by_list (w ∷ l) =
          let some_there : (suc (length l) == 0) ≡ false = ground arith in
          rw (some_there, witnessed) refl

  -- What the witness set was before does not matter where another one is put in.
  overwritten :
      (body : TxBody) (aux : Option lib.Auxiliary) (before after : WitnessSet lib.Script)
      (now : WitnessSet lib.Script)
      → let start : WitnessSet lib.Script → Transaction lib =
          λ ws. record { body = body; witness_set = some ws; valid = true; auxiliary_data = aux } in
        ◌≡◌ {A = Transaction lib}
          (record (calculate_auxiliary_data_hash lib (start before)).0 { witness_set = some now })
          (record (calculate_auxiliary_data_hash lib (start after)).0 { witness_set = some now })
  unfolding calculate_auxiliary_data_hash
  overwritten body none before after now = refl
  overwritten body (some a) before after now = by_bytes (lib.marshal_auxiliary a) refl
    where
      by_bytes :
          (o : Option (List ℕ))
          → lib.marshal_auxiliary a ≡ o
          → let start : WitnessSet lib.Script → Transaction lib = λ ws. record {
            body = body;
            witness_set = some ws;
            valid = true;
            auxiliary_data = some a;
          } in
            ◌≡◌ {A = Transaction lib}
              (record (calculate_auxiliary_data_hash lib (start before)).0 {
                witness_set = some now;
              })
              (record (calculate_auxiliary_data_hash lib (start after)).0 {
                witness_set = some now;
              })
      by_bytes none e = rw (e, calculate_auxiliary_data_hash)
      by_bytes (some b) e = rw (e, calculate_auxiliary_data_hash)

  module _ (tb : TxBuilder lib keys) (ws : WitnessSet lib.Script)
      (e : tb.tx.witness_set ≡ some ws) where
    -- The builder after `MinFee`
    abbrev counted : TxBuilder lib keys
    counted = record tb { tx = record tb.tx { witness_set = some (witnessed lib keys ws) } }

    abbrev start : Transaction lib
    start = record {
      body = record tb.tx.body { auxiliary_data_hash = [] };
      witness_set = some ws;
      valid = true;
      auxiliary_data = tb.tx.auxiliary_data;
    }

    fee_tx-counted : fee_tx lib keys counted (witnessed lib keys ws) ≡ fee_tx lib keys tb ws
    unfolding fee_tx
    fee_tx-counted =
        overwritten _ _ (witnessed lib keys ws) ws (witnessed lib keys (witnessed lib keys ws))
        ∙ ap
            (λ (now : WitnessSet lib.Script). record (calculate_auxiliary_data_hash lib start).0 {
              witness_set = some now;
            })
            (witnessed-witnessed ws)

    -- The builder with the set that is counted, written out
    abbrev pub completed : TxBuilder lib keys
    completed = record tb {
      tx = record tb.tx {
        witness_set = some (record { witnesses = filled ws.witnesses; scripts = ws.scripts });
      };
    }

    counted-completed : counted ≡ completed
    counted-completed =
        ap (λ (w : WitnessSet lib.Script). record tb { tx = record tb.tx { witness_set = some w } })
          (witnessed-filled ws)

    -- The result of `MinFee`
    of_counted : TxBuilder lib keys → ℕ → Result KeyError (TxBuilder lib keys × ℕ)
    of_counted b n = ok (b, n)

    counted_twice :
        (n : ℕ) × (min_fee lib keys tb ≡ ok (counted, n))
        × (min_fee lib keys counted ≡ ok (counted, n))
    unfolding min_fee of_counted
    counted_twice =
        let lfee = new_linear_fee tb.protocol.tx_fee_per_byte tb.protocol.tx_fee_fixed in
        let amount : Transaction lib → ℕ = λ t.
          let once = fee lib lfee t in
          or_zero lib keys (fee lib lfee (set_fee lib (or_zero lib keys once.1) once.0)).1 in
        (
          amount (fee_tx lib keys tb ws),
          rw e,
          ap₂
              (λ (w : WitnessSet lib.Script) (t : Transaction lib).
                of_counted (record tb { tx = record tb.tx { witness_set = some w } }) (amount t))
              (witnessed-witnessed ws) fee_tx-counted,
        )

    -- For a transaction with a witness set, MinFee changes nothing in the builder but the
    -- witnesses, where it appends a witness of zeros if there was none and keeps those that were
    -- there, with the scripts; a second call returns the same fee and leaves the builder as it
    -- is.
    pub min_fee-counted :
        (n : ℕ) × (min_fee lib keys tb ≡ ok (completed, n))
        × (min_fee lib keys completed ≡ ok (completed, n))
    min_fee-counted =
        subst (λ b. (n : ℕ) × (min_fee lib keys tb ≡ ok (b, n)) × (min_fee lib keys b ≡ ok (b, n)))
          counted-completed counted_twice
