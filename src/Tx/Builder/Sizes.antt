-- ===== src/Tx/Builder/Sizes.antt =====
-- How the size of a transaction, and with it `Fee`, depends on the numbers in it.
use go_cardano_serialization.Base.{
  All, ℕ, ◌+◌, ◌*◌, ◌^◌, ◌<◌, ◌≤◌, ◌≡◌, refl, ap, arith, true, List, [], ◌∷◌, ◌++◌, length, some,
  none, ok, u64, ltb, if◌then◌else◌,
}
use go_cardano_serialization.Fees.{LinearFee}
use go_cardano_serialization.Address.Types.{Address, base, enterprise, reward, pointer, byron}
use go_cardano_serialization.Tx.{
  TxOutput, TxBody, VKeyWitness, TxLibraries, Transaction, calculate_auxiliary_data_hash, fee,
}

-- How many bytes CBOR takes for a number.
abbrev pub number_size : ℕ → ℕ
number_size n =
    if ltb n 24
    then 1
    else if ltb n (2 ^ 8)
    then 2
    else if ltb n (2 ^ 16)
    then 3
    else if ltb n (2 ^ 32)
    then 5
    else 9

pub number_size_mono : (a b : ℕ) → a ≤ b → number_size a ≤ number_size b
number_size_mono a b h = ground arith

pub number_size_middle : (a b : ℕ) → a < 2 ^ 32 → 2 ^ 16 ≤ b → number_size a ≤ number_size b
number_size_middle a b ha hb = ground arith

abbrev pub NoLargerOutputs : List TxOutput → List TxOutput → Type 0
NoLargerOutputs [] [] = Unit
NoLargerOutputs (o ∷ os) (p ∷ ps) =
    (o.address ≡ p.address) × (number_size o.amount ≤ number_size p.amount) × NoLargerOutputs os ps
NoLargerOutputs _ _ = ⊥

abbrev pub SameSizes : List VKeyWitness → List VKeyWitness → Type 0
SameSizes [] [] = Unit
SameSizes (v ∷ vs) (w ∷ ws) =
    (length v.vkey ≡ length w.vkey) × (length v.signature ≡ length w.signature) × SameSizes vs ws
SameSizes _ _ = ⊥

pub NoLargerOutputs-last :
    (os : List TxOutput) (o p : TxOutput)
    → o.address ≡ p.address
    → number_size o.amount ≤ number_size p.amount
    → NoLargerOutputs (os ++ (o ∷ [])) (os ++ (p ∷ []))
NoLargerOutputs-last [] o p e h = (e, h, tt)
NoLargerOutputs-last (x ∷ os) o p e h = (refl, omega arith, NoLargerOutputs-last os o p e h)

-- An address whose `MarshalCBOR` encodes its bytes. That of a reward address encodes a function,
-- and that of a Byron address its own arrays.
abbrev pub HasEncoding : Address → Type 0
HasEncoding (base b) = Unit
HasEncoding (enterprise e) = Unit
HasEncoding (pointer p) = Unit
HasEncoding (reward r) = ⊥
HasEncoding (byron b) = ⊥

abbrev pub IsEncodable : TxBody → Type 0
IsEncodable body = All (λ o. HasEncoding o.address) body.outputs

-- Where two bodies have the same parts, but for numbers that do not take more bytes, and their
-- witnesses are as many and of the same sizes.
pub record NoLarger (b : TxBody) (vs : List VKeyWitness) (c : TxBody) (ws : List VKeyWitness)
    : Type 0 where
  pub inputs : b.inputs ≡ c.inputs
  pub outputs : NoLargerOutputs b.outputs c.outputs
  pub fees : number_size b.fee ≤ number_size c.fee
  pub ttl : b.ttl ≡ c.ttl
  pub hashes : b.auxiliary_data_hash ≡ c.auxiliary_data_hash
  pub witnesses : SameSizes vs ws

module _ (lib : TxLibraries) where
  -- A transaction without scripts and auxiliary data
  abbrev pub plain : TxBody → List VKeyWitness → Transaction lib
  plain body witnesses = record {
    body = body;
    witness_set = some (record { witnesses = witnesses; scripts = [] });
    valid = true;
    auxiliary_data = none;
  }

  -- What CBOR promises of such a transaction, where its outputs go to addresses with an encoding.
  pub record SizeLaws : Type 0 where
    pub size : TxBody → List VKeyWitness → ℕ
    pub marshals_tx :
        (body : TxBody) (ws : List VKeyWitness)
        → IsEncodable body
        → (bytes : List ℕ) × (lib.marshal_tx (plain body ws) ≡ some bytes)
          × (length bytes ≡ size body ws)
    pub marshals_body :
        (body : TxBody) → IsEncodable body → (bytes : List ℕ) × (lib.marshal_body body ≡ some bytes)
    pub size_NoLarger :
        (b c : TxBody) (vs ws : List VKeyWitness)
        → IsEncodable b
        → IsEncodable c
        → NoLarger b vs c ws
        → size b vs ≤ size c ws

  pub fee-plain :
      (laws : SizeLaws) (lfee : LinearFee) (body : TxBody) (ws : List VKeyWitness)
      → IsEncodable body
      → lfee.tx_fee_fixed + lfee.tx_fee_per_byte * laws.size body ws < 2 ^ 32
      → fee lib lfee (plain body ws)
        ≡ (plain body ws, ok (lfee.tx_fee_fixed + lfee.tx_fee_per_byte * laws.size body ws))
  unfolding fee calculate_auxiliary_data_hash
  fee-plain laws lfee body ws encodable small =
      let (bytes, there, sized) = laws.marshals_tx body ws encodable in
      rw (there, sized)
        (ap (λ (n : ℕ). (plain body ws, ok n))
          {x = u64 (lfee.tx_fee_fixed + u64 (lfee.tx_fee_per_byte * laws.size body ws))}
          (omega arith))
