-- ===== src/Wallet/Payment/Submitted.antt =====
-- What the run of txbuilder hands to the node.
use mathlib.Core.Path.{subst}
use go_cardano_serialization.Base.{
  ok-injective, ℕ, ◌+◌, ◌≤◌, ◌^◌, ◌<◌, ◌≡◌, refl, sym, ap, ◌∙◌, arith, List, [], ◌∷◌, Option, some,
  u32, u64, ok, All, ◌>>=◌, Result, err, panic,
}
use go_cardano_serialization.Address.Types.{Address, BaseAddress, base}
use go_cardano_serialization.Address.Text.{TextLibraries, new_address}
use go_cardano_serialization.Bip32.Arithmetic.{KeyError}
use go_cardano_serialization.Bip32.Keys.{KeyLibraries}
use go_cardano_serialization.Bip32.Keys.Laws.{KeyLaws}
use go_cardano_serialization.Crypto.{HashLibraries, public_key_hash}
use go_cardano_serialization.Fees.{Protocol}
use go_cardano_serialization.Network.{test_net}
use go_cardano_serialization.Node.Interface.{Node, NetworkTip}
use go_cardano_serialization.Tx.{
  TxInput, VKeyWitness, TxLibraries, Transaction, TxError, hash, new_tx, new_tx_witness_set,
  new_tx_body, new_tx_output, add_inputs, add_outputs,
}
use go_cardano_serialization.Tx.Builder.{
  TxBuilder, add_change_if_needed, sum_inputs, sum_outputs, new_tx_builder, builder_add_inputs,
  builder_add_outputs, set_ttl,
}
use go_cardano_serialization.Tx.Builder.Balance.{HasChange, add_change_if_needed-HasChange}
use go_cardano_serialization.Tx.Builder.Signed.{
  IsSigner, hash-no_data, IsWitness, Witnesses, build-no_data,
}
use go_cardano_serialization.Wallet.{create_root_key, generate_base_address}
use go_cardano_serialization.Wallet.Addresses.{HashLaws, generate_base_address-owner}
use go_cardano_serialization.Bip32.Keys.Derived.{pk_bytes, make_public_key-bytes}
use go_cardano_serialization.Wallet.Payment.{
  send_amount, select_input, zero_input, prepare, finish, pay, of_node, of_wallet, of_address,
  receiver_text, PaymentError,
}
use go_cardano_serialization.Address.Byron.{AddressError}
use go_cardano_serialization.Wallet.Payment.Selection.{IsLast, select_input-IsLast}

wallet_steps :
    {Error A B C : Type 0} (m : Result KeyError A) (f : A → Result KeyError B)
    (k : B → Result (PaymentError Error) C)
    → (of_wallet m >>= λ r. of_wallet (f r) >>= k) ≡ (of_wallet (m >>= f) >>= k)
wallet_steps (ok a) f k = refl
wallet_steps (err e) f k = refl
wallet_steps panic f k = refl

address_steps :
    {Error A B C : Type 0} (m : Result AddressError A) (f : A → Result AddressError B)
    (k : B → Result (PaymentError Error) C)
    → (of_address m >>= λ r. of_address (f r) >>= k) ≡ (of_address (m >>= f) >>= k)
address_steps (ok a) f k = refl
address_steps (err e) f k = refl
address_steps panic f k = refl

-- What a node answers to the queries of the program about the address of a wallet
pub record Answers {Transaction Error : Type 0} (cli : Node Transaction Error)
    (source : BaseAddress) (pr : Protocol) (us : List TxInput) (tip : NetworkTip) : Type 0 where
  pub protocol_answer : cli.protocol_parameters ≡ ok pr
  pub utxos_answer : cli.utxos (base source) ≡ ok us
  pub tip_answer : cli.query_tip ≡ ok tip

module _ (txs : TxLibraries) (keys : KeyLibraries) (laws : KeyLaws keys) where
  -- A payment from a key's address: one input, 5 ADA for the receiver, the change back to the
  -- address, and the key's witness for the hash of the transaction.
  pub record IsPayment (source receiver : Address) (prv : List ℕ) (u : TxInput) (tip : NetworkTip)
      (t : Transaction txs) : Type 0 where
    pub change : ℕ
    pub inputs : t.body.inputs ≡ u ∷ []
    pub outputs :
        t.body.outputs
        ≡ record { address = receiver; amount = send_amount }
          ∷ record { address = source; amount = change }
          ∷ []
    pub ttl : t.body.ttl ≡ u32 (u32 tip.slot + 300)
    pub balanced :
        send_amount + t.body.fee ≤ u.amount → send_amount + t.body.fee + change ≡ u.amount
    pub digest : List ℕ
    pub hashed : (hash txs t).1 ≡ ok digest
    pub witness : VKeyWitness
    pub witnessed : t.witness_set ≡ some (record { witnesses = witness ∷ []; scripts = [] })
    pub signed : IsWitness txs keys laws digest prv witness

  single_IsWitness :
      (digest prv : List ℕ) (ws : List VKeyWitness)
      → Witnesses txs keys laws digest (prv ∷ []) ws
      → (w : VKeyWitness) × (ws ≡ w ∷ []) × IsWitness txs keys laws digest prv w
  single_IsWitness digest prv [] h = absurd h
  single_IsWitness digest prv (w ∷ []) (h, _) = (w, refl, h)
  single_IsWitness digest prv (w ∷ _ ∷ _) (_, h) = absurd h

  finish-IsPayment :
      (pr : Protocol) (prv : List ℕ) (source receiver : Address) (us : List TxInput) (u : TxInput)
      (tip : NetworkTip) (tb' : TxBuilder txs keys) (bytes : List ℕ)
      → add_change_if_needed txs keys source (prepare txs keys pr prv receiver us tip) ≡ ok tb'
      → txs.marshal_body tb'.tx.body ≡ some bytes
      → IsSigner prv
      → IsLast us u
      → u.amount < 2 ^ 64
      → (t : Transaction txs) × (finish txs keys source (prepare txs keys pr prv receiver us tip)
          ≡ ok t)
        × IsPayment source receiver prv u tip t
  unfolding prepare finish new_tx_builder new_tx builder_add_inputs builder_add_outputs set_ttl
      add_inputs add_outputs new_tx_output new_tx_body sum_inputs sum_outputs
  finish-IsPayment pr prv source receiver us u tip tb' bytes changed encoded signer l small =
      let tb = prepare txs keys pr prv receiver us tip in
      let (tb0, changed0, c0) =
        add_change_if_needed-HasChange txs keys source tb (new_tx_witness_set txs [] []) refl in
      let c : HasChange txs keys source tb tb' =
        subst (HasChange txs keys source tb) (ok-injective (sym changed0 ∙ changed)) c0 in
      let signers : All IsSigner tb'.xprvs = subst (All IsSigner) (sym c.keys_kept) (signer, tt) in
      let (ws, built, all) = build-no_data txs keys laws tb' bytes signers c.data_kept encoded in
      let selected : select_input zero_input us ≡ u = select_input-IsLast zero_input us u l in
      let (w, single, signed) = single_IsWitness (txs.sum256 bytes) prv ws (
        subst (λ (ks : List (List ℕ)). Witnesses txs keys laws (txs.sum256 bytes) ks ws) c.keys_kept
          all) in
      let t : Transaction txs = record tb'.tx {
        witness_set = some (record { witnesses = ws; scripts = [] });
      } in
      let covers : sum_inputs 0 tb.tx.body.inputs ≡ u.amount =
        ap (λ (v : TxInput). u64 (0 + v.amount)) selected ∙ omega arith in
      (
        t,
        rw changed built,
        record {
          change = c.change;
          inputs = c.inputs_kept ∙ ap (λ (v : TxInput). v ∷ []) selected;
          outputs = c.outputs_grown;
          ttl = c.ttl_kept;
          balanced = λ paid. omega (arith, covers, c.exact (omega (arith, covers, paid)));
          digest = txs.sum256 bytes;
          hashed =
              ap (λ (p : Transaction txs × Result TxError (List ℕ)). p.1)
                (hash-no_data txs keys t bytes c.data_kept encoded);
          witness = w;
          witnessed =
              ap (λ (v : List VKeyWitness). some (record { witnesses = v; scripts = [] })) single;
          signed = signed;
        },
      )

  module _ (hashes : HashLibraries) (hash_laws : HashLaws hashes) where
    -- If the node answers the queries, the receiver's text, or the wallet's own if there is none,
    -- is an address, and the last utxo of at least 6.2 ADA is u, txbuilder ends with the answer
    -- to the submission of a payment: it spends u alone, pays 5 ADA to the receiver and, where u
    -- covers them, the rest less the fee to the wallet's own address, has a time to live of 300
    -- slots after the tip, and is signed with the key whose public key has the hash in that
    -- address. Amounts must fit in 64 bits, the body that AddChangeIfNeeded leaves must have an
    -- encoding, and the hashes and the curve must keep their laws.
    pub pay-submits :
        {Error : Type 0} (text : TextLibraries) (spare : List ℕ)
        (cli : Node (Transaction txs) Error) (entropy : Option (List ℕ)) (addr : List ℕ)
        (source : BaseAddress) (prv : List ℕ) (receiver : Address) (pr : Protocol)
        (us : List TxInput) (u : TxInput) (tip : NetworkTip) (tb' : TxBuilder txs keys)
        (bytes : List ℕ)
        → (create_root_key keys entropy >>= generate_base_address keys hashes test_net)
          ≡ ok (source, prv)
        → (receiver_text text source addr >>= λ raw. new_address text raw spare) ≡ ok receiver
        → Answers cli source pr us tip
        → IsLast us u
        → u.amount < 2 ^ 64
        → add_change_if_needed txs keys (base source) (prepare txs keys pr prv receiver us tip)
          ≡ ok tb'
        → txs.marshal_body tb'.tx.body ≡ some bytes
        → (t : Transaction txs) × (pay txs keys hashes text spare cli entropy addr
            ≡ of_node (cli.submit_tx t))
          × ((p : IsPayment (base source) receiver prv u tip t) × (source.payment.payload
                ≡ public_key_hash hashes p.witness.vkey))
    unfolding pay
    pay-submits text spare cli entropy addr source prv receiver pr us u tip tb' bytes made parsed a
          l small changed encoded =
        let (k, hashed) =
          generate_base_address-owner keys laws hashes hash_laws test_net entropy source prv made in
        let (t, done, payment) =
          finish-IsPayment pr prv (base source) receiver us u tip tb' bytes changed encoded
            (k.size, omega (arith, k.below)) l small in
        let same_key : pk_bytes keys prv ≡ payment.witness.vkey = ok-injective (
          sym (make_public_key-bytes keys prv (omega (arith, k.size)))
          ∙ payment.signed.is_public_key) in
        (
          t,
          rw (a.protocol_answer, pay)
              (wallet_steps (create_root_key keys entropy)
                  (generate_base_address keys hashes test_net) _
                ∙ rw made (
                    address_steps (receiver_text text source addr)
                      (λ raw. new_address text raw spare) _
                    ∙ rw parsed (rw a.utxos_answer (rw a.tip_answer (rw done refl))))),
          (payment, hashed ∙ ap (public_key_hash hashes) same_key),
        )
