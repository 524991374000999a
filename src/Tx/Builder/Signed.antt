-- ===== src/Tx/Builder/Signed.antt =====
-- What `Build` signs, and with which keys.
use go_cardano_serialization.Base.{
  ok-injective, ℕ, ◌^◌, ◌<◌, ◌≡◌, refl, sym, ap, ◌∙◌, arith, List, [], ◌∷◌, some, none, ok, length,
  Option, Result, take, All,
}
use go_cardano_serialization.Bip32.Arithmetic.Sums.{number}
use go_cardano_serialization.Bip32.Keys.{KeyLibraries, make_public_key}
use go_cardano_serialization.Bip32.Keys.Laws.{KeyLaws}
use go_cardano_serialization.Bip32.Keys.Derived.{pk_bytes, make_public_key-bytes}
use go_cardano_serialization.Bip32.Keys.Public.{public-parts, public_key-parts}
use go_cardano_serialization.Bip32.Sign.Valid.{IsSignature, sign-IsSignature}
use go_cardano_serialization.Tx.{
  TxBody, VKeyWitness, new_vkey_witness, WitnessSet, TxLibraries, Transaction, new_tx_witness_set,
  hash, calculate_auxiliary_data_hash, TxError,
}
use go_cardano_serialization.Tx.Builder.{TxBuilder, sign_all, build}

-- A key that signs: 96 bytes, with a left half below 2 ^ 255.
abbrev pub IsSigner : List ℕ → Type 0
IsSigner prv = (length prv ≡ 96) × (number (take 32 prv) < 2 ^ 255)

module _ (lib : TxLibraries) (keys : KeyLibraries) where
  -- The hash is of the body, which the second call leaves as the first one did.
  hash-again :
      (t : Transaction lib) (ws : Option (WitnessSet lib.Script)) (digest : List ℕ)
      → (hash lib t).1 ≡ ok digest
      → (hash lib (record (hash lib t).0 { witness_set = ws })).1 ≡ ok digest
  unfolding hash calculate_auxiliary_data_hash
  hash-again t ws digest h = by_data t.auxiliary_data t.body h
    where
      by_data :
          (aux : Option lib.Auxiliary) (body : TxBody)
          → let t' : Transaction lib = record {
            body = body;
            witness_set = t.witness_set;
            valid = t.valid;
            auxiliary_data = aux;
          } in
            (hash lib t').1 ≡ ok digest
            → (hash lib (record (hash lib t').0 { witness_set = ws })).1 ≡ ok digest
      by_data none body h = h
      by_data (some a) body h = ground arith

  -- A transaction without auxiliary data is hashed as it is, if its body has an encoding.
  pub hash-no_data :
      (t : Transaction lib) (bytes : List ℕ)
      → t.auxiliary_data ≡ none
      → lib.marshal_body t.body ≡ some bytes
      → hash lib t ≡ (t, ok (lib.sum256 bytes))
  unfolding hash calculate_auxiliary_data_hash
  hash-no_data t bytes e m = rw (e, hash) (rw m refl)

  module _ (laws : KeyLaws keys) where
    -- A witness of one key for a digest: its public key, and a signature that verifies.
    pub record IsWitness (digest prv : List ℕ) (w : VKeyWitness) : Type 0 where
      pub point : keys.Point
      pub is_public_key : make_public_key keys prv ≡ ok w.vkey
      pub encodes : w.vkey ≡ keys.to_bytes point
      pub signs : IsSignature keys laws point digest w.signature

    -- One witness for each key, in the same order.
    abbrev pub Witnesses : List ℕ → List (List ℕ) → List VKeyWitness → Type 0
    Witnesses digest [] [] = Unit
    Witnesses digest (prv ∷ xprvs) (w ∷ ws) = IsWitness digest prv w × Witnesses digest xprvs ws
    Witnesses digest _ _ = ⊥

    sign_all-Witnesses :
        (digest : List ℕ) (xprvs : List (List ℕ))
        → All IsSigner xprvs
        → (ws : List VKeyWitness) × (sign_all lib keys digest xprvs ≡ ok ws)
          × Witnesses digest xprvs ws
    unfolding sign_all new_vkey_witness
    sign_all-Witnesses digest [] h = ([], refl, tt)
    sign_all-Witnesses digest (prv ∷ xprvs) ((size, small), hs) =
        let (ws, there, all) = sign_all-Witnesses digest xprvs hs in
        let (signature, a, has_key, signed, valid) =
          sign-IsSignature keys laws prv digest (omega arith) small in
        (
          record { vkey = pk_bytes keys prv; signature = signature } ∷ ws,
          rw (public-parts keys laws prv size)
              (rw (public_key-parts keys laws prv) (rw signed (rw there))),
          (
            record {
              point = a;
              is_public_key = make_public_key-bytes keys prv (omega arith);
              encodes = ok-injective (sym (make_public_key-bytes keys prv (omega arith)) ∙ has_key);
              signs = valid;
            },
            all,
          ),
        )

    -- What a transaction that `Build` returned is: it has the same digest as the one in the
    -- builder, and for each key of the builder a witness for that digest, and no scripts.
    pub record IsSigned (digest : List ℕ) (xprvs : List (List ℕ)) (t : Transaction lib)
        : Type 0 where
      pub same_digest : (hash lib t).1 ≡ ok digest
      pub witnesses : List VKeyWitness
      pub held : t.witness_set ≡ some (record { witnesses = witnesses; scripts = [] })
      pub of_keys : Witnesses digest xprvs witnesses

    -- Build with keys of 96 bytes whose left halves are below 2 ^ 255, of a transaction that has
    -- a digest, returns a transaction with the same digest, no scripts, and for each key in order
    -- a witness that holds its public key and a signature of the digest which verifies. The
    -- hashes and the curve must keep their laws.
    pub build-IsSigned :
        (tb : TxBuilder lib keys) (digest : List ℕ)
        → All IsSigner tb.xprvs
        → (hash lib tb.tx).1 ≡ ok digest
        → (t : Transaction lib) × (build lib keys tb ≡ (record tb { tx = t }, ok t))
          × IsSigned digest tb.xprvs t
    unfolding build new_tx_witness_set
    build-IsSigned tb digest signers h =
        let (ws, there, all) = sign_all-Witnesses digest tb.xprvs signers in
        let set = some (record { witnesses = ws; scripts = [] }) in
        (
          record (hash lib tb.tx).0 { witness_set = set },
          rw (h, build) (rw there),
          record {
            same_digest = hash-again tb.tx set digest h;
            witnesses = ws;
            held = refl;
            of_keys = all;
          },
        )

    -- Without auxiliary data `Build` changes nothing but the witness set.
    pub build-no_data :
        (tb : TxBuilder lib keys) (bytes : List ℕ)
        → All IsSigner tb.xprvs
        → tb.tx.auxiliary_data ≡ none
        → lib.marshal_body tb.tx.body ≡ some bytes
        → (ws : List VKeyWitness) × ((build lib keys tb).1
            ≡ ok (record tb.tx { witness_set = some (record { witnesses = ws; scripts = [] }) }))
          × Witnesses (lib.sum256 bytes) tb.xprvs ws
    unfolding build new_tx_witness_set
    build-no_data tb bytes signers e m =
        let (ws, there, all) = sign_all-Witnesses (lib.sum256 bytes) tb.xprvs signers in
        let signed : Transaction lib → Transaction lib =
          λ t. record t { witness_set = some (record { witnesses = ws; scripts = [] }) } in
        let h = hash-no_data tb.tx bytes e m in
        (
          ws,
          rw (h, build)
              (rw there
                (ap (λ (p : Transaction lib × Result TxError (List ℕ)). ok (signed p.0)) h)),
          all,
        )
