-- ===== src/Wallet/Addresses.antt =====
-- The addresses of the wallet are valid, and every one of its derivations succeeds.
use mathlib.Core.Path.{subst}
use go_cardano_serialization.Base.{
  ℕ, suc, ◌+◌, ◌^◌, ◌≤◌, ◌≡◌, refl, sym, ap, ◌∙◌, arith, List, [], ◌∷◌, length, All, IsByte, Option,
  none, some, Result, ok, ◌>>=◌,
}
use go_cardano_serialization.Address.Types.{
  BaseAddress, base, enterprise, to_enterprise, new_base_address, new_enterprise_address,
}
use go_cardano_serialization.Address.Parse.Header.{IsNetwork, IsCredential}
use go_cardano_serialization.Address.Text.{TextLibraries, to_string, new_address}
use go_cardano_serialization.Address.Text.RoundTrip.{IsBech32, new_address-to_string}
use go_cardano_serialization.Bip32.Arithmetic.{KeyError}
use go_cardano_serialization.Bip32.Keys.{KeyLibraries, from_bip39_entropy}
use go_cardano_serialization.Bip32.Keys.Laws.{KeyLaws}
use go_cardano_serialization.Bip32.Keys.Clamped.{IsKey, from_bip39_entropy-IsKey}
use go_cardano_serialization.Bip32.Keys.Derived.{pk_bytes}
use go_cardano_serialization.Bip32.Keys.Public.{public-parts, public_key-parts}
use go_cardano_serialization.Bip32.Keys.Reached.{derive-IsKey}
use go_cardano_serialization.Crypto.{HashLibraries, blake2b224, public_key_hash}
use go_cardano_serialization.Crypto.Sizes.{to_array-full}
use go_cardano_serialization.Network.{NetworkInfo}
use go_cardano_serialization.Wallet.{
  harden, derive_all, account_key, create_root_key, key_hash, key_credential, generate_base_address,
  restore_base_address, generate_enterprise,
}

pub record HashLaws (hashes : HashLibraries) : Type 0 where
  pub blake2b_bytes :
      (size : ℕ) (s : List ℕ)
      → (length (hashes.blake2b size s) ≡ size) × All IsByte (hashes.blake2b size s)

module _ (keys : KeyLibraries) (laws : KeyLaws keys) where
  derive_all-IsKey :
      (path : List ℕ) (depth deepest : ℕ) (key : List ℕ)
      → IsKey depth key
      → depth + length path ≡ deepest
      → deepest ≤ 2 ^ 26
      → (child : List ℕ) × (derive_all keys key path ≡ ok child) × IsKey deepest child
  unfolding derive_all
  derive_all-IsKey [] depth deepest key k e small =
      (key, refl, subst (λ (n : ℕ). IsKey n key) {x = depth} {y = deepest} (omega arith) k)
  derive_all-IsKey (index ∷ path) depth deepest key k e small =
      let (child, there, k') = derive-IsKey keys laws depth key index k (omega arith) in
      let (last, there', k'') =
        derive_all-IsKey path (suc depth) deepest child k' (omega arith) small in
      (last, rw there there', k'')

  -- The keys that the programs derive from a root key
  pub record WalletKeys (root : List ℕ) : Type 0 where
    pub account : List ℕ
    pub utxo : List ℕ
    pub stake : List ℕ
    pub account_derived : account_key keys root ≡ ok account
    pub utxo_derived : derive_all keys account (0 ∷ 0 ∷ []) ≡ ok utxo
    pub stake_derived : derive_all keys account (2 ∷ 0 ∷ []) ≡ ok stake
    pub account_IsKey : IsKey 3 account
    pub utxo_IsKey : IsKey 5 utxo
    pub stake_IsKey : IsKey 5 stake

  pub wallet_keys : (root : List ℕ) → IsKey 0 root → WalletKeys root
  unfolding account_key
  wallet_keys root k =
      let (account, there, a) =
        derive_all-IsKey (harden 1852 ∷ harden 1815 ∷ harden 0 ∷ []) 0 3 root k refl
          (omega arith) in
      let (utxo, there', u) = derive_all-IsKey (0 ∷ 0 ∷ []) 3 5 account a refl (omega arith) in
      let (stake, there'', s) = derive_all-IsKey (2 ∷ 0 ∷ []) 3 5 account a refl (omega arith) in
      record {
        account = account;
        utxo = utxo;
        stake = stake;
        account_derived = there;
        utxo_derived = there';
        stake_derived = there'';
        account_IsKey = a;
        utxo_IsKey = u;
        stake_IsKey = s;
      }

  module _ (hashes : HashLibraries) (hash_laws : HashLaws hashes) where
    -- The hash of a key's public key, which the key's address holds
    abbrev pub hash_of : List ℕ → List ℕ
    hash_of prv = public_key_hash hashes (pk_bytes keys prv)

    pub key_hash-hash_of :
        (prv : List ℕ) → length prv ≡ 96 → key_hash keys hashes prv ≡ ok (hash_of prv)
    unfolding key_hash
    key_hash-hash_of prv size =
        rw (public-parts keys laws prv size) (rw (public_key-parts keys laws prv) refl)

    public_key_hash-bytes :
        (pk : List ℕ)
        → (length (public_key_hash hashes pk) ≡ 28) × All IsByte (public_key_hash hashes pk)
    unfolding public_key_hash blake2b224
    public_key_hash-bytes pk =
        let law = hash_laws.blake2b_bytes 28 pk in
        let whole = to_array-full 28 (hashes.blake2b 28 pk) law.0 in
        (ap length whole ∙ law.0, subst (All IsByte) (sym whole) law.1)

    key_credential-IsCredential : (prv : List ℕ) → IsCredential (key_credential (hash_of prv))
    key_credential-IsCredential prv = record {
      kind_small = omega arith;
      hash_size = (public_key_hash-bytes (pk_bytes keys prv)).0;
    }

    -- The base address of two keys
    abbrev pub address_of : NetworkInfo → List ℕ → List ℕ → BaseAddress
    address_of net utxo stake = record {
      network = net;
      payment = key_credential (hash_of utxo);
      stake = key_credential (hash_of stake);
    }

    pub address_of-IsBech32 :
        (net : NetworkInfo) (utxo stake : List ℕ)
        → IsNetwork net
        → IsBech32 (base (address_of net utxo stake))
    address_of-IsBech32 net utxo stake n = (
      (n, key_credential-IsCredential utxo, key_credential-IsCredential stake),
      (public_key_hash-bytes (pk_bytes keys utxo)).1,
      (public_key_hash-bytes (pk_bytes keys stake)).1,
    )

    pub generate_base_address-address_of :
        (net : NetworkInfo) (root : List ℕ) (w : WalletKeys root)
        → generate_base_address keys hashes net root ≡ ok (address_of net w.utxo w.stake, w.utxo)
    unfolding generate_base_address new_base_address
    generate_base_address-address_of net root w =
        rw (w.account_derived, generate_base_address)
          (rw w.utxo_derived (
            rw (key_hash-hash_of w.utxo w.utxo_IsKey.size)
              (rw w.stake_derived (rw (key_hash-hash_of w.stake w.stake_IsKey.size) refl))))

    pub restore_base_address-address_of :
        (net : NetworkInfo) (entropy root : List ℕ) (w : WalletKeys root)
        → from_bip39_entropy keys entropy [] ≡ ok root
        → restore_base_address keys hashes net entropy ≡ ok (address_of net w.utxo w.stake)
    unfolding restore_base_address new_base_address
    restore_base_address-address_of net entropy root w made =
        rw (made, restore_base_address)
          (rw w.account_derived (
            rw w.utxo_derived (
              rw (key_hash-hash_of w.utxo w.utxo_IsKey.size)
                (rw w.stake_derived (rw (key_hash-hash_of w.stake w.stake_IsKey.size) refl)))))

    pub generate_enterprise-address_of :
        (net : NetworkInfo) (entropy root : List ℕ) (w : WalletKeys root)
        → from_bip39_entropy keys entropy [] ≡ ok root
        → generate_enterprise keys hashes net entropy
          ≡ ok (to_enterprise (address_of net w.utxo w.stake))
    unfolding generate_enterprise new_enterprise_address to_enterprise
    generate_enterprise-address_of net entropy root w made =
        rw (made, generate_enterprise)
          (rw w.account_derived
            (rw w.utxo_derived (rw (key_hash-hash_of w.utxo w.utxo_IsKey.size) refl)))

    -- From any entropy and for either network, restore makes a base address and the enterprise
    -- address of the same payment key, txbuilder makes the same base address, and NewAddress
    -- reads both addresses back from their texts. The hashes and the curve must keep their laws.
    pub restore_base_address-reads_back :
        (lib : TextLibraries) (spare : List ℕ) (net : NetworkInfo) (entropy : List ℕ)
        → IsNetwork net
        → (b : BaseAddress) × (restore_base_address keys hashes net entropy ≡ ok b)
          × (generate_enterprise keys hashes net entropy ≡ ok (to_enterprise b))
          × ((prv : List ℕ) × ((create_root_key keys (some entropy)
                  >>= generate_base_address keys hashes net)
                ≡ ok (b, prv)))
          × ((s : List ℕ) × (to_string lib (base b) ≡ ok s)
              × (new_address lib s spare ≡ ok (base b)))
          × ((s : List ℕ) × (to_string lib (enterprise (to_enterprise b)) ≡ ok s)
              × (new_address lib s spare ≡ ok (enterprise (to_enterprise b))))
    unfolding create_root_key to_enterprise new_enterprise_address
    restore_base_address-reads_back lib spare net entropy n =
        let (root, made, k) = from_bip39_entropy-IsKey keys laws entropy [] in
        let w = wallet_keys root k in
        let b = address_of net w.utxo w.stake in
        let (v, p, q) = address_of-IsBech32 net w.utxo w.stake n in
        (
          b,
          restore_base_address-address_of net entropy root w made,
          generate_enterprise-address_of net entropy root w made,
          (w.utxo, rw made (generate_base_address-address_of net root w)),
          new_address-to_string lib spare (base b) (v, p, q),
          new_address-to_string lib spare (enterprise (to_enterprise b)) ((n, v.1), p),
        )

    abbrev Generated : Type 0
    Generated = Result KeyError (BaseAddress × List ℕ)

    generated-injective : {a b : BaseAddress × List ℕ} → ◌≡◌ {A = Generated} (ok a) (ok b) → a ≡ b
    generated-injective e = cc

    from_entropy-owner :
        (net : NetworkInfo) (entropy : List ℕ) (b : BaseAddress) (prv : List ℕ)
        → (from_bip39_entropy keys entropy [] >>= generate_base_address keys hashes net)
          ≡ ok (b, prv)
        → IsKey 5 prv × (b.payment.payload ≡ hash_of prv)
    from_entropy-owner net entropy b prv made =
        let (root, rooted, k) = from_bip39_entropy-IsKey keys laws entropy [] in
        let w = wallet_keys root k in
        let same : (address_of net w.utxo w.stake, w.utxo) ≡ (b, prv) = generated-injective (
          sym (generate_base_address-address_of net root w)
          ∙ sym (ap (λ r. r >>= generate_base_address keys hashes net) rooted)
          ∙ made) in
        subst (λ (p : BaseAddress × List ℕ). IsKey 5 p.1 × (p.0.payment.payload ≡ hash_of p.1)) same
          (w.utxo_IsKey, refl)

    -- The key that comes with a generated address is the one whose hash the address holds.
    pub generate_base_address-owner :
        (net : NetworkInfo) (entropy : Option (List ℕ)) (b : BaseAddress) (prv : List ℕ)
        → (create_root_key keys entropy >>= generate_base_address keys hashes net) ≡ ok (b, prv)
        → IsKey 5 prv × (b.payment.payload ≡ hash_of prv)
    unfolding create_root_key
    generate_base_address-owner net none = from_entropy-owner net []
    generate_base_address-owner net (some entropy) = from_entropy-owner net entropy
