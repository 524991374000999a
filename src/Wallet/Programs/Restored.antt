-- ===== src/Wallet/Programs/Restored.antt =====
-- examples/address/restore makes the address again that examples/address/generate printed.
use go_cardano_serialization.Base.{
  ℕ, ◌≡◌, refl, arith, false, List, [], ◌∷◌, ◌++◌, some, length, inr, ok,
}
use go_cardano_serialization.Base.Hex.{encode_to_string}
use go_cardano_serialization.Address.Types.{
  BaseAddress, base, enterprise, to_enterprise, new_base_address, new_enterprise_address,
}
use go_cardano_serialization.Address.Text.{TextLibraries, to_string, new_address}
use go_cardano_serialization.Address.Text.RoundTrip.{new_address-to_string}
use go_cardano_serialization.Bech32.Text.{codes, same_text}
use go_cardano_serialization.Bip32.Keys.{KeyLibraries, from_bip39_entropy}
use go_cardano_serialization.Bip32.Keys.Laws.{KeyLaws}
use go_cardano_serialization.Bip32.Keys.Clamped.{from_bip39_entropy-IsKey}
use go_cardano_serialization.Bip32.Sign.Valid.{sign-IsSignature}
use go_cardano_serialization.Crypto.{HashLibraries}
use go_cardano_serialization.Network.{main_net}
use go_cardano_serialization.Wallet.{generate, restore_base_address, generate_enterprise}
use go_cardano_serialization.Wallet.Addresses.{
  HashLaws, WalletKeys, wallet_keys, address_of, address_of-IsBech32, key_hash-hash_of,
  restore_base_address-address_of, generate_enterprise-address_of,
}
use go_cardano_serialization.Wallet.Programs.{
  MnemonicLibraries, split, Flags, enterprise_type, base_type, check_flags, enterprise_label,
  base_label, Generated, restore_main, generate_main,
}

-- What bip39 promises: 32 bytes of entropy have a mnemonic of 24 words, from which they are read.
pub record MnemonicLaws (words : MnemonicLibraries) : Type 0 where
  pub mnemonic_of :
      (entropy : List ℕ)
      → length entropy ≡ 32
      → (m : List ℕ) × (words.new_mnemonic entropy ≡ some m)
        × (length (split m b' ') ≡ 24)
        × (words.entropy_from_mnemonic m ≡ some entropy)

-- The flags of a run of restore on the main network
abbrev pub main_flags : List ℕ → ℕ → Flags
main_flags m kind = record { mnemonic = m; kind = kind; network = codes "mainnet" }

has_words : (m : List ℕ) → length (split m b' ') ≡ 24 → same_text m [] ≡ false
unfolding split same_text
has_words [] h = absurd (omega (arith, h))
has_words (c ∷ m) h = refl

check_flags_accepts :
    (flags : Flags) → length (split flags.mnemonic b' ') ≡ 24 → check_flags flags ≡ ok tt
unfolding check_flags
check_flags_accepts flags h = rw (has_words flags.mnemonic h, h) refl

module _ (keys : KeyLibraries) (laws : KeyLaws keys) (hashes : HashLibraries)
    (hash_laws : HashLaws hashes) where
  generate-address_of :
      (entropy root : List ℕ) (w : WalletKeys keys laws root)
      → from_bip39_entropy keys entropy [] ≡ ok root
      → (signature : List ℕ) × (generate keys hashes entropy
          ≡ ok (address_of keys laws hashes hash_laws main_net w.utxo w.stake, signature))
  unfolding generate new_base_address
  generate-address_of entropy root w made =
      let account = w.account_IsKey in
      let (signature, point, encoded, signed, valid) =
        sign-IsSignature keys laws w.account (codes "Hello There") (omega (arith, account.size))
          (omega (arith, account.below)) in
      (
        signature,
        rw (made, generate)
            (rw w.account_derived (
              rw w.utxo_derived (
                rw (key_hash-hash_of keys laws hashes hash_laws w.utxo w.utxo_IsKey.size) (
                  rw w.stake_derived (
                    rw (key_hash-hash_of keys laws hashes hash_laws w.stake w.stake_IsKey.size)
                      (rw signed refl)))))),
      )

  module _ (text : TextLibraries) (words : MnemonicLibraries) (word_laws : MnemonicLaws words) where
    restores_base :
        (m entropy s : List ℕ) (b : BaseAddress)
        → length (split m b' ') ≡ 24
        → words.entropy_from_mnemonic m ≡ some entropy
        → restore_base_address keys hashes main_net entropy ≡ ok b
        → to_string text (base b) ≡ ok s
        → restore_main keys hashes text words (main_flags m base_type) ≡ ok (base_label ++ s)
    unfolding restore_main
    restores_base m entropy s b counted known made written =
        rw (check_flags_accepts (main_flags m base_type) counted) (rw (known, made, written) refl)

    restores_enterprise :
        (m entropy s : List ℕ) (b : BaseAddress)
        → length (split m b' ') ≡ 24
        → words.entropy_from_mnemonic m ≡ some entropy
        → generate_enterprise keys hashes main_net entropy ≡ ok (to_enterprise b)
        → to_string text (enterprise (to_enterprise b)) ≡ ok s
        → restore_main keys hashes text words (main_flags m enterprise_type)
          ≡ ok (enterprise_label ++ s)
    unfolding restore_main
    restores_enterprise m entropy s b counted known made written =
        rw (check_flags_accepts (main_flags m enterprise_type) counted)
          (rw (known, made, written) refl)

    -- With 32 bytes of entropy generate prints a mnemonic and an address; restore on that
    -- mnemonic and the main network prints the same base address, and for the other type the
    -- enterprise address of the same payment key; NewAddress reads both. bip39, the hashes and
    -- the curve must keep their laws.
    pub restore_main-generate_main :
        (spare entropy : List ℕ)
        → words.new_entropy 256 ≡ some entropy
        → length entropy ≡ 32
        → (g : Generated) × (generate_main keys hashes text words ≡ ok g)
          × (restore_main keys hashes text words (main_flags g.mnemonic base_type)
              ≡ ok (base_label ++ g.address))
          × (b : BaseAddress) × (new_address text g.address spare ≡ ok (base b))
          × (e : List ℕ) × (restore_main keys hashes text words
                (main_flags g.mnemonic enterprise_type)
              ≡ ok (enterprise_label ++ e))
          × (new_address text e spare ≡ ok (enterprise (to_enterprise b)))
    unfolding generate_main to_enterprise new_enterprise_address
    restore_main-generate_main spare entropy drawn size =
        let (m, named, counted, known) = word_laws.mnemonic_of entropy size in
        let (root, made, k) = from_bip39_entropy-IsKey keys laws entropy [] in
        let w = wallet_keys keys laws root k in
        let b = address_of keys laws hashes hash_laws main_net w.utxo w.stake in
        let (v, p, q) =
          address_of-IsBech32 keys laws hashes hash_laws main_net w.utxo w.stake (inr refl) in
        let (signature, generated) = generate-address_of entropy root w made in
        let (s, written, read) = new_address-to_string text spare (base b) (v, p, q) in
        let (e, written_e, read_e) =
          new_address-to_string text spare (enterprise (to_enterprise b)) ((inr refl, v.1), p) in
        (
          record { mnemonic = m; address = s; signature = encode_to_string signature },
          rw (drawn, named) (rw (generated, written) refl),
          restores_base m entropy s b counted known
              (restore_base_address-address_of keys laws hashes hash_laws main_net entropy root w
                made)
              written,
          b,
          read,
          e,
          restores_enterprise m entropy e b counted known
              (generate_enterprise-address_of keys laws hashes hash_laws main_net entropy root w
                made)
              written_e,
          read_e,
        )
