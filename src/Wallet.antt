-- ===== src/Wallet.antt =====
-- The wallet of examples/address/generate, examples/address/restore and
-- examples/transactions/txbuilder: keys and addresses from a mnemonic, and a payment from one of
-- them. bip39 is a parameter; flags, logging and exits of the programs are left out.
pub mod Addresses
pub mod Payment
pub mod Programs
mod Examples
mod Witnesses
use go_cardano_serialization.Base.{
  ℕ, ◌+◌, List, [], ◌∷◌, Option, none, some, u32, Result, ok, err, panic, ◌>>=◌, ltb, if◌then◌else◌,
}
use go_cardano_serialization.Address.Types.{
  StakeCredential, key_stake_credential_type, new_key_stake_credential, BaseAddress,
  EnterpriseAddress, new_base_address, new_enterprise_address,
}
use go_cardano_serialization.Bech32.Text.{codes}
use go_cardano_serialization.Bip32.Arithmetic.{KeyError}
use go_cardano_serialization.Bip32.Keys.{
  KeyLibraries, from_bip39_entropy, derive, public, public_key,
}
use go_cardano_serialization.Bip32.Sign.{sign}
use go_cardano_serialization.Crypto.{HashLibraries, public_key_hash}
use go_cardano_serialization.Network.{NetworkInfo, main_net}

unfoldable pub harden : ℕ → ℕ
harden num = u32 (0x80000000 + num)

abbrev key_credential : List ℕ → StakeCredential
key_credential hash = record { kind = key_stake_credential_type; payload = hash }

module _ (keys : KeyLibraries) where
  -- A chain of `Derive` calls
  unfoldable pub derive_all : List ℕ → List ℕ → Result KeyError (List ℕ)
  derive_all key [] = ok key
  derive_all key (index ∷ path) = derive keys key index >>= λ child. derive_all child path

  unfoldable pub account_key : List ℕ → Result KeyError (List ℕ)
  account_key root_key = derive_all root_key (harden 1852 ∷ harden 1815 ∷ harden 0 ∷ [])

  -- `createRootKey`: an error of `EntropyFromMnemonic` leaves no entropy.
  unfoldable pub create_root_key : Option (List ℕ) → Result KeyError (List ℕ)
  create_root_key none = from_bip39_entropy keys [] []
  create_root_key (some entropy) = from_bip39_entropy keys entropy []

module _ (keys : KeyLibraries) (hashes : HashLibraries) where
  -- `Public().PublicKey().Hash()`
  unfoldable pub key_hash : List ℕ → Result KeyError (List ℕ)
  key_hash prv = do xpub ← public keys prv; pk ← public_key xpub; ok (public_key_hash hashes pk)

  -- `generateBaseAddress` of txbuilder, which returns the key of the payment part too
  unfoldable pub generate_base_address :
      NetworkInfo → List ℕ → Result KeyError (BaseAddress × List ℕ)
  generate_base_address net root_key = do
    account ← account_key keys root_key
    utxo_prv_key ← derive_all keys account (0 ∷ 0 ∷ [])
    utxo_pub_key_hash ← key_hash utxo_prv_key
    stake_key ← derive_all keys account (2 ∷ 0 ∷ [])
    stake_key_hash ← key_hash stake_key
    ok (
      new_base_address net (key_credential utxo_pub_key_hash) (key_credential stake_key_hash),
      utxo_prv_key,
    )

  -- `generateBaseAddress` and `generateEnterprise` of restore
  unfoldable pub restore_base_address : NetworkInfo → List ℕ → Result KeyError BaseAddress
  restore_base_address net entropy = do
    root_key ← from_bip39_entropy keys entropy []
    account ← account_key keys root_key
    utxo_key ← derive_all keys account (0 ∷ 0 ∷ [])
    utxo_pub_key_hash ← key_hash utxo_key
    stake_key ← derive_all keys account (2 ∷ 0 ∷ [])
    stake_key_hash ← key_hash stake_key
    ok (new_base_address net (key_credential utxo_pub_key_hash) (key_credential stake_key_hash))

  unfoldable pub generate_enterprise : NetworkInfo → List ℕ → Result KeyError EnterpriseAddress
  generate_enterprise net entropy = do
    root_key ← from_bip39_entropy keys entropy []
    account ← account_key keys root_key
    utxo_key ← derive_all keys account (0 ∷ 0 ∷ [])
    utxo_pub_key_hash ← key_hash utxo_key
    ok (new_enterprise_address net (new_key_stake_credential utxo_pub_key_hash))

  -- `main` of generate, from its entropy: the address and the signature that it prints
  unfoldable pub generate : List ℕ → Result KeyError (BaseAddress × List ℕ)
  generate entropy = do
    root_key ← from_bip39_entropy keys entropy []
    account ← account_key keys root_key
    utxo_key ← derive_all keys account (0 ∷ 0 ∷ [])
    utxo_pub_key_hash ← key_hash utxo_key
    stake_key ← derive_all keys account (2 ∷ 0 ∷ [])
    stake_key_hash ← key_hash stake_key
    signature ← sign keys account (codes "Hello There")
    ok (
      new_base_address main_net (key_credential utxo_pub_key_hash) (key_credential stake_key_hash),
      signature,
    )
