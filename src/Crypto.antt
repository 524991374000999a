-- ===== src/Crypto.antt =====
-- crypto/crypto.go: hashes and keys as arrays of fixed sizes, made from slices of exactly that
-- size. The blake2b of golang.org/x/crypto is a parameter.
pub mod Sizes
mod Examples
use go_cardano_serialization.Base.{
  ℕ, List, length, take, replicate, ◌==◌, if◌then◌else◌, not, Result, ok, err, ◌>>◌, guard,
}
use go_cardano_serialization.Address.Bytes.{copy}

pub data ConversionError : Type 0 where
  unexpected_bytes : ConversionError

abbrev pub ed25519_key_hash_len : ℕ
ed25519_key_hash_len = 28

abbrev pub script_hash_len : ℕ
script_hash_len = 28

abbrev pub transaction_hash_len : ℕ
transaction_hash_len = 32

abbrev pub genesis_delegate_hash_len : ℕ
genesis_delegate_hash_len = 28

abbrev pub genesis_hash_len : ℕ
genesis_hash_len = 28

abbrev pub metadata_hash_len : ℕ
metadata_hash_len = 32

abbrev pub vrf_key_hash_len : ℕ
vrf_key_hash_len = 32

abbrev pub block_hash_len : ℕ
block_hash_len = 32

abbrev pub vrf_vkey_len : ℕ
vrf_vkey_len = 32

abbrev pub kes_vkey_len : ℕ
kes_vkey_len = 32

-- `var res [n]byte; copy(res[:], bytes[:n])`
abbrev to_array : ℕ → List ℕ → List ℕ
to_array n bytes = copy (replicate n 0) (take n bytes)

unfoldable pub ed25519_key_hash_from_bytes : List ℕ → Result ConversionError (List ℕ)
ed25519_key_hash_from_bytes bytes = do
  guard (length bytes == ed25519_key_hash_len) unexpected_bytes
  ok (to_array ed25519_key_hash_len bytes)

unfoldable pub script_hash_from_bytes : List ℕ → Result ConversionError (List ℕ)
script_hash_from_bytes bytes = do
  guard (length bytes == script_hash_len) unexpected_bytes
  ok (to_array script_hash_len bytes)

unfoldable pub transaction_hash_from_bytes : List ℕ → Result ConversionError (List ℕ)
transaction_hash_from_bytes bytes = do
  guard (length bytes == transaction_hash_len) unexpected_bytes
  ok (to_array transaction_hash_len bytes)

unfoldable pub genesis_delegate_hash_from_bytes : List ℕ → Result ConversionError (List ℕ)
genesis_delegate_hash_from_bytes bytes = do
  guard (length bytes == genesis_delegate_hash_len) unexpected_bytes
  ok (to_array genesis_delegate_hash_len bytes)

unfoldable pub genesis_hash_from_bytes : List ℕ → Result ConversionError (List ℕ)
genesis_hash_from_bytes bytes = do
  guard (length bytes == genesis_hash_len) unexpected_bytes
  ok (to_array genesis_hash_len bytes)

unfoldable pub metadata_hash_from_bytes : List ℕ → Result ConversionError (List ℕ)
metadata_hash_from_bytes bytes = do
  guard (length bytes == metadata_hash_len) unexpected_bytes
  ok (to_array metadata_hash_len bytes)

unfoldable pub vrf_key_hash_from_bytes : List ℕ → Result ConversionError (List ℕ)
vrf_key_hash_from_bytes bytes = do
  guard (length bytes == vrf_key_hash_len) unexpected_bytes
  ok (to_array vrf_key_hash_len bytes)

unfoldable pub block_hash_from_bytes : List ℕ → Result ConversionError (List ℕ)
block_hash_from_bytes bytes = do
  guard (length bytes == block_hash_len) unexpected_bytes
  ok (to_array block_hash_len bytes)

unfoldable pub vrf_vkey_from_bytes : List ℕ → Result ConversionError (List ℕ)
vrf_vkey_from_bytes bytes = do
  guard (length bytes == vrf_vkey_len) unexpected_bytes
  ok (to_array vrf_vkey_len bytes)

unfoldable pub kes_vkey_from_bytes : List ℕ → Result ConversionError (List ℕ)
kes_vkey_from_bytes bytes = do
  guard (length bytes == kes_vkey_len) unexpected_bytes
  ok (to_array kes_vkey_len bytes)

-- `blake2b.New(size, nil)` with what is written to it and `Sum(nil)`
pub record HashLibraries : Type 0 where
  pub blake2b : ℕ → List ℕ → List ℕ

module _ (lib : HashLibraries) where
  unfoldable pub blake2b224 : List ℕ → List ℕ
  blake2b224 input = to_array 28 (lib.blake2b 28 input)

  unfoldable pub blake2b256 : List ℕ → List ℕ
  blake2b256 input = to_array 32 (lib.blake2b 32 input)

  -- `Hash` of a `PublicKey` of bip32/bip32.go
  unfoldable pub public_key_hash : List ℕ → List ℕ
  public_key_hash key = blake2b224 key
