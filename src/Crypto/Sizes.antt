-- ===== src/Crypto/Sizes.antt =====
-- The conversions of crypto/crypto.go by the kind of what they make.
use go_cardano_serialization.Base.{
  ℕ, ◌≡◌, ◌≢◌, refl, sym, ap, ◌∙◌, arith, List, [], ◌∷◌, length, take, replicate, Result, ok, err,
  length-replicate, suc, zero,
}
use go_cardano_serialization.Address.Bytes.{copy}
use go_cardano_serialization.Address.Parse.Header.{copy_full}
use go_cardano_serialization.Crypto.{
  ConversionError, unexpected_bytes, ed25519_key_hash_len, ed25519_key_hash_from_bytes,
  script_hash_len, script_hash_from_bytes, transaction_hash_len, transaction_hash_from_bytes,
  genesis_delegate_hash_len, genesis_delegate_hash_from_bytes, genesis_hash_len,
  genesis_hash_from_bytes, metadata_hash_len, metadata_hash_from_bytes, vrf_key_hash_len,
  vrf_key_hash_from_bytes, block_hash_len, block_hash_from_bytes, vrf_vkey_len, vrf_vkey_from_bytes,
  kes_vkey_len, kes_vkey_from_bytes,
}

-- The array types of the file.
pub data Kind : Type 0 where
  ed25519_key_hash : Kind
  script_hash : Kind
  transaction_hash : Kind
  genesis_delegate_hash : Kind
  genesis_hash : Kind
  metadata_hash : Kind
  vrf_key_hash : Kind
  block_hash : Kind
  vrf_vkey : Kind
  kes_vkey : Kind

-- The size of an array
abbrev pub size : Kind → ℕ
size ed25519_key_hash = ed25519_key_hash_len
size script_hash = script_hash_len
size transaction_hash = transaction_hash_len
size genesis_delegate_hash = genesis_delegate_hash_len
size genesis_hash = genesis_hash_len
size metadata_hash = metadata_hash_len
size vrf_key_hash = vrf_key_hash_len
size block_hash = block_hash_len
size vrf_vkey = vrf_vkey_len
size kes_vkey = kes_vkey_len

-- The conversion to it
abbrev pub from_bytes : Kind → List ℕ → Result ConversionError (List ℕ)
from_bytes ed25519_key_hash = ed25519_key_hash_from_bytes
from_bytes script_hash = script_hash_from_bytes
from_bytes transaction_hash = transaction_hash_from_bytes
from_bytes genesis_delegate_hash = genesis_delegate_hash_from_bytes
from_bytes genesis_hash = genesis_hash_from_bytes
from_bytes metadata_hash = metadata_hash_from_bytes
from_bytes vrf_key_hash = vrf_key_hash_from_bytes
from_bytes block_hash = block_hash_from_bytes
from_bytes vrf_vkey = vrf_vkey_from_bytes
from_bytes kes_vkey = kes_vkey_from_bytes

take-length : (n : ℕ) (xs : List ℕ) → length xs ≡ n → take n xs ≡ xs
take-length zero [] e = refl
take-length zero (x ∷ xs) e = absurd (omega arith)
take-length (suc n) [] e = absurd (omega arith)
take-length (suc n) (x ∷ xs) e = ap (◌∷◌ x) (take-length n xs (omega arith))

pub to_array-full : (n : ℕ) (xs : List ℕ) → length xs ≡ n → copy (replicate n 0) (take n xs) ≡ xs
to_array-full n xs e =
    ap (copy (replicate n 0)) (take-length n xs e)
    ∙ copy_full (replicate n 0) xs (e ∙ sym (length-replicate n 0))

-- Each of the ten conversions of crypto.go returns the bytes of a slice of exactly its size, and
-- refuses a slice of any other size.
from_bytes-size :
    (kind : Kind) (bytes : List ℕ)
    → (length bytes ≡ size kind → from_bytes kind bytes ≡ ok bytes)
      × (length bytes ≢ size kind → from_bytes kind bytes ≡ err unexpected_bytes)
unfolding ed25519_key_hash_from_bytes script_hash_from_bytes transaction_hash_from_bytes
    genesis_delegate_hash_from_bytes genesis_hash_from_bytes metadata_hash_from_bytes
    vrf_key_hash_from_bytes block_hash_from_bytes vrf_vkey_from_bytes kes_vkey_from_bytes
from_bytes-size ed25519_key_hash bytes =
    (λ e. ground (arith, to_array-full ed25519_key_hash_len bytes), λ e. ground arith)
from_bytes-size script_hash bytes =
    (λ e. ground (arith, to_array-full script_hash_len bytes), λ e. ground arith)
from_bytes-size transaction_hash bytes =
    (λ e. ground (arith, to_array-full transaction_hash_len bytes), λ e. ground arith)
from_bytes-size genesis_delegate_hash bytes =
    (λ e. ground (arith, to_array-full genesis_delegate_hash_len bytes), λ e. ground arith)
from_bytes-size genesis_hash bytes =
    (λ e. ground (arith, to_array-full genesis_hash_len bytes), λ e. ground arith)
from_bytes-size metadata_hash bytes =
    (λ e. ground (arith, to_array-full metadata_hash_len bytes), λ e. ground arith)
from_bytes-size vrf_key_hash bytes =
    (λ e. ground (arith, to_array-full vrf_key_hash_len bytes), λ e. ground arith)
from_bytes-size block_hash bytes =
    (λ e. ground (arith, to_array-full block_hash_len bytes), λ e. ground arith)
from_bytes-size vrf_vkey bytes =
    (λ e. ground (arith, to_array-full vrf_vkey_len bytes), λ e. ground arith)
from_bytes-size kes_vkey bytes =
    (λ e. ground (arith, to_array-full kes_vkey_len bytes), λ e. ground arith)
