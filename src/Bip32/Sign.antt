-- ===== src/Bip32/Sign.antt =====
-- `Sign` of bip32/bip32.go: an Ed25519 signature with an extended private key.
pub mod Valid
use go_cardano_serialization.Base.{ℕ, List, ◌++◌, Result, ok, ◌>>=◌}
use go_cardano_serialization.Bip32.Arithmetic.{KeyError}
use go_cardano_serialization.Bip32.Keys.{KeyLibraries, slice, make_public_key}

module _ (lib : KeyLibraries) where
  open lib use {sum512, ge_scalar_mult_base, to_bytes, sc_reduce, sc_mul_add}

  -- The first hash is of the right half of the key and of the message, the second of the
  -- signature so far, whose halves are `r` and the public key, and of the message.
  unfoldable pub sign : List ℕ → List ℕ → Result KeyError (List ℕ)
  sign prv message = do
    public_key ← make_public_key lib prv
    right ← slice prv 32 64
    let nonce = sc_reduce (sum512 (right ++ message))
    let r = to_bytes (ge_scalar_mult_base nonce)
    let hram_reduced = sc_reduce (sum512 ((r ++ public_key) ++ message))
    b ← slice prv 0 32
    let s = sc_mul_add hram_reduced b nonce
    ok (r ++ s)
