-- ===== src/Bip32/Keys.antt =====
-- The keys of bip32/bip32.go. The hashes, pbkdf2 and the curve are parameters. The capacity of a
-- key's slice is taken to be its length, so slicing a shorter key panics.
pub mod Laws
pub mod Clamped
pub mod Derived
pub mod Reached
pub mod Public
use go_cardano_serialization.Base.{
  ℕ, zero, suc, ◌+◌, ◌-◌, ◌*◌, ◌≡◌, Bool, List, [], ◌∷◌, ◌++◌, length, take, drop, leb, ◌==◌,
  if◌then◌else◌, bit_and, bit_or, ◌>>>◌, u8, Result, ok, panic, ◌>>=◌, ◌>>◌, guard, in_range,
}
use go_cardano_serialization.Bip32.Arithmetic.{KeyError, seed_length, add28mul8, add256bits}

-- What the file calls: `sha512.Sum512`, `sha256.Sum256`, HMAC-SHA-512 of a key and of what was
-- written, `pbkdf2.Key` of a password, a salt, a count and a size, and the package edwards25519.
pub record KeyLibraries : Type 1 where
  pub Point : Type 0
  pub sum512 : List ℕ → List ℕ
  pub sum256 : List ℕ → List ℕ
  pub hmac_sha512 : List ℕ → List ℕ → List ℕ
  pub pbkdf2_key : List ℕ → List ℕ → ℕ → ℕ → List ℕ
  pub ge_scalar_mult_base : List ℕ → Point
  pub to_bytes : Point → List ℕ
  pub sc_reduce : List ℕ → List ℕ
  pub sc_mul_add : List ℕ → List ℕ → List ℕ → List ℕ

-- `s[lo:hi]`
unfoldable pub slice : List ℕ → ℕ → ℕ → Result KeyError (List ℕ)
slice s lo hi = do in_range (leb hi (length s)); ok (take (hi - lo) (drop lo s))

-- `s[lo:]`
unfoldable pub slice_from : List ℕ → ℕ → Result KeyError (List ℕ)
slice_from s lo = do in_range (leb lo (length s)); ok (drop lo s)

-- An assignment to `s[i]` from its old value
unfoldable pub modify : List ℕ → ℕ → (ℕ → ℕ) → Result KeyError (List ℕ)
modify [] i f = panic
modify (x ∷ xs) zero f = ok (f x ∷ xs)
modify (x ∷ xs) (suc i) f = modify xs i f >>= λ ys. ok (x ∷ ys)

-- The argument is changed in place, and is the result.
unfoldable pub normalize_bytes_force3rd : List ℕ → Result KeyError (List ℕ)
normalize_bytes_force3rd bytes = do
  first ← modify bytes 0 (λ b. bit_and b 0b1111_1000)
  cleared ← modify first 31 (λ b. bit_and b 0b0001_1111)
  modify cleared 31 (λ b. bit_or b 0b0100_0000)

unfoldable pub is_hardened : ℕ → Bool
is_hardened index = leb 0x80000000 index

-- `binary.LittleEndian.PutUint32`
unfoldable pub put_uint32 : ℕ → List ℕ
put_uint32 v = u8 v ∷ u8 (v >>> 8) ∷ u8 (v >>> 16) ∷ u8 (v >>> 24) ∷ []

unfoldable pub extended_private_key : List ℕ → Result KeyError (List ℕ)
extended_private_key key = slice key 0 64

unfoldable pub chain_code : List ℕ → Result KeyError (List ℕ)
chain_code key = slice_from key 64

-- `PublicKey` and `ChainCode` of an `XPub`
unfoldable pub public_key : List ℕ → Result KeyError (List ℕ)
public_key xpub = slice xpub 0 32

unfoldable pub public_chain_code : List ℕ → Result KeyError (List ℕ)
public_chain_code xpub = slice_from xpub 32

module _ (lib : KeyLibraries) where
  open lib use {sum512, sum256, hmac_sha512, pbkdf2_key, ge_scalar_mult_base, to_bytes}

  unfoldable pub new_xprv : List ℕ → Result KeyError (List ℕ)
  new_xprv seed = do
    guard (length seed == 32) seed_length
    first ← modify (sum512 seed) 0 (λ b. bit_and b 0b1111_1000)
    cleared ← modify first 31 (λ b. bit_and b 0b0101_1111)
    extended ← modify cleared 31 (λ b. bit_or b 0b0100_0000)
    ok (extended ++ sum256 (0x01 ∷ seed))

  unfoldable pub from_bip39_entropy : List ℕ → List ℕ → Result KeyError (List ℕ)
  from_bip39_entropy entropy password =
      normalize_bytes_force3rd (pbkdf2_key password entropy 4096 96)

  unfoldable pub make_public_key : List ℕ → Result KeyError (List ℕ)
  make_public_key extended_secret = do
    key ← slice extended_secret 0 32
    ok (to_bytes (ge_scalar_mult_base key))

  -- What `zmac` and `imac` sum up to.
  unfoldable pub derive_macs : List ℕ → ℕ → Result KeyError (List ℕ × List ℕ)
  derive_macs key index = do
    chain ← chain_code key
    extended ← extended_private_key key
    let serialized = put_uint32 index
    let hard = ok (
      hmac_sha512 chain (0x00 ∷ (extended ++ serialized)),
      hmac_sha512 chain (0x01 ∷ (extended ++ serialized)),
    )
    let soft = make_public_key extended >>= λ pk. ok (
      hmac_sha512 chain (0x02 ∷ (pk ++ serialized)),
      hmac_sha512 chain (0x03 ∷ (pk ++ serialized)),
    )
    if is_hardened index then hard else soft

  unfoldable pub derive : List ℕ → ℕ → Result KeyError (List ℕ)
  derive key index = do
    (zout, iout) ← derive_macs key index
    key_left ← slice key 0 32
    z_left ← slice zout 0 32
    left ← add28mul8 key_left z_left
    key_right ← slice key 32 64
    z_right ← slice zout 32 64
    right ← add256bits key_right z_right
    chain ← slice_from iout 32
    ok (left ++ (right ++ chain))

  unfoldable pub public : List ℕ → Result KeyError (List ℕ)
  public key = do
    extended ← extended_private_key key
    pk ← make_public_key extended
    chain ← chain_code key
    ok (pk ++ chain)

  -- The unexported `publicKey` of a private key
  unfoldable pub own_public_key : List ℕ → Result KeyError (List ℕ)
  own_public_key key = extended_private_key key >>= make_public_key
