-- ===== src/Bip32/Keys/Laws.antt =====
-- What bip32/bip32.go relies on in the hashes, in pbkdf2 and in edwards25519.
use go_cardano_serialization.Base.{ℕ, ◌+◌, ◌*◌, ◌%◌, ◌^◌, ◌<◌, ◌≡◌, List, length, All, IsByte}
use go_cardano_serialization.Bip32.Arithmetic.Sums.{number}
use go_cardano_serialization.Bip32.Keys.{KeyLibraries}

-- The sizes of the results, one encoding for each point, scalars as little-endian numbers below the order of the base point
-- (which needs a scalar below 2 ^ 255), and the laws of multiples in a group.
pub record KeyLaws (lib : KeyLibraries) : Type 1 where
  pub sum512_bytes : (s : List ℕ) → (length (lib.sum512 s) ≡ 64) × All IsByte (lib.sum512 s)
  pub sum256_bytes : (s : List ℕ) → (length (lib.sum256 s) ≡ 32) × All IsByte (lib.sum256 s)
  pub hmac_bytes :
      (k s : List ℕ) → (length (lib.hmac_sha512 k s) ≡ 64) × All IsByte (lib.hmac_sha512 k s)
  pub pbkdf2_bytes :
      (password salt : List ℕ) (iter size : ℕ)
      → (length (lib.pbkdf2_key password salt iter size) ≡ size)
        × All IsByte (lib.pbkdf2_key password salt iter size)
  pub to_bytes_size : (p : lib.Point) → length (lib.to_bytes p) ≡ 32
  pub to_bytes_injective : (p q : lib.Point) → lib.to_bytes p ≡ lib.to_bytes q → p ≡ q
  pub order : ℕ
  pub order_small : order < 2 ^ 255
  pub sc_reduce_number :
      (s : List ℕ)
      → (number (lib.sc_reduce s) ≡ number s % order) × (number (lib.sc_reduce s) < order)
  pub sc_mul_add_number :
      (a b c : List ℕ)
      → (number (lib.sc_mul_add a b c) ≡ (number a * number b + number c) % order)
        × (length (lib.sc_mul_add a b c) ≡ 32)
  pub base_point : lib.Point
  pub add : lib.Point → lib.Point → lib.Point
  pub scale : ℕ → lib.Point → lib.Point
  pub scale_add : (m n : ℕ) (p : lib.Point) → scale (m + n) p ≡ add (scale m p) (scale n p)
  pub scale_mul : (m n : ℕ) (p : lib.Point) → scale (m * n) p ≡ scale m (scale n p)
  pub scale_order : (n : ℕ) → scale (n % order) base_point ≡ scale n base_point
  pub mult_base :
      (s : List ℕ) → number s < 2 ^ 255 → lib.ge_scalar_mult_base s ≡ scale (number s) base_point
