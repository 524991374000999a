-- ===== src/Bip32/Arithmetic.antt =====
-- `add28mul8` and `add256bits` of bip32/bip32.go: additions of little-endian byte strings that
-- carry in a uint16. Indexing past the end of an argument panics.
pub mod Sums
use go_cardano_serialization.Base.{
  ℕ, zero, suc, ◌+◌, ◌*◌, List, [], ◌∷◌, bit_and, ◌<<<◌, ◌>>>◌, u8, u16, Result, ok, panic, ◌>>=◌,
}

pub data KeyError : Type 0 where
  seed_length : KeyError

-- `for i := 28; i < 32; i++`, with `left` rounds to go
unfoldable pub carry_loop : ℕ → List ℕ → ℕ → Result KeyError (List ℕ)
carry_loop zero xs carry = ok []
carry_loop (suc left) [] carry = panic
carry_loop (suc left) (x ∷ xs) carry =
    let r = u16 (x + carry) in
    carry_loop left xs (r >>> 8) >>= λ out. ok (u8 (bit_and r 0xff) ∷ out)

-- `for i := 0; i < 28; i++`, and the second loop after it
unfoldable pub mul8_loop : ℕ → List ℕ → List ℕ → ℕ → Result KeyError (List ℕ)
mul8_loop zero xs ys carry = carry_loop 4 xs carry
mul8_loop (suc left) [] ys carry = panic
mul8_loop (suc left) (x ∷ xs) [] carry = panic
mul8_loop (suc left) (x ∷ xs) (y ∷ ys) carry =
    let r = u16 (x + u16 (y <<< 3) + carry) in
    mul8_loop left xs ys (r >>> 8) >>= λ out. ok (u8 (bit_and r 0xff) ∷ out)

unfoldable pub add28mul8 : List ℕ → List ℕ → Result KeyError (List ℕ)
add28mul8 xs ys = mul8_loop 28 xs ys 0

-- `for i := 0; i < 32; i++`
unfoldable pub add_loop : ℕ → List ℕ → List ℕ → ℕ → Result KeyError (List ℕ)
add_loop zero xs ys carry = ok []
add_loop (suc left) [] ys carry = panic
add_loop (suc left) (x ∷ xs) [] carry = panic
add_loop (suc left) (x ∷ xs) (y ∷ ys) carry =
    let r = u16 (x + y + carry) in
    add_loop left xs ys (r >>> 8) >>= λ out. ok (u8 (bit_and r 0xff) ∷ out)

unfoldable pub add256bits : List ℕ → List ℕ → Result KeyError (List ℕ)
add256bits xs ys = add_loop 32 xs ys 0
