-- ===== src/Base/Bits.antt =====
-- `&`, `|` and `^` of Go on natural numbers: one equation for the lowest digit of each, and
-- what they do to a number that is split at bit k.
pub mod Fields
pub mod Xor
pub mod Table
use Prim.Native.Nat.{ℕ, zero, suc, ◌+◌, ◌*◌, ◌/◌, ◌%◌, ◌^◌, ◌≤◌, ◌<◌, min, max, differ}
use Prim.Native.Nat.{bit_and, bit_or, bit_xor, digits, bitwise}
use Prim.Native.Nat.{bit_and-bitwise, bit_or-bitwise, bit_xor-bitwise}
use mathlib.Core.Path.{◌≡◌, refl, ap}
use native.Mathlib.Nat.{pow-suc, le_refl}
use native.Mathlib.Omega.{arith}

-- The digit recursion has fuel; any amount from the left number on gives the same result.
module _ (empty : ℕ → ℕ) (digit : ℕ → ℕ → ℕ) where
  enough_fuel :
      (x y fuel more : ℕ)
      → x ≤ fuel
      → x ≤ more
      → digits empty digit fuel x y ≡ digits empty digit more x y
  enough_fuel zero y zero zero small small' = refl
  enough_fuel zero y zero (suc more) small small' = refl
  enough_fuel zero y (suc fuel) zero small small' = refl
  enough_fuel zero y (suc fuel) (suc more) small small' = refl
  enough_fuel (suc x) y zero more small small' = absurd (omega arith)
  enough_fuel (suc x) y (suc fuel) zero small small' = absurd (omega arith)
  enough_fuel (suc x) y (suc fuel) (suc more) small small' =
      rw (enough_fuel (suc x / 2) (y / 2) fuel more (omega arith) (omega arith))

  lowest_digit :
      (x y : ℕ)
      → bitwise empty digit (suc x) y
        ≡ bitwise empty digit (suc x / 2) (y / 2) * 2 + digit (suc x % 2) (y % 2)
  lowest_digit x y =
      let half = suc x / 2 in
      omega (arith, enough_fuel half (y / 2) x half (omega arith) (le_refl _))

pub bit_and_step : (x y : ℕ) → bit_and x y ≡ bit_and (x / 2) (y / 2) * 2 + min (x % 2) (y % 2)
bit_and_step zero y = simp bit_and-bitwise (omega arith)
bit_and_step (suc x) y = simp bit_and-bitwise (lowest_digit (λ d. 0) min x y)

pub bit_or_step : (x y : ℕ) → bit_or x y ≡ bit_or (x / 2) (y / 2) * 2 + max (x % 2) (y % 2)
bit_or_step zero y = simp bit_or-bitwise (omega arith)
bit_or_step (suc x) y = simp bit_or-bitwise (lowest_digit (λ d. d) max x y)

differ-bits : (a b : ℕ) → a < 2 → b < 2 → differ a b ≡ (a + b) % 2
differ-bits zero b p q = omega arith
differ-bits (suc a) zero p q = omega arith
differ-bits (suc zero) (suc zero) p q = refl
differ-bits (suc zero) (suc (suc b)) p q = absurd (omega arith)
differ-bits (suc (suc a)) (suc b) p q = absurd (omega arith)

pub bit_xor_step : (x y : ℕ) → bit_xor x y ≡ bit_xor (x / 2) (y / 2) * 2 + (x % 2 + y % 2) % 2
bit_xor_step zero y = simp bit_xor-bitwise (omega arith)
bit_xor_step (suc x) y = simp bit_xor-bitwise (
    omega (
      arith,
      lowest_digit (λ d. d) differ x y,
      differ-bits (suc x % 2) (y % 2) (omega arith) (omega arith),
    ))
