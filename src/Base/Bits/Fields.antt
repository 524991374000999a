-- ===== src/Base/Bits/Fields.antt =====
-- Numbers split at bit k: `|` of disjoint parts is a sum, `&` with a mask of low ones is a
-- remainder, and `^` works on the two parts apart.
use Prim.Native.Nat.{ℕ, zero, suc, ◌+◌, ◌-◌, ◌*◌, ◌/◌, ◌%◌, ◌^◌, ◌≤◌, ◌<◌}
use Prim.Native.Nat.{bit_and, bit_or, bit_xor}
use mathlib.Core.Path.{◌≡◌, refl, ap}
use native.Mathlib.Nat.{pow-suc, one-le-pow}
use native.Mathlib.Omega.{arith}
use go_cardano_serialization.Base.Bits.{bit_and_step, bit_or_step, bit_xor_step}

-- Induction from `a / 2` to `a`, on a bound for `a`.
right_zero : (n a : ℕ) → a ≤ n → (bit_or a 0 ≡ a) × (bit_xor a 0 ≡ a) × (bit_and a 0 ≡ 0)
right_zero n zero h = (refl, refl, refl)
right_zero zero (suc a) h = absurd (omega arith)
right_zero (suc n) (suc a) h =
    let ih = right_zero n (suc a / 2) (omega arith) in
    (
      omega (arith, bit_or_step (suc a) 0, ih.0),
      omega (arith, bit_xor_step (suc a) 0, ih.1),
      omega (arith, bit_and_step (suc a) 0, ih.2),
    )

pub bit_or-zero : (a : ℕ) → bit_or a 0 ≡ a
bit_or-zero a = (right_zero a a (omega arith)).0

pub bit_xor-zero : (a : ℕ) → bit_xor a 0 ≡ a
bit_xor-zero a = (right_zero a a (omega arith)).1

pub bit_and-zero : (a : ℕ) → bit_and a 0 ≡ 0
bit_and-zero a = (right_zero a a (omega arith)).2

-- The lowest digit of a number that is shifted by one place more.
shifted : (q k : ℕ) → q * 2 ^ suc k ≡ 2 * (q * 2 ^ k)
shifted q k = omega (arith, ap (λ (t : ℕ). q * t) (pow-suc 2 k))

pub bit_or_split : (k q r : ℕ) → r < 2 ^ k → bit_or (q * 2 ^ k) r ≡ q * 2 ^ k + r
bit_or_split zero q r h = ground (arith, bit_or-zero q)
bit_or_split (suc k) q r h =
    ground
      (arith, bit_or_step (q * 2 ^ suc k) r, shifted q k, bit_or_split k q (r / 2) (omega arith))

bit_and_split : (k q r : ℕ) → r < 2 ^ k → bit_and (q * 2 ^ k + r) (2 ^ k - 1) ≡ r
bit_and_split zero q r h = ground (arith, bit_and-zero (q * 1 + r))
bit_and_split (suc k) q r h = ground (
  arith,
  bit_and_step (q * 2 ^ suc k + r) (2 ^ suc k - 1),
  shifted q k,
  pow-suc 2 k,
  bit_and_split k q (r / 2) (omega arith),
)

-- A mask of k low ones is the remainder by 2 ^ k.
pub bit_and_mask : (k a : ℕ) → bit_and a (2 ^ k - 1) ≡ a % 2 ^ k
bit_and_mask k a = ground (arith, one-le-pow k 2, bit_and_split k (a / 2 ^ k) (a % 2 ^ k))

pub bit_xor_split :
    (k q r p s : ℕ)
    → r < 2 ^ k
    → s < 2 ^ k
    → bit_xor (q * 2 ^ k + r) (p * 2 ^ k + s) ≡ bit_xor q p * 2 ^ k + bit_xor r s
bit_xor_split zero q r p s h g = ground (arith, bit_xor-zero 0)
bit_xor_split (suc k) q r p s h g = ground (
  arith,
  bit_xor_step (q * 2 ^ suc k + r) (p * 2 ^ suc k + s),
  bit_xor_step r s,
  shifted q k,
  shifted p k,
  shifted (bit_xor q p) k,
  bit_xor_split k q (r / 2) p (s / 2) (omega arith) (omega arith),
)

pub bit_xor-lt : (k a b : ℕ) → a < 2 ^ k → b < 2 ^ k → bit_xor a b < 2 ^ k
bit_xor-lt zero a b h g = ground (arith, bit_xor-zero 0)
bit_xor-lt (suc k) a b h g =
    omega (arith, bit_xor_step a b, bit_xor-lt k (a / 2) (b / 2) (omega arith) (omega arith))
