-- ===== src/Base/Bits/Xor.antt =====
-- `^` is an abelian group operation in which every number is its own inverse.
use Prim.Native.Nat.{ℕ, zero, suc, ◌+◌, ◌/◌, ◌≤◌, bit_xor}
use mathlib.Core.Path.{◌≡◌, refl, sym, ap, ◌∙◌}
use native.Mathlib.Omega.{arith}
use go_cardano_serialization.Base.Bits.{bit_xor_step}
use go_cardano_serialization.Base.Bits.Fields.{bit_xor-zero}

below : (n a b : ℕ) → a ≤ n → b ≤ n → bit_xor a b ≡ bit_xor b a
below zero zero zero h g = refl
below zero zero (suc b) h g = absurd (omega arith)
below zero (suc a) b h g = absurd (omega arith)
below (suc n) a b h g =
    omega (
      arith,
      bit_xor_step a b,
      bit_xor_step b a,
      below n (a / 2) (b / 2) (omega arith) (omega arith),
    )

pub xor_comm : (a b : ℕ) → bit_xor a b ≡ bit_xor b a
xor_comm a b = below (a + b) a b (omega arith) (omega arith)

self_below : (n a : ℕ) → a ≤ n → bit_xor a a ≡ 0
self_below n zero h = refl
self_below zero (suc a) h = absurd (omega arith)
self_below (suc n) (suc a) h =
    omega (arith, bit_xor_step (suc a) (suc a), self_below n (suc a / 2) (omega arith))

pub xor_self : (a : ℕ) → bit_xor a a ≡ 0
xor_self a = self_below a a (omega arith)

assoc_below :
    (n a b c : ℕ) → a ≤ n → b ≤ n → c ≤ n → bit_xor (bit_xor a b) c ≡ bit_xor a (bit_xor b c)
assoc_below zero zero zero zero h g k = refl
assoc_below zero (suc a) b c h g k = absurd (omega arith)
assoc_below zero zero (suc b) c h g k = absurd (omega arith)
assoc_below zero zero zero (suc c) h g k = absurd (omega arith)
assoc_below (suc n) a b c h g k = omega (
  arith,
  bit_xor_step a b,
  bit_xor_step b c,
  bit_xor_step (bit_xor a b) c,
  bit_xor_step a (bit_xor b c),
  ap (λ (t : ℕ). bit_xor t (c / 2)) (half a b),
  ap (bit_xor (a / 2)) (half b c),
  assoc_below n (a / 2) (b / 2) (c / 2) (omega arith) (omega arith) (omega arith),
)
  where
    half : (x y : ℕ) → bit_xor x y / 2 ≡ bit_xor (x / 2) (y / 2)
    half x y = omega (arith, bit_xor_step x y)

pub xor_assoc : (a b c : ℕ) → bit_xor (bit_xor a b) c ≡ bit_xor a (bit_xor b c)
xor_assoc a b c = assoc_below (a + b + c) a b c (omega arith) (omega arith) (omega arith)

pub zero_xor : (a : ℕ) → bit_xor 0 a ≡ a
zero_xor a = xor_comm 0 a ∙ bit_xor-zero a

-- The same number on both sides cancels.
pub xor_cancel : (a b : ℕ) → bit_xor a (bit_xor a b) ≡ b
xor_cancel a b = sym (xor_assoc a a b) ∙ ap (λ (t : ℕ). bit_xor t b) (xor_self a) ∙ zero_xor b

pub xor_swap_middle :
    (a b c d : ℕ) → bit_xor (bit_xor a b) (bit_xor c d) ≡ bit_xor (bit_xor a c) (bit_xor b d)
xor_swap_middle a b c d = cc (
  xor_assoc a b (bit_xor c d),
  xor_assoc b c d,
  xor_comm b c,
  xor_assoc c b d,
  xor_assoc a c (bit_xor b d),
)

pub xor-eq-zero : (a b : ℕ) → bit_xor a b ≡ 0 → a ≡ b
xor-eq-zero a b e = cc (xor_cancel a b, bit_xor-zero a)

-- The left side cancels from an equation.
pub xor-injective_right : (a b c : ℕ) → bit_xor a b ≡ bit_xor a c → b ≡ c
xor-injective_right a b c e = cc (xor_cancel a b, xor_cancel a c)

pub xor-injective_left : (a b c : ℕ) → bit_xor a c ≡ bit_xor b c → a ≡ b
xor-injective_left a b c e = xor-injective_right c a b (cc (xor_comm a c, xor_comm b c))
