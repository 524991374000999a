-- ===== src/Bech32/Checksum/Linear.antt =====
-- One round of `polymod` is linear over `^` on 30-bit states, keeps them below 2 ^ 30 and can be
-- undone.
use go_cardano_serialization.Base.{
  ℕ, zero, suc, ◌+◌, ◌*◌, ◌/◌, ◌%◌, ◌^◌, ◌<◌, ◌≡◌, refl, sym, ap, ◌∙◌, arith, true, List, [], ◌∷◌,
  ltb, ◌==◌, ==_iff, ltb→lt, Bool-cases, inl, inr, bit_and, bit_xor, ◌>>>◌,
}
use go_cardano_serialization.Base.Bits.Fields.{
  bit_xor-zero, bit_xor_split, bit_xor-lt, bit_and_mask,
}
use go_cardano_serialization.Base.Bits.Xor.{
  xor_self, xor_assoc, zero_xor, xor_swap_middle, xor-eq-zero, xor-injective_left,
  xor-injective_right,
}
use go_cardano_serialization.Base.Bits.Table.{all_below, all_below-apply}
use go_cardano_serialization.Bech32.Checksum.{mix, generator, polymod_step}

abbrev pub IsState : ℕ → Type 0
IsState c = c < 2 ^ 30

abbrev pub IsSymbol : ℕ → Type 0
IsSymbol v = v < 32

-- What the top five bits mix in.
abbrev mask : ℕ → ℕ
mask top = mix generator 0 top 0

mix-eq-xor : (gs : List ℕ) (i top chk : ℕ) → mix gs i top chk ≡ bit_xor chk (mix gs i top 0)
unfolding mix
mix-eq-xor [] i top chk = sym (bit_xor-zero chk)
mix-eq-xor (g ∷ gs) i top chk = elim (Bool-cases (bit_and (top >>> i) 1 == 1)) [
  | inl e ↦ rw e (
      mix-eq-xor gs (i + 1) top (bit_xor chk g)
      ∙ xor_assoc chk g (mix gs (i + 1) top 0)
      ∙ ap (bit_xor chk) (
          sym (
            mix-eq-xor gs (i + 1) top (bit_xor 0 g)
            ∙ ap (λ (t : ℕ). bit_xor t (mix gs (i + 1) top 0)) (zero_xor g))))
  | inr e ↦ rw e (mix-eq-xor gs (i + 1) top chk)
]

mask_table :
    all_below 32 (λ t. all_below 32 (λ u. mask (bit_xor t u) == bit_xor (mask t) (mask u))) ≡ true
unfolding all_below mix
mask_table = refl

mask-xor : (t u : ℕ) → t < 32 → u < 32 → mask (bit_xor t u) ≡ bit_xor (mask t) (mask u)
mask-xor t u ht hu = (==_iff _ _).0 (
    all_below-apply 32 (λ u. mask (bit_xor t u) == bit_xor (mask t) (mask u)) u
      (all_below-apply 32 (λ t. all_below 32 (λ u. mask (bit_xor t u) == bit_xor (mask t) (mask u)))
        t mask_table ht)
      hu)

mask_small_table : all_below 32 (λ t. ltb (mask t) (2 ^ 30)) ≡ true
unfolding all_below mix
mask_small_table = refl

mask-lt : (t : ℕ) → t < 32 → mask t < 2 ^ 30
mask-lt t h = ltb→lt _ _ (all_below-apply 32 (λ t. ltb (mask t) (2 ^ 30)) t mask_small_table h)

-- The lowest five bits of the mask tell `top` apart from 0.
mask_low_table : all_below 31 (λ t. ltb 0 (mask (t + 1) % 32)) ≡ true
unfolding all_below mix
mask_low_table = refl

mask_low : (t : ℕ) → t < 31 → 0 < mask (t + 1) % 32
mask_low t h = ltb→lt _ _ (all_below-apply 31 (λ t. ltb 0 (mask (t + 1) % 32)) t mask_low_table h)

-- The round in plain arithmetic.
pub polymod_step_lem :
    (c v : ℕ) → polymod_step c v ≡ bit_xor (bit_xor (c % 2 ^ 25 * 32) v) (mask (c / 2 ^ 25))
unfolding polymod_step
polymod_step_lem c v =
    mix-eq-xor generator 0 (c / 2 ^ 25) _
    ∙ ap (λ (t : ℕ). bit_xor (bit_xor t v) (mask (c / 2 ^ 25))) (omega (arith, bit_and_mask 25 c))

mask_zero : mask 0 ≡ 0
unfolding mix
mask_zero = refl

-- With a small state nothing is mixed in: the symbol is appended.
pub polymod_step_small : (c v : ℕ) → c < 2 ^ 25 → IsSymbol v → polymod_step c v ≡ c * 32 + v
polymod_step_small c v hc hv = ground (
  arith,
  polymod_step_lem c v,
  mask_zero,
  bit_xor-zero (bit_xor (c % 2 ^ 25 * 32) v),
  bit_xor_split 5 c 0 0 v,
  bit_xor-zero c,
  zero_xor v,
)

pub polymod_step-IsState : (c v : ℕ) → IsState c → IsState v → IsState (polymod_step c v)
polymod_step-IsState c v hc hv =
    rw polymod_step_lem
      (bit_xor-lt 30 _ _ (bit_xor-lt 30 _ _ (omega arith) hv) (mask-lt (c / 2 ^ 25) (omega arith)))

high_low :
    (a b : ℕ)
    → (bit_xor a b / 2 ^ 25 ≡ bit_xor (a / 2 ^ 25) (b / 2 ^ 25))
      × (bit_xor a b % 2 ^ 25 * 32 ≡ bit_xor (a % 2 ^ 25 * 32) (b % 2 ^ 25 * 32))
high_low a b = ground (
  arith,
  bit_xor_split 25 (a / 2 ^ 25) (a % 2 ^ 25) (b / 2 ^ 25) (b % 2 ^ 25),
  bit_xor-lt 25 (a % 2 ^ 25) (b % 2 ^ 25),
  bit_xor_split 5 (a % 2 ^ 25) 0 (b % 2 ^ 25) 0,
  xor_self 0,
)

pub polymod_step-xor :
    (a b v w : ℕ)
    → IsState a
    → IsState b
    → polymod_step (bit_xor a b) (bit_xor v w) ≡ bit_xor (polymod_step a v) (polymod_step b w)
polymod_step-xor a b v w ha hb =
    let A = a % 2 ^ 25 * 32 in
    let B = b % 2 ^ 25 * 32 in
    let high = mask-xor (a / 2 ^ 25) (b / 2 ^ 25) (omega arith) (omega arith) in
    cc (
      polymod_step_lem (bit_xor a b) (bit_xor v w),
      polymod_step_lem a v,
      polymod_step_lem b w,
      (high_low a b).0,
      (high_low a b).1,
      high,
      xor_swap_middle A B v w,
      xor_swap_middle (bit_xor A v) (bit_xor B w) (mask (a / 2 ^ 25)) (mask (b / 2 ^ 25)),
    )

-- Only the state 0 is taken to 0 by the symbol 0.
step_kernel : (c : ℕ) → IsState c → polymod_step c 0 ≡ 0 → c ≡ 0
step_kernel c hc e = by_top (c / 2 ^ 25) refl
  where
    same : c % 2 ^ 25 * 32 ≡ mask (c / 2 ^ 25)
    same = xor-eq-zero _ _ (
        ap (λ (t : ℕ). bit_xor t (mask (c / 2 ^ 25))) (sym (bit_xor-zero (c % 2 ^ 25 * 32)))
        ∙ sym (polymod_step_lem c 0)
        ∙ e)

    by_top : (t : ℕ) → c / 2 ^ 25 ≡ t → c ≡ 0
    by_top zero h = ground (arith, same, mask_zero)
    by_top (suc t) h = ground (arith, same, mask_low t)

-- Two states that one symbol takes to the same state are the same.
pub polymod_step-injective :
    (a b v : ℕ) → IsState a → IsState b → polymod_step a v ≡ polymod_step b v → a ≡ b
polymod_step-injective a b v ha hb e = xor-eq-zero a b (
    step_kernel (bit_xor a b) (bit_xor-lt 30 a b ha hb)
      (cc (polymod_step-xor a b v v ha hb, xor_self v, xor_self (polymod_step b v))))

-- Two symbols that take one state to the same state are the same.
pub polymod_step-injective_symbol : (c v w : ℕ) → polymod_step c v ≡ polymod_step c w → v ≡ w
polymod_step-injective_symbol c v w e = xor-injective_right (c % 2 ^ 25 * 32) v w (
    xor-injective_left _ _ (mask (c / 2 ^ 25))
      (sym (polymod_step_lem c v) ∙ e ∙ polymod_step_lem c w))
