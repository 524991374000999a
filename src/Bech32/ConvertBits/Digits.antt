-- ===== src/Bech32/ConvertBits/Digits.antt =====
-- The binary digits of a number as a list, highest first: how they split, what a remainder and
-- a shift do to them, and that they determine the number.
use mathlib.Core.List.{append_assoc}
use native.Mathlib.Nat.{
  pow-suc, one-le-pow, div-div-eq-div-mul, add-mul-div_left, mul-mod_left, div-add-mod, mod-lt,
  mul-div_cancel,
}
use go_cardano_serialization.Base.{
  ℕ, zero, suc, ◌+◌, ◌-◌, ◌*◌, ◌/◌, ◌%◌, ◌^◌, ◌≤◌, ◌<◌, ◌≡◌, refl, sym, ap, ap₂, ◌∙◌, arith, List,
  [], ◌∷◌, ◌++◌, length, replicate, take, drop, take-append_length, drop-append_length, All,
  length-append,
}

abbrev pub to_bits : ℕ → ℕ → List ℕ
to_bits zero x = []
to_bits (suc w) x = (x / 2 ^ w % 2) ∷ to_bits w x

-- The digits of several numbers of w digits each.
abbrev pub bits_of : ℕ → List ℕ → List ℕ
bits_of w [] = []
bits_of w (x ∷ xs) = to_bits w x ++ bits_of w xs

pub bits_of-append : (w : ℕ) (xs ys : List ℕ) → bits_of w (xs ++ ys) ≡ bits_of w xs ++ bits_of w ys
bits_of-append w [] ys = refl
bits_of-append w (x ∷ xs) ys =
    ap (◌++◌ (to_bits w x)) (bits_of-append w xs ys)
    ∙ sym (append_assoc (to_bits w x) (bits_of w xs) (bits_of w ys))

pub length-to_bits : (w x : ℕ) → length (to_bits w x) ≡ w
length-to_bits zero x = refl
length-to_bits (suc w) x = ap suc (length-to_bits w x)

pub pow-add : (a b : ℕ) → 2 ^ (a + b) ≡ 2 ^ b * 2 ^ a
pow-add zero b = omega (arith, ap (λ (t : ℕ). 2 ^ t) {x = 0 + b} {y = b} (omega arith))
pow-add (suc a) b = omega (
  arith,
  ap (λ (t : ℕ). 2 ^ t) {x = suc a + b} {y = suc (a + b)} (omega arith),
  pow-suc 2 (a + b),
  ap (λ (t : ℕ). 2 ^ b * t) (pow-suc 2 a),
  ap (λ (t : ℕ). t * 2) (pow-add a b),
)

pub to_bits-split : (a b n x : ℕ) → n ≡ a + b → to_bits n x ≡ to_bits a (x / 2 ^ b) ++ to_bits b x
to_bits-split zero b n x e = ap (λ (t : ℕ). to_bits t x) (omega arith)
to_bits-split (suc a) b zero x e = absurd (omega arith)
to_bits-split (suc a) b (suc n) x e =
    ap₂ ◌∷◌
      (ap (λ (t : ℕ). t % 2)
        (ap (λ (t : ℕ). x / 2 ^ t) {y = a + b} (omega arith)
          ∙ ap (λ (t : ℕ). x / t) (pow-add a b)
          ∙ sym (div-div-eq-div-mul x (2 ^ b) (2 ^ a))))
      (to_bits-split a b n x (omega arith))

-- The digits below place k do not change in a remainder by 2 ^ k.
digit-mod : (w d x : ℕ) → x % 2 ^ (suc d + w) / 2 ^ w % 2 ≡ x / 2 ^ w % 2
digit-mod w d x = omega (arith, parts)
  where
    N : ℕ
    N = 2 ^ (suc d + w)

    whole : x ≡ x % N + 2 ^ w * (2 * (2 ^ d * (x / N)))
    whole = omega (
      arith,
      div-add-mod x N,
      ap (λ (t : ℕ). t * (x / N)) (pow-add (suc d) w),
      ap (λ (t : ℕ). 2 ^ w * t * (x / N)) (pow-suc 2 d),
    )

    parts : x / 2 ^ w ≡ x % N / 2 ^ w + 2 * (2 ^ d * (x / N))
    parts =
        ap (λ (t : ℕ). t / 2 ^ w) whole
        ∙ add-mul-div_left (x % N) (2 * (2 ^ d * (x / N))) (one-le-pow w 2 (omega arith))

pub to_bits-mod : (w k x : ℕ) → w ≤ k → to_bits w (x % 2 ^ k) ≡ to_bits w x
to_bits-mod zero k x h = refl
to_bits-mod (suc w) k x h =
    ap₂ ◌∷◌
      (ap (λ (t : ℕ). x % 2 ^ t / 2 ^ w % 2) {y = suc (k - suc w) + w} (omega arith)
        ∙ digit-mod w (k - suc w) x)
      (to_bits-mod w k x (omega arith))

pub to_bits-zero : (w : ℕ) → to_bits w 0 ≡ replicate w 0
to_bits-zero zero = refl
to_bits-zero (suc w) = ap₂ ◌∷◌ (grind (arith, one-le-pow w 2)) (to_bits-zero w)

-- A number that is shifted by p places has p zeros at its end.
pub to_bits-shift : (b p n x : ℕ) → n ≡ b + p → to_bits n (x * 2 ^ p) ≡ to_bits b x ++ replicate p 0
to_bits-shift b p n x e =
    to_bits-split b p n (x * 2 ^ p) e
    ∙ ap₂ ◌++◌ (ap (to_bits b) (mul-div_cancel x (one-le-pow p 2 (omega arith)))) (
        sym (to_bits-mod p p (x * 2 ^ p) (omega arith))
        ∙ ap (to_bits p) (mul-mod_left x (2 ^ p))
        ∙ to_bits-zero p)

pub to_bits-injective : (w x y : ℕ) → x < 2 ^ w → y < 2 ^ w → to_bits w x ≡ to_bits w y → x ≡ y
to_bits-injective zero x y hx hy e = omega arith
to_bits-injective (suc w) x y hx hy e = cc (
  div-add-mod x (2 ^ w),
  div-add-mod y (2 ^ w),
  tops,
  to_bits-injective w (x % 2 ^ w) (y % 2 ^ w) (mod-lt x (one-le-pow w 2 (omega arith)))
      (mod-lt y (one-le-pow w 2 (omega arith))) lows,
)
  where
    top-lt : (z : ℕ) → z < 2 ^ suc w → z / 2 ^ w < 2
    top-lt z h = grind (arith, pow-suc 2 w, div-add-mod z (2 ^ w))

    tops : x / 2 ^ w ≡ y / 2 ^ w
    tops = let h : x / 2 ^ w % 2 ≡ y / 2 ^ w % 2 = cc in omega (arith, h, top-lt x hx, top-lt y hy)

    lows : to_bits w (x % 2 ^ w) ≡ to_bits w (y % 2 ^ w)
    lows =
        let h : to_bits w x ≡ to_bits w y = cc in
        to_bits-mod w w x (omega arith) ∙ h ∙ sym (to_bits-mod w w y (omega arith))

-- Two sequences of whole groups, each with less than a group behind it, agree only if the groups
-- do and what is left does.
pub groups_unique :
    (w : ℕ) (xs ys us vs : List ℕ)
    → All (λ x. x < 2 ^ w) xs
    → All (λ y. y < 2 ^ w) ys
    → length us < w
    → length vs < w
    → bits_of w xs ++ us ≡ bits_of w ys ++ vs
    → (xs ≡ ys) × (us ≡ vs)
groups_unique w [] [] us vs hx hy hu hv e = (refl, e)
groups_unique w [] (y ∷ ys) us vs hx hy hu hv e = absurd (short ys us vs y hu e)
  where
    short :
        (ys us vs : List ℕ) (y : ℕ) → length us < w → us ≡ (to_bits w y ++ bits_of w ys) ++ vs → ⊥
    short ys us vs y h p = omega (
      arith,
      ap length p,
      length-append (to_bits w y ++ bits_of w ys) vs,
      length-append (to_bits w y) (bits_of w ys),
      length-to_bits w y,
    )
groups_unique w (x ∷ xs) [] us vs hx hy hu hv e = absurd (
    omega (
      arith,
      ap length e,
      length-append (to_bits w x ++ bits_of w xs) us,
      length-append (to_bits w x) (bits_of w xs),
      length-to_bits w x,
    ))
groups_unique w (x ∷ xs) (y ∷ ys) us vs (hx, hxs) (hy, hys) hu hv e =
    let rest = groups_unique w xs ys us vs hxs hys hu hv tails in (ap₂ ◌∷◌ heads rest.0, rest.1)
  where
    joined : to_bits w x ++ (bits_of w xs ++ us) ≡ to_bits w y ++ (bits_of w ys ++ vs)
    joined =
        sym (append_assoc (to_bits w x) (bits_of w xs) us)
        ∙ e
        ∙ append_assoc (to_bits w y) (bits_of w ys) vs

    heads : x ≡ y
    heads = to_bits-injective w x y hx hy (
        sym (take-append_length (to_bits w x) _ w (length-to_bits w x))
        ∙ ap (take w) joined
        ∙ take-append_length (to_bits w y) _ w (length-to_bits w y))

    tails : bits_of w xs ++ us ≡ bits_of w ys ++ vs
    tails =
        sym (drop-append_length (to_bits w x) _ w (length-to_bits w x))
        ∙ ap (drop w) joined
        ∙ drop-append_length (to_bits w y) _ w (length-to_bits w y)
