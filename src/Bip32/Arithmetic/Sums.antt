-- ===== src/Bip32/Arithmetic/Sums.antt =====
-- The two additions against arithmetic on the numbers that the bytes stand for.
use go_cardano_serialization.Base.{
  ℕ, zero, suc, ◌+◌, ◌*◌, ◌/◌, ◌%◌, ◌^◌, ◌<◌, ◌≤◌, ◌≡◌, refl, ap, arith, List, [], ◌∷◌, length,
  take, ◌++◌, All, IsByte, bit_and, ◌<<<◌, u8, u16, Result, ok, ◌>>=◌,
}
use go_cardano_serialization.Base.Bits.Fields.{bit_and_mask}
use native.Mathlib.Nat.{pow-suc}
use mathlib.Core.Path.{subst}
use go_cardano_serialization.Bip32.Arithmetic.{
  KeyError, carry_loop, mul8_loop, add28mul8, add_loop, add256bits,
}

-- The number that a little-endian byte string stands for.
abbrev pub number : List ℕ → ℕ
number [] = 0
number (x ∷ xs) = x + 256 * number xs

pub number-lt : (xs : List ℕ) → All IsByte xs → number xs < 256 ^ length xs
number-lt [] h = omega arith
number-lt (x ∷ xs) (hx, hs) = omega (arith, number-lt xs hs, pow-suc 256 (length xs))

pub number-append : (xs ys : List ℕ) → number (xs ++ ys) ≡ number xs + 256 ^ length xs * number ys
number-append [] ys = omega arith
number-append (x ∷ xs) ys =
    omega (arith, number-append xs ys, ap (λ (t : ℕ). t * number ys) (pow-suc 256 (length xs)))

-- n bytes that stand for `total`, apart from what is carried out of the highest one.
record IsSum (n total : ℕ) (result : Result KeyError (List ℕ)) : Type 0 where
  out : List ℕ
  returns : result ≡ ok out
  size : length out ≡ n
  bytes : All IsByte out
  carry : ℕ
  value : number out + carry * 256 ^ n ≡ total

low_byte : (r : ℕ) → u8 (bit_and r 0xff) ≡ r % 256
low_byte r = omega (arith, bit_and_mask 8 r)

higher : (c n : ℕ) → c * 256 ^ suc n ≡ 256 * (c * 256 ^ n)
higher c n = omega (arith, ap (λ (t : ℕ). c * t) (pow-suc 256 n))

-- One more byte, `r`, below a sum.
IsSum-cons :
    (n total r : ℕ) (result : Result KeyError (List ℕ))
    → IsSum n total result
    → IsSum (suc n) (r % 256 + 256 * total) (result >>= λ out. ok (u8 (bit_and r 0xff) ∷ out))
IsSum-cons n total r result s = record {
  out = u8 (bit_and r 0xff) ∷ s.out;
  returns = rw s.returns;
  size = ap suc s.size;
  bytes = (omega arith, s.bytes);
  carry = s.carry;
  value = omega (arith, low_byte r, s.value, higher s.carry n);
}

IsSum-total :
    (n m s t : ℕ) (result : Result KeyError (List ℕ))
    → n ≡ m
    → s ≡ t
    → IsSum n s result
    → IsSum m t result
IsSum-total n m s t result e f i =
    subst (λ k. IsSum k t result) e (subst (λ k. IsSum n k result) f i)

carry_loop-IsSum :
    (n : ℕ) (xs : List ℕ) (carry : ℕ)
    → length xs ≡ n
    → All IsByte xs
    → carry < 256
    → IsSum n (number xs + carry) (carry_loop n xs carry)
unfolding carry_loop
carry_loop-IsSum zero [] carry e h c = record {
  out = [];
  returns = refl;
  size = refl;
  bytes = tt;
  carry = carry;
  value = omega arith;
}
carry_loop-IsSum zero (x ∷ xs) carry e h c = absurd (omega arith)
carry_loop-IsSum (suc n) [] carry e h c = absurd (omega arith)
carry_loop-IsSum (suc n) (x ∷ xs) carry e (hx, hs) c =
    let r = u16 (x + carry) in
    IsSum-total (suc n) _ _ (number (x ∷ xs) + carry) _ (omega arith) (omega arith) (
      IsSum-cons n (number xs + r / 256) r _
        (carry_loop-IsSum n xs (r / 256) (omega arith) hs (omega arith)))

mul8_loop-IsSum :
    (n : ℕ) (xs ys : List ℕ) (carry : ℕ)
    → length xs ≡ n + 4
    → n ≤ length ys
    → All IsByte xs
    → All IsByte ys
    → carry < 256
    → IsSum (n + 4) (number xs + 8 * number (take n ys) + carry) (mul8_loop n xs ys carry)
unfolding mul8_loop
mul8_loop-IsSum zero xs ys carry e l h g c =
    IsSum-total 4 _ _ _ _ (omega arith) (omega arith) (carry_loop-IsSum 4 xs carry e h c)
mul8_loop-IsSum (suc n) [] ys carry e l h g c = absurd (omega arith)
mul8_loop-IsSum (suc n) (x ∷ xs) [] carry e l h g c = absurd (omega arith)
mul8_loop-IsSum (suc n) (x ∷ xs) (y ∷ ys) carry e l (hx, hs) (gy, gs) c =
    let r = u16 (x + u16 (y <<< 3) + carry) in
    IsSum-total (suc (n + 4)) _ _ _ _ (omega arith) (omega arith) (
      IsSum-cons (n + 4) (number xs + 8 * number (take n ys) + r / 256) r _
        (mul8_loop-IsSum n xs ys (r / 256) (omega arith) (omega arith) hs gs (omega arith)))

add_loop-IsSum :
    (n : ℕ) (xs ys : List ℕ) (carry : ℕ)
    → length xs ≡ n
    → length ys ≡ n
    → All IsByte xs
    → All IsByte ys
    → carry < 256
    → IsSum n (number xs + number ys + carry) (add_loop n xs ys carry)
unfolding add_loop
add_loop-IsSum zero [] [] carry e l h g c = record {
  out = [];
  returns = refl;
  size = refl;
  bytes = tt;
  carry = carry;
  value = omega arith;
}
add_loop-IsSum zero (x ∷ xs) ys carry e l h g c = absurd (omega arith)
add_loop-IsSum zero [] (y ∷ ys) carry e l h g c = absurd (omega arith)
add_loop-IsSum (suc n) [] ys carry e l h g c = absurd (omega arith)
add_loop-IsSum (suc n) (x ∷ xs) [] carry e l h g c = absurd (omega arith)
add_loop-IsSum (suc n) (x ∷ xs) (y ∷ ys) carry e l (hx, hs) (gy, gs) c =
    let r = u16 (x + y + carry) in
    IsSum-total (suc n) _ _ _ _ (omega arith) (omega arith) (
      IsSum-cons n (number xs + number ys + r / 256) r _
        (add_loop-IsSum n xs ys (r / 256) (omega arith) (omega arith) hs gs (omega arith)))

-- 32 bytes of a result that stand for `total` modulo 2 ^ 256.
abbrev pub Yields : Result KeyError (List ℕ) → ℕ → Type 0
Yields result total =
    (out : List ℕ) × (result ≡ ok out)
    × (length out ≡ 32)
    × All IsByte out
    × (number out ≡ total % 2 ^ 256)

sum-Yields :
    (total : ℕ) (result : Result KeyError (List ℕ)) → IsSum 32 total result → Yields result total
sum-Yields total result s = (s.out, s.returns, s.size, s.bytes, omega (arith, s.value, below))
  where
    below : number s.out < 2 ^ 256
    below = subst (λ n. number s.out < 256 ^ n) s.size (number-lt s.out s.bytes)

-- add28mul8 adds eight times the number of the first 28 bytes of the second argument to the
-- number of the first, modulo 2 ^ 256, for arguments of 32 bytes.
pub add28mul8-Yields :
    (xs ys : List ℕ)
    → length xs ≡ 32
    → length ys ≡ 32
    → All IsByte xs
    → All IsByte ys
    → Yields (add28mul8 xs ys) (number xs + 8 * number (take 28 ys))
unfolding add28mul8
add28mul8-Yields xs ys e l h g = sum-Yields _ _ (
    IsSum-total 32 _ _ _ _ (omega arith) (omega arith)
      (mul8_loop-IsSum 28 xs ys 0 e (omega arith) h g (omega arith)))

-- add256bits adds the numbers of two arguments of 32 bytes modulo 2 ^ 256.
pub add256bits-Yields :
    (xs ys : List ℕ)
    → length xs ≡ 32
    → length ys ≡ 32
    → All IsByte xs
    → All IsByte ys
    → Yields (add256bits xs ys) (number xs + number ys)
unfolding add256bits
add256bits-Yields xs ys e l h g = sum-Yields _ _ (
    IsSum-total 32 _ _ _ _ (omega arith) (omega arith)
      (add_loop-IsSum 32 xs ys 0 e l h g (omega arith)))
