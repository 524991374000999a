-- ===== src/Bip32/Examples.antt =====
-- Runs of the package bip32, its theorems at concrete keys, and libraries that keep the laws of
-- `KeyLaws`: short digests, and a group of two points.
use go_cardano_serialization.Base.{
  ℕ, zero, suc, ◌+◌, ◌*◌, ◌%◌, ◌^◌, ◌<◌, ◌≡◌, ◌≢◌, refl, sym, ap, ◌∙◌, arith, Bool, true, false,
  not, List, [], ◌∷◌, ◌++◌, length, take, drop, replicate, All, IsByte, ok, err, length-replicate,
  if◌then◌else◌,
}
use go_cardano_serialization.Bip32.Arithmetic.{
  seed_length, add28mul8, mul8_loop, carry_loop, add256bits,
}
use go_cardano_serialization.Bip32.Arithmetic.Sums.{
  number, Yields, add28mul8-Yields, add256bits-Yields,
}
use go_cardano_serialization.Bip32.Keys.{
  KeyLibraries, modify, normalize_bytes_force3rd, new_xprv, from_bip39_entropy, derive, public,
  make_public_key, is_hardened, extended_private_key, chain_code, slice, slice_from,
}
use go_cardano_serialization.Bip32.Keys.Laws.{KeyLaws}
use go_cardano_serialization.Bip32.Keys.Clamped.{IsKey, new_xprv-IsKey}
use go_cardano_serialization.Bip32.Keys.Derived.{iout}
use go_cardano_serialization.Bip32.Keys.Reached.{from_entropy, Reached-IsKey}
use go_cardano_serialization.Bip32.Keys.Public.{moved, derive-public, derive-public_soft}
use go_cardano_serialization.Bip32.Sign.{sign}
use go_cardano_serialization.Bip32.Sign.Valid.{IsSignature, sign-IsSignature}

abbrev plus : Bool → Bool → Bool
plus false q = q
plus true q = not q

abbrev times : ℕ → Bool → Bool
times zero p = false
times (suc n) p = plus p (times n p)

plus_assoc : (p q r : Bool) → plus (plus p q) r ≡ plus p (plus q r)
plus_assoc false q r = refl
plus_assoc true false r = refl
plus_assoc true true false = refl
plus_assoc true true true = refl

times_add : (m n : ℕ) (p : Bool) → times (m + n) p ≡ plus (times m p) (times n p)
times_add zero n p = ap (λ (t : ℕ). times t p) (omega arith)
times_add (suc m) n p =
    ap (λ (t : ℕ). times t p) {x = suc m + n} {y = suc (m + n)} (omega arith)
    ∙ ap (plus p) (times_add m n p)
    ∙ sym (plus_assoc p (times m p) (times n p))

times_mul : (m n : ℕ) (p : Bool) → times (m * n) p ≡ times m (times n p)
times_mul zero n p = ap (λ (t : ℕ). times t p) {x = 0 * n} {y = 0} (omega arith)
times_mul (suc m) n p =
    ap (λ (t : ℕ). times t p) {x = suc m * n} {y = n + m * n} (omega arith)
    ∙ times_add n (m * n) p
    ∙ ap (plus (times n p)) (times_mul m n p)

times_order : (n : ℕ) → times (n % 2) true ≡ times n true
times_order zero = refl
times_order (suc zero) = refl
times_order (suc (suc n)) =
    ap (λ (t : ℕ). times t true) {x = suc (suc n) % 2} {y = n % 2} (omega arith)
    ∙ times_order n
    ∙ twice (times n true)
  where
    twice : (q : Bool) → q ≡ not (not q)
    twice false = refl
    twice true = refl

abbrev point_bytes : Bool → List ℕ
point_bytes p = (if p then 1 else 0) ∷ replicate 31 0

point_bytes-injective : (p q : Bool) → point_bytes p ≡ point_bytes q → p ≡ q
point_bytes-injective false false e = refl
point_bytes-injective false true e = cc
point_bytes-injective true false e = cc
point_bytes-injective true true e = refl

replicate-IsByte : (n : ℕ) → All IsByte (replicate n 255)
replicate-IsByte zero = tt
replicate-IsByte (suc n) = (omega arith, replicate-IsByte n)

abbrev pub toy : KeyLibraries
toy = record {
  Point = Bool;
  sum512 = λ s. length s % 256 ∷ replicate 63 255;
  sum256 = λ s. length s % 256 ∷ replicate 31 0;
  hmac_sha512 = λ k s. length s % 256 ∷ replicate 63 3;
  pbkdf2_key = λ password salt iter size. replicate size 255;
  ge_scalar_mult_base = λ s. times (number s) true;
  to_bytes = point_bytes;
  sc_reduce = λ s. number s % 2 ∷ [];
  sc_mul_add = λ a b c. (number a * number b + number c) % 2 ∷ replicate 31 0;
}

pub toy-KeyLaws : KeyLaws toy
toy-KeyLaws = record {
  sum512_bytes = λ s. (refl, omega arith);
  sum256_bytes = λ s. (refl, omega arith);
  hmac_bytes = λ k s. (refl, omega arith);
  pbkdf2_bytes = λ password salt iter size. (length-replicate size 255, replicate-IsByte size);
  to_bytes_size = λ p. refl;
  to_bytes_injective = point_bytes-injective;
  order = 2;
  order_small = omega arith;
  sc_reduce_number = λ s. (omega arith, omega arith);
  sc_mul_add_number = λ a b c. (omega arith, refl);
  base_point = true;
  add = plus;
  scale = times;
  scale_add = times_add;
  scale_mul = times_mul;
  scale_order = times_order;
  mult_base = λ s h. refl;
}

abbrev pub toy_key : List ℕ
toy_key = 0xf8 ∷ (replicate 30 255 ++ (95 ∷ replicate 64 255))

toy_key_made : from_bip39_entropy toy [] [] ≡ ok toy_key
unfolding from_bip39_entropy normalize_bytes_force3rd modify
toy_key_made = refl

toy_key-IsKey : IsKey 0 toy_key
toy_key-IsKey = record {
  size = refl;
  bytes = omega arith;
  multiple = refl;
  at_least = omega arith;
  below = omega arith;
}

short_seed : new_xprv toy (1 ∷ 2 ∷ []) ≡ err seed_length
unfolding new_xprv
short_seed = refl

carries : add28mul8 (replicate 32 255) (1 ∷ replicate 31 0) ≡ ok (7 ∷ replicate 31 0)
unfolding add28mul8 mul8_loop carry_loop
carries = refl

-- The right half of a key has no part in its public key.
abbrev other_key : List ℕ
other_key = 0xf8 ∷ (replicate 30 255 ++ (95 ∷ (replicate 32 0 ++ replicate 32 255)))

other_key-IsKey : IsKey 0 other_key
other_key-IsKey = record {
  size = refl;
  bytes = omega arith;
  multiple = refl;
  at_least = omega arith;
  below = omega arith;
}

same_public : public toy toy_key ≡ public toy other_key
unfolding public make_public_key extended_private_key chain_code slice slice_from
same_public = refl

not_hardened : is_hardened 5 ≡ false
unfolding is_hardened
not_hardened = refl

add28mul8-Yields_example :
    Yields
      (add28mul8 (replicate 32 255) (1 ∷ replicate 31 0))
      (number (replicate 32 255) + 8 * number (take 28 (1 ∷ replicate 31 0)))
add28mul8-Yields_example =
    add28mul8-Yields (replicate 32 255) (1 ∷ replicate 31 0) refl refl (omega arith) (omega arith)

add256bits-Yields_example :
    Yields
      (add256bits (replicate 32 255) (1 ∷ replicate 31 0))
      (number (replicate 32 255) + number (1 ∷ replicate 31 0))
add256bits-Yields_example =
    add256bits-Yields (replicate 32 255) (1 ∷ replicate 31 0) refl refl (omega arith) (omega arith)

abbrev nines : List ℕ
nines = replicate 32 9

new_xprv-IsKey_example :
    (length nines ≡ 32 → (key : List ℕ) × (new_xprv toy nines ≡ ok key) × IsKey 0 key)
    × (length nines ≢ 32 → new_xprv toy nines ≡ err seed_length)
new_xprv-IsKey_example = new_xprv-IsKey toy toy-KeyLaws nines

Reached-IsKey_example : IsKey 0 toy_key × (number (take 32 toy_key) < 2 ^ 255)
Reached-IsKey_example =
    Reached-IsKey toy toy-KeyLaws 0 toy_key (from_entropy [] [] toy_key_made) (omega arith)

derive-public_example :
    (child : List ℕ) × (derive toy toy_key 5 ≡ ok child)
    × (public toy child
        ≡ ok (point_bytes (moved toy toy-KeyLaws toy_key 5) ++ drop 32 (iout toy toy_key 5)))
derive-public_example = derive-public toy toy-KeyLaws 0 toy_key 5 toy_key-IsKey (omega arith)

derive-public_soft_example :
    (child child' : List ℕ) × (derive toy toy_key 5 ≡ ok child)
    × (derive toy other_key 5 ≡ ok child')
    × (public toy child ≡ public toy child')
derive-public_soft_example =
    derive-public_soft toy toy-KeyLaws 0 toy_key other_key 5 toy_key-IsKey other_key-IsKey
      (omega arith) not_hardened same_public

sign-IsSignature_example :
    (signature : List ℕ) × (a : Bool) × (make_public_key toy toy_key ≡ ok (point_bytes a))
    × (sign toy toy_key (1 ∷ 2 ∷ []) ≡ ok signature)
    × IsSignature toy toy-KeyLaws a (1 ∷ 2 ∷ []) signature
sign-IsSignature_example =
    sign-IsSignature toy toy-KeyLaws toy_key (1 ∷ 2 ∷ []) (omega arith) (omega arith)
