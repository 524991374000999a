-- ===== src/Address/VariableNat/RoundTrip.antt =====
-- `VariableNatDecode` reads back every uint64 that `VariableNatEncode` wrote.
use mathlib.Core.List.{reverse, reverse-append, append_assoc}
use native.Mathlib.Nat.{pow-suc, pow-le-pow_right}
use go_cardano_serialization.Base.{
  ℕ, zero, suc, ◌+◌, ◌*◌, ◌/◌, ◌%◌, ◌^◌, ◌≤◌, ◌<◌, ◌≡◌, refl, sym, ap, ap₂, ◌∙◌, arith, List, [],
  ◌∷◌, ◌++◌, ltb, ◌==◌, ==_iff, if◌then◌else◌, bit_and, bit_or, u8, ok, length, length-append,
  IsU64, IsByte, All, All-append, ◌⊎◌, Bool-cases, inl, inr, true,
}
use go_cardano_serialization.Base.Bits.Fields.{bit_and_mask, bit_or_split}
use go_cardano_serialization.Base.Bits.Table.{all_below, all_below-apply}
use go_cardano_serialization.Address.VariableNat.{
  encode_loop, variable_nat_encode, decode_loop, variable_nat_decode,
}

-- The groups above the lowest, each with its top bit set: highest group first.
abbrev upper : ℕ → ℕ → List ℕ
upper zero num = []
upper (suc k) num =
    let rest = upper k (num / 128) in if ltb 0 num then rest ++ ((num % 128 + 128) ∷ []) else []

top_bit_table : all_below 128 (λ g. bit_or g 0x80 == g + 128) ≡ true
unfolding all_below
top_bit_table = refl

top_bit : (g : ℕ) → g < 128 → bit_or g 0x80 ≡ g + 128
top_bit g h = (==_iff _ _).0 (all_below-apply 128 (λ g. bit_or g 0x80 == g + 128) g top_bit_table h)

test_table : all_below 256 (λ b. bit_and b 0x80 == (if ltb b 128 then 0 else 128)) ≡ true
unfolding all_below
test_table = refl

test_bit : (b : ℕ) → b < 256 → bit_and b 0x80 ≡ (if ltb b 128 then 0 else 128)
test_bit b h =
    (==_iff _ _).0
      (all_below-apply 256 (λ b. bit_and b 0x80 == (if ltb b 128 then 0 else 128)) b test_table h)

low_group : (n : ℕ) → bit_and (u8 n) 0x7f ≡ n % 128
low_group n = omega (arith, bit_and_mask 7 (n % 256))

inner_group : (n : ℕ) → bit_or (bit_and (u8 n) 0x7f) 0x80 ≡ n % 128 + 128
inner_group n = ap (λ (t : ℕ). bit_or t 0x80) (low_group n) ∙ top_bit (n % 128) (omega arith)

encode_loop-reverse :
    (k num : ℕ) (output : List ℕ)
    → reverse (encode_loop k num output) ≡ upper k num ++ reverse output
unfolding encode_loop
encode_loop-reverse zero num output = refl
encode_loop-reverse (suc k) num output = elim (Bool-cases (ltb 0 num)) [
  | inr done ↦ rw done
  | inl more ↦ rw more (
      encode_loop-reverse k (num / 128) (output ++ (bit_or (bit_and (u8 num) 0x7f) 0x80 ∷ []))
      ∙ ap (◌++◌ (upper k (num / 128))) (
          reverse-append output (bit_or (bit_and (u8 num) 0x7f) 0x80 ∷ [])
          ∙ ap (λ (t : ℕ). t ∷ reverse output) (inner_group num))
      ∙ sym (append_assoc (upper k (num / 128)) ((num % 128 + 128) ∷ []) (reverse output)))
]

-- What `VariableNatEncode` writes.
encode-upper : (num : ℕ) → variable_nat_encode num ≡ upper 64 (num / 128) ++ (num % 128 ∷ [])
unfolding variable_nat_encode
encode-upper num =
    encode_loop-reverse 64 (num / 128) (bit_and (u8 num) 0x7f ∷ [])
    ∙ ap (λ (t : ℕ). upper 64 (num / 128) ++ (t ∷ [])) (low_group num)

-- One inner byte and the last byte, as arithmetic.
take_inner :
    (g output n : ℕ) (raw : List ℕ)
    → g < 128
    → output < 2 ^ 57
    → decode_loop ((g + 128) ∷ raw) output n ≡ decode_loop raw (output * 128 + g) (n + 1)
unfolding decode_loop
take_inner g output n raw hg ho =
    ground (arith, test_bit (g + 128), bit_and_mask 7 (g + 128), bit_or_split 7 output g)

take_last :
    (g output n : ℕ) (raw : List ℕ)
    → g < 128
    → output < 2 ^ 57
    → decode_loop (g ∷ raw) output n ≡ ok (output * 128 + g, n + 1)
unfolding decode_loop
take_last g output n raw hg ho =
    ground (arith, test_bit g, bit_and_mask 7 g, bit_or_split 7 output g)

-- The upper groups are read into the number that they stand for.
decode_loop-upper :
    (k num n : ℕ) (raw : List ℕ)
    → num < 128 ^ k
    → num < 2 ^ 57
    → decode_loop (upper k num ++ raw) 0 n ≡ decode_loop raw num (n + length (upper k num))
decode_loop-upper zero num n raw h w = ap₂ (decode_loop raw) (omega arith) (omega arith)
decode_loop-upper (suc k) num n raw h w = elim (Bool-cases (ltb 0 num)) [
  | inr none_left ↦ rw none_left (ap₂ (decode_loop raw) (ground arith) (omega arith))
  | inl more ↦
      let head = upper k (num / 128) in
      let last : List ℕ = (num % 128 + 128) ∷ [] in
      rw more (
        ap (λ (t : List ℕ). decode_loop t 0 n) (append_assoc head last raw)
        ∙ decode_loop-upper k (num / 128) n (last ++ raw) (omega (arith, pow-suc 128 k))
            (omega arith)
        ∙ take_inner (num % 128) (num / 128) (n + length head) raw (omega arith) (omega arith)
        ∙ ap₂ (decode_loop raw) (omega arith) (omega (arith, length-append head last)))
]

-- VariableNatDecode gives back every uint64 that VariableNatEncode wrote, and the count of its
-- bytes, whatever follows.
pub variable_nat_decode-encode :
    (num : ℕ) (rest : List ℕ)
    → IsU64 num
    → variable_nat_decode (variable_nat_encode num ++ rest)
      ≡ ok (num, length (variable_nat_encode num))
unfolding variable_nat_decode
variable_nat_decode-encode num rest h = rw (encode-upper num) (
    ap (λ (t : List ℕ). decode_loop t 0 0) (append_assoc head (num % 128 ∷ []) rest)
    ∙ decode_loop-upper 64 (num / 128) 0 (num % 128 ∷ rest) (omega arith) (omega arith)
    ∙ take_last (num % 128) (num / 128) (0 + length head) rest (omega arith) (omega arith)
    ∙ ap ok (
        ap₂ (λ (a b : ℕ). (a, b)) (omega arith)
          (omega (arith, length-append head (num % 128 ∷ [])))))
  where
    head : List ℕ
    head = upper 64 (num / 128)

upper-IsByte : (k num : ℕ) → All IsByte (upper k num)
upper-IsByte zero num = tt
upper-IsByte (suc k) num = elim (Bool-cases (ltb 0 num)) [
  | inr done ↦ rw done tt
  | inl more ↦ rw more (All-append IsByte _ _ (upper-IsByte k (num / 128)) (omega arith, tt))
]

upper_none : (k : ℕ) → upper k 0 ≡ []
upper_none zero = refl
upper_none (suc k) = refl

-- The groups above the lowest are as many as the number has digits to the base 128.
length-upper :
    (k num : ℕ)
    → num < 128 ^ k
    → (num < 128 ^ length (upper k num)) × (0 < num → 128 ^ length (upper k num) ≤ 128 * num)
length-upper zero num h = (omega (arith, h), λ pos. omega (arith, h))
length-upper (suc k) num h = elim (Bool-cases (ltb 0 num)) [
  | inr done ↦ rw done (ground (arith, done), λ pos. ground (arith, done))
  | inl more ↦
      let head = upper k (num / 128) in
      let rest = length-upper k (num / 128) (omega (arith, pow-suc 128 k)) in
      let grown : 128 ^ length (head ++ ((num % 128 + 128) ∷ [])) ≡ 128 ^ length head * 128 =
        ap (λ (n : ℕ). 128 ^ n) {y = suc (length head)}
          (omega (arith, length-append head ((num % 128 + 128) ∷ [])))
        ∙ pow-suc 128 (length head) in
      let least : 128 ^ length head ≤ num = elim (Bool-cases (ltb 0 (num / 128))) [
        | inl still ↦ let up = rest.1 (ground (arith, still)) in omega (arith, up)
        | inr small ↦
            let none_left : num / 128 ≡ 0 = ground (arith, small) in
            let one : 128 ^ length head ≡ 1 =
              ap (λ (n : ℕ). 128 ^ length (upper k n)) none_left
              ∙ ap (λ (l : List ℕ). 128 ^ length l) (upper_none k) in
            ground (arith, one, more)
      ] in
      rw more (omega (arith, grown, rest.0), λ pos. omega (arith, grown, least))
]

pub length-variable_nat_encode : (num : ℕ) → 1 ≤ length (variable_nat_encode num)
length-variable_nat_encode num =
    rw encode-upper (omega (arith, length-append (upper 64 (num / 128)) (num % 128 ∷ [])))

at_most_ten : (n num : ℕ) → IsU64 num → 128 ^ n ≤ 128 * num → n ≤ 10
at_most_ten n num h least = elim (Bool-cases (ltb 10 n)) [
  | inl more ↦
      let long : 128 ^ 11 ≤ 128 ^ n =
        pow-le-pow_right (omega arith) {i = 11} {j = n} (ground (arith, more)) in
      absurd (omega (arith, least, long))
  | inr few ↦ ground (arith, few)
]

-- An encoding of VariableNatEncode for a uint64 is bytes, exactly as many as the number has
-- digits to the base 128: one at least, ten at most.
pub variable_nat_encode_shape :
    (num : ℕ)
    → IsU64 num
    → All IsByte (variable_nat_encode num)
      × (1 ≤ length (variable_nat_encode num))
      × (length (variable_nat_encode num) ≤ 10)
      × (num < 128 ^ length (variable_nat_encode num))
      × ((length (variable_nat_encode num) ≡ 1)
          ⊎ (128 ^ length (variable_nat_encode num) ≤ 128 * num))
variable_nat_encode_shape num h = rw encode-upper (
  All-append IsByte head _ (upper-IsByte 64 (num / 128)) (omega arith, tt),
  omega (arith, size),
  elim least [ inl one ↦ omega (arith, one) | inr digits ↦ at_most_ten _ num h digits ],
  omega (arith, grown, groups.0),
  least,
)
  where
    head : List ℕ
    head = upper 64 (num / 128)

    size : length (head ++ (num % 128 ∷ [])) ≡ suc (length head)
    size = omega (arith, length-append head (num % 128 ∷ []))

    grown : 128 ^ length (head ++ (num % 128 ∷ [])) ≡ 128 ^ length head * 128
    grown = ap (λ (n : ℕ). 128 ^ n) size ∙ pow-suc 128 (length head)

    groups :
        (num / 128 < 128 ^ length head) × (0 < num / 128 → 128 ^ length head ≤ 128 * (num / 128))
    groups = length-upper 64 (num / 128) (omega (arith, h))

    least :
        (length (head ++ (num % 128 ∷ [])) ≡ 1)
        ⊎ (128 ^ length (head ++ (num % 128 ∷ [])) ≤ 128 * num)
    least = elim (Bool-cases (ltb 0 (num / 128))) [
      | inl more ↦ let up = groups.1 (ground (arith, more)) in inr (omega (arith, grown, up))
      | inr small ↦
          let none_left : num / 128 ≡ 0 = ground (arith, small) in
          inl (size ∙ ap (λ (n : ℕ). suc (length (upper 64 n))) none_left)
    ]
