-- ===== src/Bech32/ConvertBits/Canonical.antt =====
-- Which five-bit values `convertBits` accepts without padding: those that it writes with padding.
use mathlib.Core.List.{append-nil}
use mathlib.Core.Path.{subst}
use go_cardano_serialization.Base.{
  ℕ, ◌+◌, ◌-◌, ◌*◌, ◌<◌, ◌≡◌, sym, ap, ◌∙◌, arith, true, false, List, [], ◌∷◌, ◌++◌, length,
  replicate, take, All, leb, ◌==◌, ==_iff, Bool-cases, inl, inr, ok, ◌>>=◌, IsByte, length-append,
  length-replicate, replicate-append, take-append_length,
}
use go_cardano_serialization.Bech32.ConvertBits.{Acc, feed_all, leftover, finish, convert_bits}
use go_cardano_serialization.Bech32.ConvertBits.Digits.{
  to_bits, bits_of, length-to_bits, to_bits-zero, groups_unique,
}
use go_cardano_serialization.Bech32.ConvertBits.Regroup.{IsGroup, Took, feed_all-Took}
use go_cardano_serialization.Bech32.ConvertBits.Inverse.{
  empty, leftover-bits, Padded, convert_bits-Padded,
}

length-bits_of : (w : ℕ) (xs : List ℕ) → length (bits_of w xs) ≡ w * length xs
length-bits_of w [] = omega arith
length-bits_of w (x ∷ xs) =
    omega
      (arith, length-append (to_bits w x) (bits_of w xs), length-to_bits w x, length-bits_of w xs)

-- What the last step without padding has checked.
finish_accepts :
    (k w : ℕ) (s : Acc) (xs : List ℕ)
    → finish k w false s ≡ ok xs
    → (s.bits < k) × (leftover w s ≡ 0) × (s.ret ≡ xs)
unfolding finish
finish_accepts k w s xs = elim (Bool-cases (leb k s.bits)) [
  | inl many ↦ rw many (λ e. cc)
  | inr less ↦ rw less (elim (Bool-cases (leftover w s == 0)) [
    | inl nothing ↦ rw nothing (λ e. (ground arith, (==_iff _ _).0 nothing, cc))
    | inr some_left ↦ rw some_left (λ e. cc)
  ])
]

-- Where convertBits takes five-bit values to bytes without padding, it takes those bytes back to
-- the very same values with padding: a list of bytes has one five-bit form.
pub convert_bits-canonical :
    (values payload : List ℕ)
    → All (IsGroup 5) values
    → convert_bits values 5 8 false ≡ ok payload
    → All IsByte payload × (convert_bits payload 8 5 true ≡ ok values)
unfolding convert_bits
convert_bits-canonical values payload hv e = (payload-IsByte, there.returns ∙ ap ok same)
  where
    fed : Took 5 8 empty (bits_of 5 values) (feed_all 5 8 0 values empty)
    fed =
        feed_all-Took 5 8 (omega arith) (omega arith) (omega arith) 0 values empty hv
          (record { few = omega arith; groups = tt })

    s : Acc
    s = fed.out

    accepted : (s.bits < 5) × (leftover 8 s ≡ 0) × (s.ret ≡ payload)
    accepted = finish_accepts 5 8 s payload (sym (ap (λ r. r >>= finish 5 8 false) fed.returns) ∙ e)

    payload-IsByte : All IsByte payload
    payload-IsByte = subst (All IsByte) accepted.2 fed.ready.groups

    held : to_bits s.bits s.acc ≡ replicate s.bits 0
    held =
        sym (
          take-append_length (to_bits s.bits s.acc) (replicate (8 - s.bits) 0) s.bits
            (length-to_bits s.bits s.acc))
        ∙ ap (take s.bits) (
            sym (leftover-bits 8 s (omega arith) fed.ready.few)
            ∙ ap (to_bits 8) accepted.1
            ∙ to_bits-zero 8
            ∙ sym (replicate-append s.bits (8 - s.bits) 8 0 (omega (arith, fed.ready.few))))
        ∙ take-append_length (replicate s.bits 0) (replicate (8 - s.bits) 0) s.bits
            (length-replicate s.bits 0)

    digits : bits_of 5 values ≡ bits_of 8 payload ++ replicate s.bits 0
    digits =
        sym fed.grown
        ∙ ap (λ (t : List ℕ). bits_of 8 s.ret ++ t) held
        ∙ ap (λ (t : List ℕ). bits_of 8 t ++ replicate s.bits 0) accepted.2

    there : Padded 5 (bits_of 8 payload) (convert_bits payload 8 5 true)
    there = convert_bits-Padded 8 5 payload (omega arith) (omega arith) (omega arith) payload-IsByte

    length_with : (n : ℕ) → length (bits_of 8 payload ++ replicate n 0) ≡ 8 * length payload + n
    length_with n = omega (
      arith,
      length-append (bits_of 8 payload) (replicate n 0),
      length-bits_of 8 payload,
      length-replicate {A = ℕ} n 0,
    )

    as_many : there.zeros ≡ s.bits
    as_many = omega (
      arith,
      length_with there.zeros,
      length_with s.bits,
      ap length there.digits_out,
      ap length digits,
      length-bits_of 5 there.out,
      length-bits_of 5 values,
      there.few,
      accepted.0,
    )

    same : there.out ≡ values
    same =
        (groups_unique 5 there.out values [] [] there.groups hv (omega arith) (omega arith) (
          append-nil (bits_of 5 there.out)
          ∙ there.digits_out
          ∙ ap (λ (n : ℕ). bits_of 8 payload ++ replicate n 0) as_many
          ∙ sym digits
          ∙ sym (append-nil (bits_of 5 values)))).0
