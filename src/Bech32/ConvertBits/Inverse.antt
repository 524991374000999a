-- ===== src/Bech32/ConvertBits/Inverse.antt =====
-- From bytes to five-bit values with padding, and back again without.
use mathlib.Core.List.{append_assoc, append-nil}
use native.Mathlib.Nat.{one-le-pow}
use go_cardano_serialization.Base.{
  ℕ, ◌+◌, ◌-◌, ◌*◌, ◌^◌, ◌≤◌, ◌<◌, ◌≡◌, sym, ap, ◌∙◌, arith, true, false, List, [], ◌∷◌, ◌++◌,
  length, replicate, All, All-append, leb, ltb, Bool-cases, inl, inr, u8, ok, Result, IsByte,
  length-replicate, replicate-append,
}
use go_cardano_serialization.Bech32.Text.{Error}
use go_cardano_serialization.Bech32.ConvertBits.{Acc, feed_all, leftover, finish, convert_bits}
use go_cardano_serialization.Bech32.ConvertBits.Digits.{
  to_bits, bits_of, bits_of-append, length-to_bits, to_bits-mod, to_bits-zero, to_bits-shift,
  to_bits-injective, groups_unique,
}
use go_cardano_serialization.Bech32.ConvertBits.Regroup.{
  stream, IsGroup, IsReady, Took, feed_all-Took, masked-bits, masked-IsGroup,
}

abbrev pub empty : Acc
empty = record { acc = 0; bits = 0; ret = [] }

-- The digits held back, moved up, and zeros below them.
pub leftover-bits :
    (w : ℕ) (s : Acc)
    → w ≤ 8
    → s.bits < w
    → to_bits w (leftover w s) ≡ to_bits s.bits s.acc ++ replicate (w - s.bits) 0
leftover-bits w s h few =
    masked-bits w _ h
    ∙ to_bits-mod w 32 _ (omega arith)
    ∙ ap (λ (t : ℕ). to_bits w (s.acc * 2 ^ t)) {x = u8 (w + 256 - s.bits)} {y = w - s.bits}
        (omega arith)
    ∙ to_bits-shift s.bits (w - s.bits) w s.acc (omega arith)

-- With padding the digits come out as they went in, and less than a group of zeros behind them.
pub record Padded (w : ℕ) (digits : List ℕ) (result : Result Error (List ℕ)) : Type 0 where
  pub out : List ℕ
  pub returns : result ≡ ok out
  pub groups : All (IsGroup w) out
  pub zeros : ℕ
  pub few : zeros < w
  pub digits_out : bits_of w out ≡ digits ++ replicate zeros 0

finish-Padded :
    (k w : ℕ) (s : Acc) (digits : List ℕ)
    → w ≤ 8
    → IsReady w s
    → stream w s ≡ digits
    → Padded w digits (finish k w true s)
unfolding finish
finish-Padded k w s digits h r e = elim (Bool-cases (ltb 0 s.bits)) [
  | inl some_left ↦ record {
    out = s.ret ++ (leftover w s ∷ []);
    returns = rw some_left;
    groups = All-append (IsGroup w) s.ret _ r.groups (masked-IsGroup w _ h, tt);
    zeros = w - s.bits;
    few = ground arith;
    digits_out =
        bits_of-append w s.ret (leftover w s ∷ [])
        ∙ ap (◌++◌ (bits_of w s.ret)) (append-nil _ ∙ leftover-bits w s h r.few)
        ∙ sym (append_assoc (bits_of w s.ret) (to_bits s.bits s.acc) (replicate (w - s.bits) 0))
        ∙ ap (λ (t : List ℕ). t ++ replicate (w - s.bits) 0) e;
  }
  | inr none_left ↦ record {
    out = s.ret;
    returns = rw none_left;
    groups = r.groups;
    zeros = 0;
    few = ground arith;
    digits_out =
        sym (append-nil (bits_of w s.ret))
        ∙ ap (λ (t : ℕ). bits_of w s.ret ++ to_bits t s.acc) {x = 0} {y = s.bits} (ground arith)
        ∙ e
        ∙ sym (append-nil digits);
  }
]

-- Every list of values in range is converted with padding, and its binary digits are kept in
-- their order.
pub convert_bits-Padded :
    (k w : ℕ) (values : List ℕ)
    → k ≤ 8
    → 1 ≤ w
    → w ≤ 8
    → All (IsGroup k) values
    → Padded w (bits_of k values) (convert_bits values k w true)
unfolding convert_bits
convert_bits-Padded k w values hk pos hw h =
    let fed = feed_all-Took k w hk pos hw 0 values empty h (record { few = pos; groups = tt }) in
    rw fed.returns (finish-Padded k w fed.out (bits_of k values) hw fed.ready fed.grown)

finish-ok : (k w : ℕ) (s : Acc) → s.bits < k → leftover w s ≡ 0 → finish k w false s ≡ ok s.ret
unfolding finish
finish-ok k w s few nothing = elim (Bool-cases (leb k s.bits)) [
  | inl many ↦ absurd (ground arith)
  | inr less ↦ rw (less, nothing)
]

-- Without padding, zeros that are less than a value are dropped.
convert_back :
    (k w : ℕ) (values xs : List ℕ) (p : ℕ)
    → k ≤ 8
    → 1 ≤ w
    → w ≤ 8
    → All (IsGroup k) values
    → All (IsGroup w) xs
    → p < k
    → p < w
    → bits_of k values ≡ bits_of w xs ++ replicate p 0
    → convert_bits values k w false ≡ ok xs
unfolding convert_bits
convert_back k w values xs p hk pos hw hv hx pk pw e =
    rw fed.returns (finish-ok k w fed.out (omega (arith, held)) nothing ∙ ap ok parts.0)
  where
    fed : Took k w empty (bits_of k values) (feed_all k w 0 values empty)
    fed = feed_all-Took k w hk pos hw 0 values empty hv (record { few = pos; groups = tt })

    parts : (fed.out.ret ≡ xs) × (to_bits fed.out.bits fed.out.acc ≡ replicate p 0)
    parts =
        groups_unique w fed.out.ret xs (to_bits fed.out.bits fed.out.acc) (replicate p 0)
          fed.ready.groups hx (rw length-to_bits fed.ready.few) (rw length-replicate pw)
          (fed.grown ∙ e)

    held : fed.out.bits ≡ p
    held = sym (length-to_bits fed.out.bits fed.out.acc) ∙ ap length parts.1 ∙ length-replicate p 0

    nothing : leftover w fed.out ≡ 0
    nothing =
        to_bits-injective w (leftover w fed.out) 0 (masked-IsGroup w _ hw)
          (one-le-pow w 2 (omega arith))
          (leftover-bits w fed.out hw fed.ready.few
            ∙ ap (λ (t : List ℕ). t ++ replicate (w - fed.out.bits) 0) parts.1
            ∙ replicate-append p (w - fed.out.bits) w 0 (omega (arith, held, fed.ready.few))
            ∙ sym (to_bits-zero w))

-- convertBits from bytes to five-bit values with padding, and back without, is the identity.
pub convert_bits-convert_bits :
    (payload : List ℕ)
    → All IsByte payload
    → (values : List ℕ) × (convert_bits payload 8 5 true ≡ ok values)
      × All (IsGroup 5) values
      × (convert_bits values 5 8 false ≡ ok payload)
convert_bits-convert_bits payload h =
    let there = convert_bits-Padded 8 5 payload (omega arith) (omega arith) (omega arith) h in
    (
      there.out,
      there.returns,
      there.groups,
      convert_back 5 8 there.out payload there.zeros (omega arith) (omega arith) (omega arith)
          there.groups h there.few (omega (arith, there.few)) there.digits_out,
    )
