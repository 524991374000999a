-- ===== src/Bech32/ConvertBits/Regroup.antt =====
-- `convertBits` regroups a stream of binary digits and loses none of them; from bytes to five-bit
-- values with padding, and back again without, it gives the bytes back.
use mathlib.Core.List.{append_assoc, append-nil}
use native.Mathlib.Nat.{
  mod-lt, one-le-pow, add-mul-mod_self_left, add-mul-mod_self_right, mod-eq_of_lt, div-eq_of_lt,
  add-mul-div_right, div-add-mod,
}
use go_cardano_serialization.Bech32.Text.{Error}
use go_cardano_serialization.Base.{
  ℕ, zero, suc, ◌+◌, ◌-◌, ◌*◌, ◌/◌, ◌%◌, ◌^◌, ◌≤◌, ◌<◌, ◌≡◌, refl, sym, ap, ap₂, ◌∙◌, arith, true,
  List, [], ◌∷◌, ◌++◌, All, All-append, leb, ◌==◌, ==_iff, Bool-cases, inl, inr, bit_and, bit_or,
  u8, u32, ok, Result,
}
use go_cardano_serialization.Base.Bits.Fields.{bit_or_split, bit_and_mask}
use go_cardano_serialization.Base.Bits.Table.{all_below, all_below-apply}
use go_cardano_serialization.Bech32.ConvertBits.{Acc, max_value, drain, feed, feed_all}
use go_cardano_serialization.Bech32.ConvertBits.Digits.{
  to_bits, bits_of, bits_of-append, to_bits-split, to_bits-mod, pow-add,
}

max_value_table : all_below 9 (λ w. max_value w == 2 ^ w - 1) ≡ true
unfolding all_below
max_value_table = refl

max_value_lem : (w : ℕ) → w ≤ 8 → max_value w ≡ 2 ^ w - 1
max_value_lem w h =
    (==_iff _ _).0
      (all_below-apply 9 (λ w. max_value w == 2 ^ w - 1) w max_value_table (omega arith))

-- What the two loops have read: the digits written out and the digits still held back.
abbrev pub stream : ℕ → Acc → List ℕ
stream w s = bits_of w s.ret ++ to_bits s.bits s.acc

abbrev pub IsGroup : ℕ → ℕ → Type 0
IsGroup w x = x < 2 ^ w

-- A value that is masked to w digits.
pub masked : (w x : ℕ) → w ≤ 8 → bit_and (u8 x) (max_value w) ≡ x % 256 % 2 ^ w
masked w x h = ap (bit_and (x % 256)) (max_value_lem w h) ∙ bit_and_mask w (x % 256)

pub masked-bits : (w x : ℕ) → w ≤ 8 → to_bits w (bit_and (u8 x) (max_value w)) ≡ to_bits w x
masked-bits w x h =
    ap (to_bits w) (masked w x h) ∙ to_bits-mod w w (x % 256) (omega arith) ∙ to_bits-mod w 8 x h

pub masked-IsGroup : (w x : ℕ) → w ≤ 8 → IsGroup w (bit_and (u8 x) (max_value w))
masked-IsGroup w x h = rw (masked w x h) (mod-lt (x % 256) (one-le-pow w 2 (omega arith)))

-- One round of the inner loop.
abbrev emit : ℕ → Acc → Acc
emit w s =
    let bits = u8 (s.bits + 256 - w) in
    record s { bits = bits; ret = s.ret ++ (bit_and (u8 (s.acc / 2 ^ bits)) (max_value w) ∷ []) }

emit-stream :
    (w : ℕ) (s : Acc) → w ≤ 8 → w ≤ s.bits → s.bits < 256 → stream w (emit w s) ≡ stream w s
emit-stream w s h lo hi =
    ap (λ (t : List ℕ). t ++ to_bits left s.acc) (bits_of-append w s.ret (out ∷ []))
    ∙ append_assoc (bits_of w s.ret) (to_bits w out ++ []) (to_bits left s.acc)
    ∙ ap (◌++◌ (bits_of w s.ret)) (
        ap (λ (t : List ℕ). t ++ to_bits left s.acc)
          (append-nil (to_bits w out) ∙ masked-bits w (s.acc / 2 ^ left) h)
        ∙ sym (to_bits-split w left s.bits s.acc (omega arith)))
  where
    left : ℕ
    left = u8 (s.bits + 256 - w)

    out : ℕ
    out = bit_and (u8 (s.acc / 2 ^ left)) (max_value w)

-- What a state must satisfy between two values.
pub record IsReady (w : ℕ) (s : Acc) : Type 0 where
  pub few : s.bits < w
  pub groups : All (IsGroup w) s.ret

record IsDrained (w : ℕ) (s t : Acc) : Type 0 where
  pub ready : IsReady w t
  same : stream w t ≡ stream w s

drain-IsDrained :
    (fuel w : ℕ) (s : Acc)
    → 1 ≤ w
    → w ≤ 8
    → s.bits ≤ fuel
    → s.bits < 256
    → All (IsGroup w) s.ret
    → IsDrained w s (drain fuel w s)
unfolding drain
drain-IsDrained zero w s pos h f small g = record {
  ready = record { few = omega arith; groups = g };
  same = refl;
}
drain-IsDrained (suc fuel) w s pos h f small g = elim (Bool-cases (leb w s.bits)) [
  | inl more ↦
      let le : w ≤ s.bits = ground arith in
      let rest = drain-IsDrained fuel w (emit w s) pos h (omega arith) (omega arith) (
        All-append (IsGroup w) s.ret _ g
          (masked-IsGroup w (s.acc / 2 ^ u8 (s.bits + 256 - w)) h, tt)) in
      rw (more, drain)
        (record { ready = rest.ready; same = rest.same ∙ emit-stream w s h le small })
  | inr done ↦
      rw (done, drain) (record { ready = record { few = ground arith; groups = g }; same = refl })
]

-- `acc<<k` cut to 32 bits drops the digits of `acc` from place 32 - k on.
shift_cut : (k a : ℕ) → k ≤ 32 → u32 (a * 2 ^ k) ≡ a % 2 ^ (32 - k) * 2 ^ k
shift_cut k a h =
    ap (λ (t : ℕ). t % 2 ^ 32) split
    ∙ add-mul-mod_self_left (a % N * 2 ^ k) (2 ^ 32) (a / N)
    ∙ mod-eq_of_lt small
  where
    N : ℕ
    N = 2 ^ (32 - k)

    width : 2 ^ 32 ≡ 2 ^ k * N
    width = ap (λ (t : ℕ). 2 ^ t) {x = 32} {y = 32 - k + k} (omega arith) ∙ pow-add (32 - k) k

    split : a * 2 ^ k ≡ a % N * 2 ^ k + 2 ^ 32 * (a / N)
    split = rw width (omega (arith, ap (λ (t : ℕ). t * 2 ^ k) (div-add-mod a N)))

    small : a % N * 2 ^ k < 2 ^ 32
    small = rw width (
        grind (
          arith,
          mod-lt a {m = N} (one-le-pow (32 - k) 2 (omega arith)),
          one-le-pow k 2 (omega arith),
        ))

-- The accumulator after one value: the digits held back, then those of the value.
accumulate :
    (k b a v : ℕ)
    → k ≤ 8
    → b ≤ 8
    → v < 2 ^ k
    → to_bits (b + k) (bit_or (u32 (a * 2 ^ k)) v) ≡ to_bits b a ++ to_bits k v
accumulate k b a v hk hb hv =
    ap (to_bits (b + k)) sum
    ∙ to_bits-split b k (b + k) (v + q * 2 ^ k) refl
    ∙ ap₂ ◌++◌ (ap (to_bits b) high ∙ to_bits-mod b (32 - k) a (omega arith)) low
  where
    q : ℕ
    q = a % 2 ^ (32 - k)

    sum : bit_or (u32 (a * 2 ^ k)) v ≡ v + q * 2 ^ k
    sum =
        ap (λ (t : ℕ). bit_or t v) (shift_cut k a (omega arith))
        ∙ bit_or_split k q v hv
        ∙ omega arith

    high : (v + q * 2 ^ k) / 2 ^ k ≡ q
    high = add-mul-div_right v q (one-le-pow k 2 (omega arith)) ∙ omega (arith, div-eq_of_lt hv)

    low : to_bits k (v + q * 2 ^ k) ≡ to_bits k v
    low =
        sym (to_bits-mod k k (v + q * 2 ^ k) (omega arith))
        ∙ ap (to_bits k) (add-mul-mod_self_right v q (2 ^ k))
        ∙ to_bits-mod k k v (omega arith)

-- A value in range is taken up: the stream grows by its digits.
pub record Took (k w : ℕ) (s : Acc) (digits : List ℕ) (result : Result Error Acc) : Type 0 where
  pub out : Acc
  pub returns : result ≡ ok out
  pub ready : IsReady w out
  pub grown : stream w out ≡ stream w s ++ digits

module _ (k w : ℕ) (hk : k ≤ 8) (pos : 1 ≤ w) (hw : w ≤ 8) where
  feed-Took :
      (idx v : ℕ) (s : Acc) → v < 2 ^ k → IsReady w s → Took k w s (to_bits k v) (feed k w idx v s)
  unfolding feed
  feed-Took idx v s hv r = record {
    out = drain (u8 (s.bits + k)) w mid;
    returns = rw (div-eq_of_lt hv);
    ready = drained.ready;
    grown =
        drained.same
        ∙ ap (◌++◌ (bits_of w s.ret)) (
            ap (λ (t : ℕ). to_bits t mid.acc) {x = u8 (s.bits + k)} {y = s.bits + k} (omega arith)
            ∙ accumulate k s.bits s.acc v hk (omega arith) hv)
        ∙ sym (append_assoc (bits_of w s.ret) (to_bits s.bits s.acc) (to_bits k v));
  }
    where
      mid : Acc
      mid = record s { acc = bit_or (u32 (s.acc * 2 ^ k)) v; bits = u8 (s.bits + k) }

      drained : IsDrained w mid (drain (u8 (s.bits + k)) w mid)
      drained = drain-IsDrained (u8 (s.bits + k)) w mid pos hw (omega arith) (omega arith) r.groups

  pub feed_all-Took :
      (idx : ℕ) (vs : List ℕ) (s : Acc)
      → All (IsGroup k) vs
      → IsReady w s
      → Took k w s (bits_of k vs) (feed_all k w idx vs s)
  unfolding feed_all
  feed_all-Took idx [] s h r = record {
    out = s;
    returns = refl;
    ready = r;
    grown = sym (append-nil (stream w s));
  }
  feed_all-Took idx (v ∷ vs) s (hv, hvs) r =
      let first = feed-Took idx v s hv r in
      let rest = feed_all-Took (idx + 1) vs first.out hvs first.ready in
      record {
        out = rest.out;
        returns = rw first.returns rest.returns;
        ready = rest.ready;
        grown =
            rest.grown
            ∙ ap (λ (t : List ℕ). t ++ bits_of k vs) first.grown
            ∙ append_assoc (stream w s) (to_bits k v) (bits_of k vs);
      }
