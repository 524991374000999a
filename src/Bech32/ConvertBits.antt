-- ===== src/Bech32/ConvertBits.antt =====
-- `convertBits` of internal/bech32/bech32.go, with Go's uint32 accumulator and byte counter.
pub mod Digits
pub mod Regroup
pub mod Inverse
pub mod Canonical
use go_cardano_serialization.Base.{
  ℕ, zero, suc, ◌+◌, ◌-◌, ◌/◌, ◌^◌, Bool, true, false, not, List, [], ◌∷◌, ◌++◌, leb, ltb, ◌==◌,
  if◌then◌else◌, bit_and, bit_or, ◌<<<◌, ◌>>>◌, u8, u32, ok, err, ◌>>=◌, Result,
}
use go_cardano_serialization.Bech32.Text.{
  Error, invalid_data_range, illegal_zero_padding, non_zero_padding,
}

-- What the two loops carry.
pub record Acc : Type 0 where
  pub acc : ℕ
  pub bits : ℕ
  pub ret : List ℕ

-- `maxv := byte(1<<tobits - 1)`
abbrev pub max_value : ℕ → ℕ
max_value tobits = u8 (u8 (1 <<< tobits) + 255)

-- `for bits >= tobits`: `bits` falls in each round, so `bits` rounds are enough for `tobits` ≥ 1.
unfoldable pub drain : ℕ → ℕ → Acc → Acc
drain zero tobits s = s
drain (suc fuel) tobits s = elim (leb tobits s.bits) [
  | false ↦ s
  | true ↦
      let bits = u8 (s.bits + 256 - tobits) in
      drain fuel tobits (record s {
        bits = bits;
        ret = s.ret ++ (bit_and (u8 (s.acc >>> bits)) (max_value tobits) ∷ []);
      })
]

-- One value: the range check, then the accumulator takes it and is drained.
unfoldable pub feed : ℕ → ℕ → ℕ → ℕ → Acc → Result Error Acc
unfolding drain
feed frombits tobits idx value s =
    if not (value >>> frombits == 0)
    then err (invalid_data_range idx value frombits)
    else let bits = u8 (s.bits + frombits) in
      ok (
        drain bits tobits (record s { acc = bit_or (u32 (s.acc <<< frombits)) value; bits = bits }))

unfoldable pub feed_all : ℕ → ℕ → ℕ → List ℕ → Acc → Result Error Acc
unfolding feed
feed_all frombits tobits idx [] s = ok s
feed_all frombits tobits idx (value ∷ values) s =
    feed frombits tobits idx value s >>= feed_all frombits tobits (idx + 1) values

-- The bits that are left over, moved to the top of one more value.
abbrev pub leftover : ℕ → Acc → ℕ
leftover tobits s = bit_and (u8 (u32 (s.acc <<< u8 (tobits + 256 - s.bits)))) (max_value tobits)

unfoldable pub finish : ℕ → ℕ → Bool → Acc → Result Error (List ℕ)
finish frombits tobits pad s =
    if pad
    then ok (if ltb 0 s.bits then s.ret ++ (leftover tobits s ∷ []) else s.ret)
    else if leb frombits s.bits
    then err illegal_zero_padding
    else if not (leftover tobits s == 0)
    then err non_zero_padding
    else ok s.ret

unfoldable pub convert_bits : List ℕ → ℕ → ℕ → Bool → Result Error (List ℕ)
unfolding feed_all finish
convert_bits values frombits tobits pad =
    feed_all frombits tobits 0 values (record { acc = 0; bits = 0; ret = [] })
    >>= finish frombits tobits pad
