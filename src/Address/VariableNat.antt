-- ===== src/Address/VariableNat.antt =====
-- `VariableNatEncode` and `VariableNatDecode` of address/pointer.go: seven digits to a byte, the
-- highest group first, with the top bit set on every byte but the last.
pub mod RoundTrip
use mathlib.Core.List.{reverse}
use go_cardano_serialization.Base.{
  ℕ, zero, suc, ◌+◌, ◌/◌, List, [], ◌∷◌, ◌++◌, ltb, ◌==◌, if◌then◌else◌, bit_and, bit_or, ◌<<<◌, u8,
  u64, Result, ok, err,
}

pub data VariableNatError : Type 0 where
  unexpected_bytes : VariableNatError

-- `for num > 0`: each round drops seven binary digits.
unfoldable pub encode_loop : ℕ → ℕ → List ℕ → List ℕ
encode_loop zero num output = output
encode_loop (suc fuel) num output =
    let more =
      encode_loop fuel (num / 128) (output ++ (bit_or (bit_and (u8 num) 0x7f) 0x80 ∷ [])) in
    if ltb 0 num then more else output

-- A uint64 has 64 binary digits, of which each round drops some, so 64 rounds are enough.
unfoldable pub variable_nat_encode : ℕ → List ℕ
variable_nat_encode num = reverse (encode_loop 64 (num / 128) (bit_and (u8 num) 0x7f ∷ []))

-- The list is what `range raw` has not reached.
unfoldable pub decode_loop : List ℕ → ℕ → ℕ → Result VariableNatError (ℕ × ℕ)
decode_loop [] output bytes_read = err unexpected_bytes
decode_loop (rbyte ∷ raw) output bytes_read =
    let output' = bit_or (u64 (output <<< 7)) (bit_and rbyte 0x7f) in
    let more = decode_loop raw output' (bytes_read + 1) in
    if bit_and rbyte 0x80 == 0 then ok (output', bytes_read + 1) else more

unfoldable pub variable_nat_decode : List ℕ → Result VariableNatError (ℕ × ℕ)
variable_nat_decode raw = decode_loop raw 0 0
