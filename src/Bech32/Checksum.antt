-- ===== src/Bech32/Checksum.antt =====
-- The checksum of internal/bech32/bech32.go: `polymod`, `hrpExpand`, `createChecksum` and
-- `verifyChecksum`. Values are numbers below 2 ^ 32, with each shift cut as in Go.
pub mod Linear
pub mod Valid
pub mod Burst
use mathlib.Core.List.{foldl}
use go_cardano_serialization.Base.{
  ℕ, zero, suc, ◌+◌, ◌-◌, ◌*◌, Bool, List, [], ◌∷◌, ◌++◌, map, ◌==◌, if◌then◌else◌, bit_and,
  bit_xor, ◌<<<◌, ◌>>>◌, u8, u32,
}
use go_cardano_serialization.Bech32.Text.{to_lower, lower_byte}

abbrev pub generator : List ℕ
generator = 0x3b6a57b2 ∷ 0x26508e6d ∷ 0x1ea119fa ∷ 0x3d4233dd ∷ 0x2a1462b3 ∷ []

-- `for i := 0; i < 5; i++`: bit i of `top` decides whether `generator[i]` is mixed in.
unfoldable pub mix : List ℕ → ℕ → ℕ → ℕ → ℕ
mix [] i top chk = chk
mix (g ∷ gs) i top chk =
    mix gs (i + 1) top (if bit_and (top >>> i) 1 == 1 then bit_xor chk g else chk)

-- One round of the outer loop.
unfoldable pub polymod_step : ℕ → ℕ → ℕ
unfolding mix
polymod_step chk v =
    let top = chk >>> 25 in mix generator 0 top (bit_xor (u32 (bit_and chk 0x1ffffff <<< 5)) v)

unfoldable pub polymod : List ℕ → ℕ
unfolding polymod_step
polymod values = foldl polymod_step 1 values

unfoldable pub hrp_expand : List ℕ → List ℕ
unfolding lower_byte
hrp_expand hrp = let h = to_lower hrp in map (λ c. c >>> 5) h ++ (0 ∷ map (λ c. bit_and c 31) h)

unfoldable pub verify_checksum : List ℕ → List ℕ → Bool
unfolding polymod hrp_expand
verify_checksum hrp values = polymod (hrp_expand hrp ++ values) == 1

-- `for p := range ret`, with `left` rounds to go
unfoldable pub checksum_bytes : ℕ → ℕ → ℕ → List ℕ
checksum_bytes zero p m = []
checksum_bytes (suc left) p m =
    bit_and (u8 (m >>> (5 * (5 - p)))) 31 ∷ checksum_bytes left (p + 1) m

unfoldable pub create_checksum : List ℕ → List ℕ → List ℕ
unfolding polymod hrp_expand checksum_bytes
create_checksum hrp values =
    let m = bit_xor (polymod ((hrp_expand hrp ++ values) ++ (0 ∷ 0 ∷ 0 ∷ 0 ∷ 0 ∷ 0 ∷ []))) 1 in
    checksum_bytes 6 0 m
