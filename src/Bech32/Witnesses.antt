-- ===== src/Bech32/Witnesses.antt =====
-- The theorems about internal/bech32/bech32.go at concrete inputs.
use go_cardano_serialization.Base.{
  ℕ, ◌≡◌, refl, ap, get_or, false, arith, true, false, List, [], ◌∷◌, ◌++◌, ok,
}
use go_cardano_serialization.Bech32.Text.{
  codes, to_lower, same_text, lower_byte, upper_byte, last_index, bad_character, index_rune,
}
use go_cardano_serialization.Bech32.Checksum.{create_checksum, verify_checksum}
use go_cardano_serialization.Bech32.Checksum.Valid.{verify_checksum-create_checksum}
use go_cardano_serialization.Bech32.Checksum.Burst.{verify_checksum_burst}
use go_cardano_serialization.Bech32.Codec.Canonical.{encode-decode}
use go_cardano_serialization.Bech32.ConvertBits.{convert_bits}
use go_cardano_serialization.Bech32.ConvertBits.Digits.{bits_of}
use go_cardano_serialization.Bech32.ConvertBits.Inverse.{Padded, convert_bits-Padded}
use go_cardano_serialization.Bech32.Codec.{encode, decode, decode_at, read_symbols}
use go_cardano_serialization.Bech32.Codec.RoundTrip.{decode-encode}

abbrev stake : List ℕ
stake = codes "stake"

abbrev some_bytes : List ℕ
some_bytes = 225 ∷ 92 ∷ 125 ∷ []

abbrev some_values : List ℕ
some_values = 28 ∷ 5 ∷ 14 ∷ 7 ∷ 26 ∷ []

some_regrouped : convert_bits some_values 5 8 false ≡ ok some_bytes
unfolding convert_bits
some_regrouped = refl

decode-encode_example :
    (rest : List ℕ) × (encode stake some_bytes ≡ ok (stake ++ rest))
    × (decode (stake ++ rest) ≡ ok (stake, some_bytes))
decode-encode_example = decode-encode stake some_bytes (omega arith) (omega arith) (omega arith)

verify_checksum-create_checksum_example :
    verify_checksum stake ((7 ∷ 31 ∷ []) ++ create_checksum stake (7 ∷ 31 ∷ [])) ≡ true
verify_checksum-create_checksum_example =
    verify_checksum-create_checksum stake (7 ∷ 31 ∷ []) (omega arith) (omega arith)

-- "a12uel5l" is a valid text of BIP-173: its data part is the checksum alone.
abbrev checksum_burst : List ℕ
checksum_burst = 25 ∷ 31 ∷ 20 ∷ []

checksum_valid :
    verify_checksum (codes "a") ((10 ∷ 28 ∷ []) ++ (checksum_burst ++ (31 ∷ []))) ≡ true
unfolding verify_checksum
checksum_valid = refl

abbrev swapped_burst : List ℕ
swapped_burst = 20 ∷ 31 ∷ 25 ∷ []

verify_checksum_burst_example :
    verify_checksum (codes "a") ((10 ∷ 28 ∷ []) ++ (swapped_burst ++ (31 ∷ []))) ≡ false
verify_checksum_burst_example =
    verify_checksum_burst (codes "a") (10 ∷ 28 ∷ []) checksum_burst swapped_burst (31 ∷ [])
      (omega arith) (omega arith) (omega arith) refl (omega arith) checksum_valid
      (λ e. omega (arith, ap (λ (t : List ℕ). get_or t 0 0) e))

convert_bits-Padded_example : Padded 5 (bits_of 8 some_bytes) (convert_bits some_bytes 8 5 true)
convert_bits-Padded_example =
    convert_bits-Padded 8 5 some_bytes (omega arith) (omega arith) (omega arith) (omega arith)

-- The text of BIP-173, read.
a12uel5l_read : decode (codes "A12UEL5L") ≡ ok (codes "A", [])
unfolding decode same_text lower_byte upper_byte last_index decode_at bad_character read_symbols
    index_rune verify_checksum convert_bits
a12uel5l_read = refl

encode-decode_example :
    (t : List ℕ) × (encode (codes "A") [] ≡ ok t) × (to_lower t ≡ to_lower (codes "A12UEL5L"))
encode-decode_example = encode-decode (codes "A12UEL5L") (codes "A") [] a12uel5l_read
