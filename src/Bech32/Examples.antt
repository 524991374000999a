-- ===== src/Bech32/Examples.antt =====
-- Runs of internal/bech32/bech32.go on the addresses of address/address_test.go.
use go_cardano_serialization.Base.{ℕ, ◌≡◌, refl, List, [], ◌∷◌, ok, err}
use go_cardano_serialization.Bech32.Text.{
  codes, invalid_checksum, mixed_case, same_text, bad_character, lower_byte, upper_byte, index_rune,
  last_index,
}
use go_cardano_serialization.Bech32.Checksum.{create_checksum, verify_checksum}
use go_cardano_serialization.Bech32.ConvertBits.{convert_bits}
use go_cardano_serialization.Bech32.Codec.{
  encode, decode, decode_at, check_hrp, write_symbols, read_symbols,
}

abbrev stake_bytes : List ℕ
stake_bytes =
    225 ∷ 92 ∷ 125 ∷ 42 ∷ 103 ∷ 146 ∷ 229 ∷ 154 ∷ 39 ∷ 152 ∷ 138 ∷ 190 ∷ 167 ∷ 236 ∷ 0 ∷ 99 ∷ 187
    ∷ 15 ∷ 133 ∷ 153 ∷ 151 ∷ 116 ∷ 30 ∷ 241 ∷ 19 ∷ 158 ∷ 68 ∷ 34 ∷ 150 ∷ []

abbrev stake_text : List ℕ
stake_text = codes "stake1u9w862n8jtje5fuc32l20mqqvwaslpveja6paugnnezz99shxsy55"

encode_stake : encode (codes "stake") stake_bytes ≡ ok stake_text
unfolding encode convert_bits check_hrp write_symbols create_checksum same_text bad_character
    lower_byte upper_byte
encode_stake = refl

decode_stake : decode stake_text ≡ ok (codes "stake", stake_bytes)
unfolding decode decode_at convert_bits read_symbols index_rune last_index verify_checksum same_text
    bad_character lower_byte upper_byte
decode_stake = refl

decode_cut :
    decode (codes "stake1u9w862n8jtje5fuc32l20mqqvwaslpveja6paugnnezz99shxsy")
    ≡ err invalid_checksum
unfolding decode decode_at convert_bits read_symbols index_rune last_index verify_checksum same_text
    bad_character lower_byte upper_byte
decode_cut = refl

decode_mixed : decode (codes "Stake1u9w862") ≡ err mixed_case
unfolding decode decode_at convert_bits read_symbols index_rune last_index verify_checksum same_text
    bad_character lower_byte upper_byte
decode_mixed = refl
