-- ===== src/Bech32/Codec.antt =====
-- `Encode` and `Decode` of internal/bech32/bech32.go on texts of ASCII bytes.
pub mod Symbols
pub mod RoundTrip
pub mod Accepted
pub mod Canonical
use go_cardano_serialization.Base.{
  ℕ, zero, suc, ◌+◌, ◌-◌, Bool, true, false, not, ◌&&◌, ◌||◌, List, [], ◌∷◌, ◌++◌, Option, none,
  some, leb, ltb, if◌then◌else◌, length, get_elem?, take, drop, ok, err, panic, ◌>>=◌, ◌>>◌, guard,
  in_range, u8, Result,
}
use go_cardano_serialization.Bech32.Text.{
  Error, invalid_hrp, invalid_hrp_character, mixed_case_hrp, mixed_case, invalid_separator,
  invalid_data_character, invalid_checksum, charset, to_lower, to_upper, same_text, index_rune,
  last_index, bad_character,
}
use go_cardano_serialization.Bech32.Checksum.{create_checksum, verify_checksum}
use go_cardano_serialization.Bech32.ConvertBits.{convert_bits}

-- `ret.WriteByte(charset[p])` for each p; an index past the alphabet panics.
unfoldable pub write_symbols : List ℕ → Result Error (List ℕ)
write_symbols [] = ok []
write_symbols (p ∷ ps) = elim (get_elem? charset p) [
  | none ↦ panic
  | some c ↦ write_symbols ps >>= λ cs. ok (c ∷ cs)
]

-- The checks of the human-readable part in `Encode`, in their order.
unfoldable pub check_hrp : List ℕ → Result Error (Unit {0})
check_hrp hrp = if ltb (length hrp) 1 then err (invalid_hrp hrp) else elim (bad_character 0 hrp) [
  | some (p, c) ↦ err (invalid_hrp_character p c)
  | none ↦
      if not (same_text (to_upper hrp) hrp) && not (same_text (to_lower hrp) hrp)
      then err (mixed_case_hrp hrp)
      else ok tt
]

unfoldable pub encode : List ℕ → List ℕ → Result Error (List ℕ)
encode hrp payload = do
  values ← convert_bits payload 8 5 true
  check_hrp hrp
  let is_lower = same_text (to_lower hrp) hrp
  let low = to_lower hrp
  symbols ← write_symbols values
  checksum ← write_symbols (create_checksum low values)
  let text = low ++ (b'1' ∷ (symbols ++ checksum))
  ok (if is_lower then text else to_upper text)

-- The loop over `s[pos+1:]`; `p` counts its bytes.
unfoldable pub read_symbols : ℕ → List ℕ → Result Error (List ℕ)
read_symbols p [] = ok []
read_symbols p (c ∷ cs) = elim (index_rune charset c) [
  | none ↦ err (invalid_data_character p c)
  | some d ↦ read_symbols (p + 1) cs >>= λ ds. ok (u8 d ∷ ds)
]

-- `Decode` from the separator on, with `pos` found.
unfoldable pub decode_at : List ℕ → ℕ → Result Error (List ℕ × List ℕ)
decode_at s pos = elim (bad_character 0 (take pos s)) [
  | some (p, c) ↦ err (invalid_hrp_character p c)
  | none ↦ do
    values ← read_symbols 0 (drop (pos + 1) (to_lower s))
    guard (verify_checksum (take pos s) values) invalid_checksum
    in_range (leb 6 (length values))
    payload ← convert_bits (take (length values - 6) values) 5 8 false
    ok (take pos s, payload)
]

unfoldable pub decode : List ℕ → Result Error (List ℕ × List ℕ)
decode s =
    if not (same_text (to_lower s) s) && not (same_text (to_upper s) s)
    then err mixed_case
    else elim (last_index s b'1') [
      | none ↦ err (invalid_separator none (length s))
      | some pos ↦
          if ltb pos 1 || ltb (length s) (pos + 7)
          then err (invalid_separator (some pos) (length s))
          else decode_at s pos
    ]
