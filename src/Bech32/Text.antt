-- ===== src/Bech32/Text.antt =====
-- The alphabet of internal/bech32/bech32.go and the `strings` functions that the file calls.
-- A Go string is its list of bytes. The letter cases are those of ASCII.
use Prim.Native.Char.{code}
use Prim.Native.String.{String}
use go_cardano_serialization.Base.{
  ℕ, suc, ◌+◌, ◌-◌, Bool, true, false, ◌&&◌, List, [], ◌∷◌, map, Option, none, some, leb, ◌==◌,
  if◌then◌else◌,
}

abbrev pub codes : String → List ℕ
codes String.[] = []
codes (String.◌∷◌ c s) = code c ∷ codes s

pub data Error : Type 0 where
  invalid_data_range : ℕ → ℕ → ℕ → Error
  illegal_zero_padding non_zero_padding : Error
  invalid_hrp : List ℕ → Error
  invalid_hrp_character : ℕ → ℕ → Error
  mixed_case_hrp : List ℕ → Error
  mixed_case : Error
  invalid_separator : Option ℕ → ℕ → Error
  invalid_data_character : ℕ → ℕ → Error
  invalid_checksum : Error

abbrev pub charset : List ℕ
charset = codes "qpzry9x8gf2tvdw0s3jn54khce6mua7l"

unfoldable pub lower_byte : ℕ → ℕ
lower_byte c = if leb b'A' c && leb c b'Z' then c + 32 else c

unfoldable pub upper_byte : ℕ → ℕ
upper_byte c = if leb b'a' c && leb c b'z' then c - 32 else c

-- `strings.ToLower` and `strings.ToUpper`
abbrev pub to_lower : List ℕ → List ℕ
to_lower = map lower_byte

abbrev pub to_upper : List ℕ → List ℕ
to_upper = map upper_byte

-- `==` on strings
unfoldable pub same_text : List ℕ → List ℕ → Bool
same_text [] [] = true
same_text (x ∷ xs) (y ∷ ys) = x == y && same_text xs ys
same_text _ _ = false

-- `strings.IndexRune`; `none` is Go's -1.
unfoldable pub index_rune : List ℕ → ℕ → Option ℕ
index_rune [] c = none
index_rune (x ∷ xs) c =
    let rest = index_rune xs c in
    if x == c then some 0 else elim rest [ none ↦ none | some i ↦ some (suc i) ]

-- `strings.LastIndex` for a text of one byte
unfoldable pub last_index : List ℕ → ℕ → Option ℕ
last_index [] c = none
last_index (x ∷ xs) c = elim (last_index xs c) [
  | some i ↦ some (suc i)
  | none ↦ if x == c then some 0 else none
]

-- The loop that refuses the first byte outside the printable range, with its position.
unfoldable pub bad_character : ℕ → List ℕ → Option (ℕ × ℕ)
bad_character p [] = none
bad_character p (c ∷ cs) =
    let rest = bad_character (p + 1) cs in if leb 33 c && leb c 126 then rest else some (p, c)
