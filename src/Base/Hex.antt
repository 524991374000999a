-- ===== src/Base/Hex.antt =====
-- `encoding/hex`: two digits to a byte.
pub mod RoundTrip
use go_cardano_serialization.Base.Tests.{leb, if◌then◌else◌}
use Prim.Native.Nat.{ℕ, ◌+◌, ◌-◌, ◌*◌, ◌/◌, ◌%◌}
use mathlib.Core.Bool.{◌&&◌}
use mathlib.Core.List.{List, [], ◌∷◌}
use mathlib.Core.Option.{Option, none, some}

-- The value of a digit, in either case.
unfoldable pub from_hex_char : ℕ → Option ℕ
from_hex_char c =
    if leb b'0' c && leb c b'9'
    then some (c - b'0')
    else if leb b'a' c && leb c b'f'
    then some (c - b'a' + 10)
    else if leb b'A' c && leb c b'F'
    then some (c - b'A' + 10)
    else none

-- `hex.DecodeString`, with `none` for an odd length or a byte that is no digit.
unfoldable pub decode_string : List ℕ → Option (List ℕ)
decode_string [] = some []
decode_string (c ∷ []) = none
decode_string (c ∷ d ∷ s) = elim (from_hex_char c) [
  | none ↦ none
  | some hi ↦ elim (from_hex_char d) [
    | none ↦ none
    | some lo ↦ elim (decode_string s) [ none ↦ none | some bytes ↦ some ((hi * 16 + lo) ∷ bytes) ]
  ]
]

-- A digit below 16, in lower case.
unfoldable pub to_hex_char : ℕ → ℕ
to_hex_char n = if leb n 9 then b'0' + n else b'a' + (n - 10)

-- `hex.EncodeToString`
unfoldable pub encode_to_string : List ℕ → List ℕ
encode_to_string [] = []
encode_to_string (x ∷ xs) = to_hex_char (x / 16) ∷ to_hex_char (x % 16) ∷ encode_to_string xs

-- The bytes that `hex.DecodeString` returns with or without an error: those of the digit pairs in
-- front of the first that is none.
unfoldable pub decode_prefix : List ℕ → List ℕ
decode_prefix [] = []
decode_prefix (c ∷ []) = []
decode_prefix (c ∷ d ∷ s) = elim (from_hex_char c) [
  | none ↦ []
  | some hi ↦ elim (from_hex_char d) [ none ↦ [] | some lo ↦ (hi * 16 + lo) ∷ decode_prefix s ]
]
