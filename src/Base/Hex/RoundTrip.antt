-- ===== src/Base/Hex/RoundTrip.antt =====
-- `hex.DecodeString` reads what `hex.EncodeToString` writes.
use go_cardano_serialization.Base.Bits.Table.{all_below, all_below-apply}
use go_cardano_serialization.Base.Hex.{from_hex_char, to_hex_char, decode_string, encode_to_string}
use go_cardano_serialization.Base.Lists.{All}
use go_cardano_serialization.Base.Tests.{◌==◌, ==_iff}
use go_cardano_serialization.Base.Words.{IsByte}
use Prim.Native.Nat.{ℕ, ◌/◌, ◌%◌, ◌<◌}
use mathlib.Core.Path.{◌≡◌, refl, ap, ap₂}
use mathlib.Core.Bool.{true, false}
use mathlib.Core.List.{List, [], ◌∷◌}
use mathlib.Core.Option.{Option, none, some}
use native.Mathlib.Omega.{arith}

digit_table :
    all_below 16 (λ n. elim (from_hex_char (to_hex_char n)) [ none ↦ false | some m ↦ m == n ])
    ≡ true
unfolding all_below from_hex_char to_hex_char
digit_table = refl

from_hex_char-to_hex_char : (n : ℕ) → n < 16 → from_hex_char (to_hex_char n) ≡ some n
from_hex_char-to_hex_char n h = found (from_hex_char (to_hex_char n)) (
    all_below-apply 16
      (λ n. elim (from_hex_char (to_hex_char n)) [ none ↦ false | some m ↦ m == n ]) n digit_table
      h)
  where
    found : (o : Option ℕ) → elim o [ none ↦ false | some m ↦ m == n ] ≡ true → o ≡ some n
    found none e = cc
    found (some m) e = ap some ((==_iff m n).0 e)

-- The digits of bytes are decoded to the bytes.
pub decode_string-encode_to_string :
    (bytes : List ℕ) → All IsByte bytes → decode_string (encode_to_string bytes) ≡ some bytes
unfolding decode_string encode_to_string
decode_string-encode_to_string [] h = refl
decode_string-encode_to_string (x ∷ xs) (hx, hs) =
    rw (from_hex_char-to_hex_char (x / 16) (omega arith), decode_string)
      (rw (from_hex_char-to_hex_char (x % 16) (omega arith))
        (rw (decode_string-encode_to_string xs hs) (ap some (ap₂ ◌∷◌ (omega arith) refl))))
