-- ===== src/Bech32/Codec/Symbols.antt =====
-- The characters of a text: lower-case human-readable parts and the alphabet of the values.
use go_cardano_serialization.Base.{
  ℕ, ◌+◌, ◌≤◌, ◌<◌, ◌≡◌, refl, ap, ap₂, arith, Bool, true, false, List, [], ◌∷◌, ◌++◌, length, map,
  All, leb, ltb, ◌==◌, ==_iff, ok, IsByte, not, ◌&&◌, ◌||◌, ◌⊎◌, Option, none, some, get_or,
  get_elem?, ◌≢◌,
}
use go_cardano_serialization.Base.Bits.Table.{all_below, all_below-apply}
use go_cardano_serialization.Bech32.Text.{
  charset, lower_byte, to_lower, same_text, index_rune, last_index, bad_character,
}
use go_cardano_serialization.Bech32.Checksum.Linear.{IsSymbol}
use go_cardano_serialization.Bech32.Codec.{write_symbols, read_symbols}

-- A printable byte that is not an upper-case letter.
abbrev pub IsLowerCharacter : ℕ → Type 0
IsLowerCharacter c = (33 ≤ c) × (c ≤ 126) × ((c < b'A') ⊎ (b'Z' < c))

pub same_text_refl : (s : List ℕ) → same_text s s ≡ true
unfolding same_text
same_text_refl [] = refl
same_text_refl (x ∷ xs) = rw (same_text_refl xs, (==_iff x x).1 refl)

pub lower_byte-IsLowerCharacter : (c : ℕ) → IsLowerCharacter c → lower_byte c ≡ c
unfolding lower_byte
lower_byte-IsLowerCharacter c h = ground arith

pub to_lower-IsLowerCharacter : (s : List ℕ) → All IsLowerCharacter s → to_lower s ≡ s
to_lower-IsLowerCharacter [] h = refl
to_lower-IsLowerCharacter (c ∷ s) (hc, hs) =
    ap₂ ◌∷◌ (lower_byte-IsLowerCharacter c hc) (to_lower-IsLowerCharacter s hs)

pub bad_character-IsLowerCharacter :
    (p : ℕ) (s : List ℕ) → All IsLowerCharacter s → bad_character p s ≡ none
unfolding bad_character
bad_character-IsLowerCharacter p [] h = refl
bad_character-IsLowerCharacter p (c ∷ s) (hc, hs) =
    ground (arith, bad_character-IsLowerCharacter (p + 1) s hs)

pub characters-IsByte : (s : List ℕ) → All IsLowerCharacter s → All IsByte s
characters-IsByte [] h = tt
characters-IsByte (c ∷ s) (hc, hs) = (omega arith, characters-IsByte s hs)

-- The character of a five-bit value.
abbrev pub symbol : ℕ → ℕ
symbol v = get_or charset v 0

good_symbol : ℕ → Bool
good_symbol v =
    (leb 33 (symbol v) && leb (symbol v) 126)
    && ((ltb (symbol v) b'A' || ltb b'Z' (symbol v)) && not (symbol v == b'1'))

symbol_table : all_below 32 (λ v. good_symbol v) ≡ true
unfolding all_below good_symbol
symbol_table = refl

pub symbol_lem : (v : ℕ) → IsSymbol v → IsLowerCharacter (symbol v) × (symbol v ≢ b'1')
unfolding good_symbol
symbol_lem v h =
    let t : good_symbol v ≡ true = all_below-apply 32 (λ v. good_symbol v) v symbol_table h in
    ground (arith, t)

index_table :
    all_below 32 (λ v. elim (index_rune charset (symbol v)) [ none ↦ false | some d ↦ d == v ])
    ≡ true
unfolding all_below index_rune
index_table = refl

pub index_rune-symbol : (v : ℕ) → IsSymbol v → index_rune charset (symbol v) ≡ some v
index_rune-symbol v h = found (index_rune charset (symbol v)) (
    all_below-apply 32
      (λ v. elim (index_rune charset (symbol v)) [ none ↦ false | some d ↦ d == v ]) v index_table
      h)
  where
    found : (o : Option ℕ) → elim o [ none ↦ false | some d ↦ d == v ] ≡ true → o ≡ some v
    found none e = cc
    found (some d) e = ap some ((==_iff d v).0 e)

get_table :
    all_below 32 (λ v. elim (get_elem? charset v) [ none ↦ false | some c ↦ c == symbol v ]) ≡ true
unfolding all_below
get_table = refl

pub get_elem?-charset : (v : ℕ) → IsSymbol v → get_elem? charset v ≡ some (symbol v)
get_elem?-charset v h = found (get_elem? charset v) (
    all_below-apply 32 (λ v. elim (get_elem? charset v) [ none ↦ false | some c ↦ c == symbol v ]) v
      get_table h)
  where
    found :
        (o : Option ℕ)
        → elim o [ none ↦ false | some c ↦ c == symbol v ] ≡ true
        → o ≡ some (symbol v)
    found none e = cc
    found (some c) e = ap some ((==_iff c (symbol v)).0 e)

pub write_symbols-IsSymbol : (vs : List ℕ) → All IsSymbol vs → write_symbols vs ≡ ok (map symbol vs)
unfolding write_symbols
write_symbols-IsSymbol [] h = refl
write_symbols-IsSymbol (v ∷ vs) (hv, hvs) =
    rw (get_elem?-charset v hv, write_symbols) (rw (write_symbols-IsSymbol vs hvs))

pub read_symbols-symbol :
    (p : ℕ) (vs : List ℕ) → All IsSymbol vs → read_symbols p (map symbol vs) ≡ ok vs
unfolding read_symbols
read_symbols-symbol p [] h = refl
read_symbols-symbol p (v ∷ vs) (hv, hvs) =
    rw (index_rune-symbol v hv, read_symbols)
      (rw (read_symbols-symbol (p + 1) vs hvs) (ap ok (ap₂ ◌∷◌ (omega arith) refl)))

pub last_index-absent : (s : List ℕ) → All (λ c. c ≢ b'1') s → last_index s b'1' ≡ none
unfolding last_index
last_index-absent [] h = refl
last_index-absent (c ∷ s) (hc, hs) = ground (arith, last_index-absent s hs)

-- The last separator is the one after the human-readable part.
pub last_index-separator :
    (hrp s : List ℕ)
    → All (λ c. c ≢ b'1') s
    → last_index (hrp ++ (b'1' ∷ s)) b'1' ≡ some (length hrp)
unfolding last_index
last_index-separator [] s h = rw (last_index-absent s h)
last_index-separator (c ∷ hrp) s h = rw (last_index-separator hrp s h)
