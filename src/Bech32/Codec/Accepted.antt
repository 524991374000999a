-- ===== src/Bech32/Codec/Accepted.antt =====
-- What a text has that `Decode` accepts.
use mathlib.Core.Path.{subst}
use mathlib.Core.Option.{some-injective}
use go_cardano_serialization.Base.{
  ok-injective, ℕ, suc, ◌+◌, ◌-◌, ◌≤◌, ◌<◌, ◌≡◌, refl, sym, ap, ap₂, ◌∙◌, arith, Bool, true, false,
  not, ◌&&◌, ◌||◌, List, [], ◌∷◌, ◌++◌, map, Option, none, some, leb, ltb, ◌==◌, ==_iff, Bool-cases,
  inl, inr, if◌then◌else◌, length, get_or, take, drop, All, ◌⊎◌, ok, err, ◌>>=◌, ◌>>◌, guard,
  in_range, u8, Result, bind_ok, guard_ok, in_range_ok, if_err_ok,
}
use go_cardano_serialization.Bech32.Text.{
  Error, invalid_hrp_character, invalid_separator, invalid_data_character, invalid_checksum,
  charset, to_lower, to_upper, same_text, index_rune, last_index, bad_character,
}
use go_cardano_serialization.Bech32.Checksum.{verify_checksum}
use go_cardano_serialization.Bech32.Checksum.Linear.{IsSymbol}
use go_cardano_serialization.Bech32.ConvertBits.{convert_bits}
use go_cardano_serialization.Bech32.Codec.{read_symbols, decode_at, decode}
use go_cardano_serialization.Bech32.Codec.Symbols.{symbol}

found_below :
    (x c d : ℕ) (xs : List ℕ) (o : Option ℕ)
    → ((i : ℕ) → o ≡ some i → (i < length xs) × (get_or xs i 0 ≡ c))
    → (if x == c then some 0 else elim o [ none ↦ none | some i ↦ some (suc i) ]) ≡ some d
    → (d < suc (length xs)) × (get_or (x ∷ xs) d 0 ≡ c)
found_below x c d xs o below = elim (Bool-cases (x == c)) [
  | inl here ↦ rw here (λ e.
      let zero_d : 0 ≡ d = some-injective 0 d e in
      subst (λ n. (n < suc (length xs)) × (get_or (x ∷ xs) n 0 ≡ c)) zero_d
        (omega arith, (==_iff x c).0 here))
  | inr not_here ↦ rw not_here (later o below)
]
  where
    later :
        (o : Option ℕ)
        → ((i : ℕ) → o ≡ some i → (i < length xs) × (get_or xs i 0 ≡ c))
        → elim o [ none ↦ none | some i ↦ some (suc i) ] ≡ some d
        → (d < suc (length xs)) × (get_or (x ∷ xs) d 0 ≡ c)
    later none below e = cc
    later (some i) below e =
        subst (λ n. (n < suc (length xs)) × (get_or (x ∷ xs) n 0 ≡ c)) (some-injective (suc i) d e)
          (let h = below i refl in (omega (arith, h.0), h.1))

index_rune-found :
    (xs : List ℕ) (c d : ℕ) → index_rune xs c ≡ some d → (d < length xs) × (get_or xs d 0 ≡ c)
unfolding index_rune
index_rune-found [] c d e = cc
index_rune-found (x ∷ xs) c d e = found_below x c d xs (index_rune xs c) (index_rune-found xs c) e

-- A text at the place where its last separator was found.
abbrev pub Separated : List ℕ → ℕ → ℕ → Type 0
Separated s c i = (s ≡ take i s ++ (c ∷ drop (i + 1) s)) × (i < length s)

later-Separated :
    (x c i : ℕ) (xs : List ℕ) (o : Option ℕ)
    → ((j : ℕ) → o ≡ some j → Separated xs c j)
    → elim o [ some j ↦ some (suc j) | none ↦ if x == c then some 0 else none ] ≡ some i
    → Separated (x ∷ xs) c i
later-Separated x c i xs (some j) below e =
    subst (Separated (x ∷ xs) c) (some-injective (suc j) i e) (
      let h = below j refl in
      (
        ap (◌∷◌ x) h.0
            ∙ ap (λ (n : ℕ). x ∷ (take j xs ++ (c ∷ drop n (x ∷ xs)))) {x = suc (j + 1)}
                {y = suc j + 1} (omega arith),
        omega (arith, h.1),
      ))
later-Separated x c i xs none below e = elim (Bool-cases (x == c)) [
  | inl here ↦
      subst (Separated (x ∷ xs) c) (some-injective 0 i (ground (arith, e, here)))
        (ap (λ (y : ℕ). y ∷ xs) ((==_iff x c).0 here), omega arith)
  | inr not_here ↦ ground (arith, e, not_here)
]

pub last_index-Separated : (s : List ℕ) (c i : ℕ) → last_index s c ≡ some i → Separated s c i
unfolding last_index
last_index-Separated [] c i e = cc
last_index-Separated (x ∷ xs) c i e =
    later-Separated x c i xs (last_index xs c) (last_index-Separated xs c) e

symbol_of : (c d : ℕ) → index_rune charset c ≡ some d → IsSymbol (u8 d) × (c ≡ symbol (u8 d))
symbol_of c d e =
    let h = index_rune-found charset c d e in
    let same : u8 d ≡ d = omega (arith, h.0) in (omega (arith, h.0), sym h.1 ∙ ap symbol (sym same))

-- The values that were read are below 32, and the text consists of their characters.
pub read_symbols-reads :
    (p : ℕ) (cs values : List ℕ)
    → read_symbols p cs ≡ ok values
    → All IsSymbol values × (cs ≡ map symbol values)
unfolding read_symbols
read_symbols-reads p [] [] e = (tt, refl)
read_symbols-reads p [] (v ∷ vs) e = cc
read_symbols-reads p (c ∷ cs) values e =
    by_index (index_rune charset c) refl (read_symbols (p + 1) cs) (read_symbols-reads (p + 1) cs) e
  where
    by_index :
        (o : Option ℕ)
        → index_rune charset c ≡ o
        → (rest : Result Error (List ℕ))
        → ((vs : List ℕ) → rest ≡ ok vs → All IsSymbol vs × (cs ≡ map symbol vs))
        → elim o [
          | none ↦ err (invalid_data_character p c)
          | some d ↦ rest >>= λ ds. ok (u8 d ∷ ds)
        ]
          ≡ ok values
        → All IsSymbol values × (c ∷ cs ≡ map symbol values)
    by_index none at rest ih e = cc
    by_index (some d) at rest ih e =
        let (ds, got, out) = bind_ok rest (λ ds. ok (u8 d ∷ ds)) values e in
        let here = symbol_of c d at in
        let later = ih ds got in
        subst (λ t. All IsSymbol t × (c ∷ cs ≡ map symbol t)) (ok-injective out)
          ((here.0, later.0), ap₂ ◌∷◌ here.1 later.1)

-- What `decode_at` has read.
pub record Read (s : List ℕ) (pos : ℕ) (hrp payload : List ℕ) : Type 0 where
  pub all : List ℕ
  pub printable : bad_character 0 (take pos s) ≡ none
  pub reads : read_symbols 0 (drop (pos + 1) (to_lower s)) ≡ ok all
  pub valid : verify_checksum (take pos s) all ≡ true
  pub long : leb 6 (length all) ≡ true
  pub back : convert_bits (take (length all - 6) all) 5 8 false ≡ ok payload
  pub front : take pos s ≡ hrp

decode_at-Read :
    (s : List ℕ) (pos : ℕ) (hrp payload : List ℕ)
    → decode_at s pos ≡ ok (hrp, payload)
    → Read s pos hrp payload
unfolding decode_at
decode_at-Read s pos hrp payload e = by_character (bad_character 0 (take pos s)) refl e
  where
    rest : Result Error (List ℕ × List ℕ)
    rest = do
      values ← read_symbols 0 (drop (pos + 1) (to_lower s))
      guard (verify_checksum (take pos s) values) invalid_checksum
      in_range (leb 6 (length values))
      payload ← convert_bits (take (length values - 6) values) 5 8 false
      ok (take pos s, payload)

    from_values :
        bad_character 0 (take pos s) ≡ none → rest ≡ ok (hrp, payload) → Read s pos hrp payload
    from_values printable e =
        let (all, reads, e1) = bind_ok (read_symbols 0 (drop (pos + 1) (to_lower s))) _ _ e in
        let (valid, e2) = guard_ok (verify_checksum (take pos s) all) _ _ _ e1 in
        let (long, e3) = in_range_ok (leb 6 (length all)) _ _ e2 in
        let (out, back, e4) = bind_ok (convert_bits (take (length all - 6) all) 5 8 false) _ _ e3 in
        let both = ok-injective e4 in
        record {
          all = all;
          printable = printable;
          reads = reads;
          valid = valid;
          long = long;
          back = back ∙ ap ok (ap (λ (r : List ℕ × List ℕ). r.1) both);
          front = ap (λ (r : List ℕ × List ℕ). r.0) both;
        }

    by_character :
        (o : Option (ℕ × ℕ))
        → bad_character 0 (take pos s) ≡ o
        → elim o [ some (p, c) ↦ err (invalid_hrp_character p c) | none ↦ rest ] ≡ ok (hrp, payload)
        → Read s pos hrp payload
    by_character (some (p, c)) at e = cc
    by_character none at e = from_values at e

-- A text in one letter case, with its last separator in a place that leaves room for both parts.
pub record Accepted (s hrp payload : List ℕ) : Type 0 where
  pub pos : ℕ
  pub one_case : (same_text (to_lower s) s ≡ true) ⊎ (same_text (to_upper s) s ≡ true)
  pub separator : last_index s b'1' ≡ some pos
  pub has_hrp : 1 ≤ pos
  pub read : Read s pos hrp payload

one_of : (a b : Bool) → (not a && not b) ≡ false → (a ≡ true) ⊎ (b ≡ true)
one_of true b h = inl refl
one_of false true h = inr refl
one_of false false h = cc

pub decode-Accepted :
    (s hrp payload : List ℕ) → decode s ≡ ok (hrp, payload) → Accepted s hrp payload
unfolding decode
decode-Accepted s hrp payload e =
    let (cased, e1) =
      if_err_ok (not (same_text (to_lower s) s) && not (same_text (to_upper s) s)) _ _ _ e in
    by_separator (last_index s b'1') refl cased e1
  where
    found : (pos : ℕ) → Result Error (List ℕ × List ℕ)
    found pos =
        if ltb pos 1 || ltb (length s) (pos + 7)
        then err (invalid_separator (some pos) (length s))
        else decode_at s pos

    by_separator :
        (o : Option ℕ)
        → last_index s b'1' ≡ o
        → (not (same_text (to_lower s) s) && not (same_text (to_upper s) s)) ≡ false
        → elim o [ none ↦ err (invalid_separator none (length s)) | some pos ↦ found pos ]
          ≡ ok (hrp, payload)
        → Accepted s hrp payload
    by_separator none at cased e = cc
    by_separator (some pos) at cased e =
        let (room, e1) = if_err_ok (ltb pos 1 || ltb (length s) (pos + 7)) _ _ _ e in
        record {
          pos = pos;
          one_case = one_of (same_text (to_lower s) s) (same_text (to_upper s) s) cased;
          separator = at;
          has_hrp = ground (arith, room);
          read = decode_at-Read s pos hrp payload e1;
        }
