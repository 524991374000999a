-- ===== src/Bech32/Codec/Canonical.antt =====
-- A text that `Decode` accepts is the one that `Encode` writes for what was read.
use mathlib.Core.List.{map-append}
use mathlib.Core.Path.{subst}
use go_cardano_serialization.Base.{
  ℕ, zero, suc, ◌+◌, ◌-◌, ◌≤◌, ◌<◌, ◌≡◌, refl, sym, ap, ap₂, ◌∙◌, arith, Bool, true, ◌&&◌, List, [],
  ◌∷◌, ◌++◌, length, take, drop, map, All, All-split, leb, ◌==◌, Bool-cases, ◌⊎◌, inl, inr,
  if◌then◌else◌, ok, IsByte, none, take-append-drop, length-drop, length-take_le,
}
use go_cardano_serialization.Bech32.Text.{
  lower_byte, upper_byte, to_lower, to_upper, same_text, bad_character,
}
use go_cardano_serialization.Bech32.Checksum.{create_checksum, verify_checksum}
use go_cardano_serialization.Bech32.Checksum.Linear.{IsSymbol}
use go_cardano_serialization.Bech32.Checksum.Valid.{create_checksum-IsSymbol}
use go_cardano_serialization.Bech32.Checksum.Burst.{create_checksum_unique}
use go_cardano_serialization.Bech32.ConvertBits.{convert_bits}
use go_cardano_serialization.Bech32.ConvertBits.Canonical.{convert_bits-canonical}
use go_cardano_serialization.Bech32.Codec.{check_hrp, encode, decode}
use go_cardano_serialization.Bech32.Codec.Symbols.{symbol, write_symbols-IsSymbol}
use go_cardano_serialization.Bech32.Codec.Accepted.{
  Accepted, decode-Accepted, last_index-Separated, read_symbols-reads,
}

lower_byte_idem : (c : ℕ) → lower_byte (lower_byte c) ≡ lower_byte c
unfolding lower_byte
lower_byte_idem c = ground arith

lower_byte-upper_byte : (c : ℕ) → lower_byte (upper_byte c) ≡ lower_byte c
unfolding lower_byte upper_byte
lower_byte-upper_byte c = ground arith

to_lower_idem : (s : List ℕ) → to_lower (to_lower s) ≡ to_lower s
to_lower_idem [] = refl
to_lower_idem (c ∷ s) = ap₂ ◌∷◌ (lower_byte_idem c) (to_lower_idem s)

to_lower-to_upper : (s : List ℕ) → to_lower (to_upper s) ≡ to_lower s
to_lower-to_upper [] = refl
to_lower-to_upper (c ∷ s) = ap₂ ◌∷◌ (lower_byte-upper_byte c) (to_lower-to_upper s)

to_lower-drop : (n : ℕ) (s : List ℕ) → to_lower (drop n s) ≡ drop n (to_lower s)
to_lower-drop zero s = refl
to_lower-drop (suc n) [] = refl
to_lower-drop (suc n) (c ∷ s) = to_lower-drop n s

printable-IsByte : (p : ℕ) (s : List ℕ) → bad_character p s ≡ none → All IsByte s
unfolding bad_character
printable-IsByte p [] h = tt
printable-IsByte p (c ∷ s) h =
    let here : (leb 33 c && leb c 126) ≡ true = ground (arith, h) in
    (ground (arith, here), printable-IsByte (p + 1) s (ground (arith, h, here)))

-- A front of a text in one letter case is in that case.
same_text-take :
    (f : ℕ → ℕ) (n : ℕ) (s : List ℕ)
    → same_text (map f s) s ≡ true
    → same_text (map f (take n s)) (take n s) ≡ true
unfolding same_text
same_text-take f zero s h = refl
same_text-take f (suc n) [] h = refl
same_text-take f (suc n) (c ∷ s) h =
    let here : (f c == c) ≡ true = ground (arith, h) in
    rw here (same_text-take f n s (ground (arith, h, here)))

one_case-take :
    (n : ℕ) (s : List ℕ)
    → (same_text (to_lower s) s ≡ true) ⊎ (same_text (to_upper s) s ≡ true)
    → (same_text (to_lower (take n s)) (take n s) ≡ true)
      ⊎ (same_text (to_upper (take n s)) (take n s) ≡ true)
one_case-take n s (inl low) = inl (same_text-take lower_byte n s low)
one_case-take n s (inr up) = inr (same_text-take upper_byte n s up)

check_hrp_accepts :
    (hrp : List ℕ)
    → 1 ≤ length hrp
    → bad_character 0 hrp ≡ none
    → (same_text (to_lower hrp) hrp ≡ true) ⊎ (same_text (to_upper hrp) hrp ≡ true)
    → check_hrp hrp ≡ ok tt
unfolding check_hrp
check_hrp_accepts hrp pos clean (inl low) = ground (arith, clean, low)
check_hrp_accepts hrp pos clean (inr up) = ground (arith, clean, up)

-- What `Encode` writes, before it is put in the case of the human-readable part.
abbrev written : List ℕ → List ℕ → List ℕ
written hrp values =
    to_lower hrp
    ++ (b'1' ∷ (map symbol values ++ map symbol (create_checksum (to_lower hrp) values)))

encode-written :
    (hrp payload values : List ℕ)
    → check_hrp hrp ≡ ok tt
    → All IsSymbol values
    → convert_bits payload 8 5 true ≡ ok values
    → encode hrp payload
      ≡ ok (
          if same_text (to_lower hrp) hrp
          then written hrp values
          else to_upper (written hrp values))
unfolding encode
encode-written hrp payload values clean hv e =
    rw
      (
        e,
        clean,
        write_symbols-IsSymbol values hv,
        write_symbols-IsSymbol (create_checksum (to_lower hrp) values)
            (create_checksum-IsSymbol (to_lower hrp) values),
      )
      refl

create_checksum-to_lower :
    (hrp values : List ℕ) → create_checksum (to_lower hrp) values ≡ create_checksum hrp values
unfolding create_checksum
create_checksum-to_lower hrp values = rw (to_lower_idem hrp) refl

-- The text of the values and of their only checksum.
data_part :
    (s hrp payload : List ℕ) (a : Accepted s hrp payload)
    → let all = a.read.all in
      let values = take (length all - 6) all in
      All IsSymbol values
      × (drop (a.pos + 1) (to_lower s)
          ≡ map symbol values ++ map symbol (create_checksum (to_lower hrp) values))
data_part s hrp payload a = (
  halves.0,
  reading.1
      ∙ ap (map symbol) (
          sym (take-append-drop n all)
          ∙ ap (◌++◌ (take n all)) (sum_unique ∙ sym (create_checksum-to_lower hrp (take n all))))
      ∙ map-append symbol (take n all) (create_checksum (to_lower hrp) (take n all)),
)
  where
    all : List ℕ
    all = a.read.all

    n : ℕ
    n = length all - 6

    reading : All IsSymbol all × (drop (a.pos + 1) (to_lower s) ≡ map symbol all)
    reading = read_symbols-reads 0 (drop (a.pos + 1) (to_lower s)) all a.read.reads

    halves : All IsSymbol (take n all) × All IsSymbol (drop n all)
    halves =
        All-split IsSymbol (take n all) (drop n all)
          (subst (All IsSymbol) (sym (take-append-drop n all)) reading.0)

    sum_unique : drop n all ≡ create_checksum hrp (take n all)
    sum_unique =
        create_checksum_unique hrp (take n all) (drop n all)
          (subst (All IsByte) a.read.front (printable-IsByte 0 (take a.pos s) a.read.printable))
          halves.0 halves.1 (ground (arith, length-drop n all, a.read.long))
          (ap (λ (t : List ℕ). verify_checksum hrp t) (take-append-drop n all)
            ∙ ap (λ (t : List ℕ). verify_checksum t all) (sym a.read.front)
            ∙ a.read.valid)

-- Whatever Decode accepts, Encode accepts what was read, and writes the text again up to its
-- letter case: a human-readable part and a payload have one text.
pub encode-decode :
    (s hrp payload : List ℕ)
    → decode s ≡ ok (hrp, payload)
    → (t : List ℕ) × (encode hrp payload ≡ ok t) × (to_lower t ≡ to_lower s)
unfolding lower_byte
encode-decode s hrp payload e = (
  if lower then T else to_upper T,
  encode-written hrp payload values clean symbols.0 regrouped.1,
  elim (Bool-cases lower) [ inl low ↦ rw low same | inr up ↦ rw up (to_lower-to_upper T ∙ same) ],
)
  where
    a : Accepted s hrp payload
    a = decode-Accepted s hrp payload e

    values : List ℕ
    values = take (length a.read.all - 6) a.read.all

    lower : Bool
    lower = same_text (to_lower hrp) hrp

    T : List ℕ
    T = written hrp values

    symbols :
        All IsSymbol values
        × (drop (a.pos + 1) (to_lower s)
            ≡ map symbol values ++ map symbol (create_checksum (to_lower hrp) values))
    symbols = data_part s hrp payload a

    regrouped : All IsByte payload × (convert_bits payload 8 5 true ≡ ok values)
    regrouped = convert_bits-canonical values payload symbols.0 a.read.back

    split : (s ≡ take a.pos s ++ (b'1' ∷ drop (a.pos + 1) s)) × (a.pos < length s)
    split = last_index-Separated s b'1' a.pos a.separator

    clean : check_hrp hrp ≡ ok tt
    clean =
        subst (λ t. check_hrp t ≡ ok tt) a.read.front
          (check_hrp_accepts (take a.pos s)
            (omega (arith, length-take_le a.pos s (omega (arith, split.1)), a.has_hrp))
            a.read.printable (one_case-take a.pos s a.one_case))

    lower_text : T ≡ to_lower s
    lower_text =
        ap
          (λ (t : List ℕ).
            to_lower t
            ++ (b'1' ∷ (map symbol values ++ map symbol (create_checksum (to_lower hrp) values))))
          (sym a.read.front)
        ∙ ap (λ (t : List ℕ). to_lower (take a.pos s) ++ (b'1' ∷ t))
            (sym symbols.1 ∙ sym (to_lower-drop (a.pos + 1) s))
        ∙ sym (map-append lower_byte (take a.pos s) (b'1' ∷ drop (a.pos + 1) s))
        ∙ ap to_lower (sym split.0)

    same : to_lower T ≡ to_lower s
    same = ap to_lower lower_text ∙ to_lower_idem s
