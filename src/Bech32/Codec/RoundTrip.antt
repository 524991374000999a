-- ===== src/Bech32/Codec/RoundTrip.antt =====
-- `Decode` reads back what `Encode` wrote for a lower-case human-readable part.
use mathlib.Core.List.{append_assoc, map-append}
use go_cardano_serialization.Base.{
  ℕ, ◌+◌, ◌-◌, ◌≤◌, ◌≡◌, refl, sym, ap, ◌∙◌, arith, true, false, List, [], ◌∷◌, ◌++◌, length, take,
  drop, map, All, All-append, All-map, leb, ltb, inl, ok, IsByte, length-append, length-map, some,
  ◌≢◌, take-append_length, drop-append_length,
}
use go_cardano_serialization.Bech32.Text.{to_lower, last_index}
use go_cardano_serialization.Bech32.Checksum.{create_checksum, verify_checksum}
use go_cardano_serialization.Bech32.Checksum.Linear.{IsSymbol}
use go_cardano_serialization.Bech32.Checksum.Valid.{
  verify_checksum-create_checksum, create_checksum-IsSymbol, length-create_checksum,
}
use go_cardano_serialization.Bech32.ConvertBits.{convert_bits}
use go_cardano_serialization.Bech32.ConvertBits.Inverse.{convert_bits-convert_bits}
use go_cardano_serialization.Bech32.Codec.{check_hrp, encode, decode_at, decode}
use go_cardano_serialization.Bech32.Codec.Symbols.{
  IsLowerCharacter, bad_character-IsLowerCharacter, characters-IsByte, last_index-separator,
  read_symbols-symbol, same_text_refl, symbol, symbol_lem, to_lower-IsLowerCharacter,
  write_symbols-IsSymbol,
}

-- What `Encode` writes.
abbrev encoding : List ℕ → List ℕ → List ℕ
encoding hrp values = hrp ++ (b'1' ∷ map symbol (values ++ create_checksum hrp values))

check_hrp-IsLowerCharacter :
    (hrp : List ℕ) → 1 ≤ length hrp → All IsLowerCharacter hrp → check_hrp hrp ≡ ok tt
unfolding check_hrp
check_hrp-IsLowerCharacter hrp pos h = ground (
  arith,
  bad_character-IsLowerCharacter 0 hrp h,
  to_lower-IsLowerCharacter hrp h,
  same_text_refl hrp,
)

encode-encoding :
    (hrp payload values : List ℕ)
    → 1 ≤ length hrp
    → All IsLowerCharacter hrp
    → All IsSymbol values
    → convert_bits payload 8 5 true ≡ ok values
    → encode hrp payload ≡ ok (encoding hrp values)
unfolding encode
encode-encoding hrp payload values pos h hv e =
    rw
      (
        e,
        check_hrp-IsLowerCharacter hrp pos h,
        to_lower-IsLowerCharacter hrp h,
        write_symbols-IsSymbol values hv,
        write_symbols-IsSymbol (create_checksum hrp values) (create_checksum-IsSymbol hrp values),
        same_text_refl hrp,
      )
      (ap ok (ap (λ (t : List ℕ). hrp ++ (b'1' ∷ t)) (sym (map-append symbol values _))))

module _ (hrp values payload : List ℕ) (pos : 1 ≤ length hrp) (h : All IsLowerCharacter hrp)
    (hv : All IsSymbol values) (back : convert_bits values 5 8 false ≡ ok payload) where
  symbols : List ℕ
  symbols = values ++ create_checksum hrp values

  symbols-IsSymbol : All IsSymbol symbols
  unfolding symbols
  symbols-IsSymbol = All-append IsSymbol values _ hv (create_checksum-IsSymbol hrp values)

  text : List ℕ
  text = encoding hrp values

  text-lower : to_lower text ≡ text
  unfolding text symbols
  text-lower = to_lower-IsLowerCharacter text (
      All-append IsLowerCharacter hrp _ h (
        (omega arith, omega arith, inl (omega arith)),
        All-map IsSymbol IsLowerCharacter symbol (λ v p. (symbol_lem v p).0) symbols
            symbols-IsSymbol,
      ))

  separator : last_index text b'1' ≡ some (length hrp)
  unfolding text symbols
  separator =
      last_index-separator hrp (map symbol symbols) (
        All-map IsSymbol (λ c. c ≢ b'1') symbol (λ v p. (symbol_lem v p).1) symbols
          symbols-IsSymbol)

  length-symbols : length symbols ≡ length values + 6
  unfolding symbols
  length-symbols =
      length-append values (create_checksum hrp values)
      ∙ ap (◌+◌ (length values)) (length-create_checksum hrp values)

  length-text : length text ≡ length hrp + length values + 7
  unfolding text symbols
  length-text =
      length-append hrp (b'1' ∷ map symbol symbols)
      ∙ omega (arith, length-map symbol symbols, length-symbols)

  front : take (length hrp) text ≡ hrp
  unfolding text
  front = take-append_length hrp _ (length hrp) refl

  back_part : drop (length hrp + 1) text ≡ map symbol symbols
  unfolding text symbols
  back_part = after hrp
    where
      after :
          (xs : List ℕ)
          → drop (length xs + 1) (xs ++ (b'1' ∷ map symbol symbols)) ≡ map symbol symbols
      after xs =
          ap (drop (length xs + 1)) (sym (append_assoc xs (b'1' ∷ []) (map symbol symbols)))
          ∙ drop-append_length (xs ++ (b'1' ∷ [])) (map symbol symbols) (length xs + 1)
              (length-append xs (b'1' ∷ []))

  valid : verify_checksum hrp symbols ≡ true
  unfolding symbols
  valid = verify_checksum-create_checksum hrp values (characters-IsByte hrp h) hv

  values_part : take (length symbols - 6) symbols ≡ values
  unfolding symbols
  values_part =
      take-append_length values (create_checksum hrp values) (length symbols - 6)
        (omega (arith, length-symbols))

  decode_at-text : decode_at text (length hrp) ≡ ok (hrp, payload)
  unfolding decode_at
  decode_at-text =
      rw
        (
          decode_at,
          front,
          bad_character-IsLowerCharacter 0 hrp h,
          text-lower,
          back_part,
          read_symbols-symbol 0 symbols symbols-IsSymbol,
        )
        (rw (front, valid) (rw long (rw (values_part, back))))
    where
      long : leb 6 (length symbols) ≡ true
      long = ground (arith, length-symbols)

  decode-text : decode text ≡ ok (hrp, payload)
  unfolding decode
  decode-text = rw (text-lower, same_text_refl text, separator, starts, ends) decode_at-text
    where
      starts : ltb (length hrp) 1 ≡ false
      starts = ground arith

      ends : ltb (length text) (length hrp + 7) ≡ false
      ends = ground (arith, length-text)

-- Encode accepts every list of bytes under a human-readable part of at least one printable
-- character and no upper-case letter; its text starts with that part, and Decode gives both back
-- from it.
pub decode-encode :
    (hrp payload : List ℕ)
    → 1 ≤ length hrp
    → All IsLowerCharacter hrp
    → All IsByte payload
    → (rest : List ℕ) × (encode hrp payload ≡ ok (hrp ++ rest))
      × (decode (hrp ++ rest) ≡ ok (hrp, payload))
unfolding text
decode-encode hrp payload pos h hp =
    let (values, there, groups, back) = convert_bits-convert_bits payload hp in
    (
      b'1' ∷ map symbol (values ++ create_checksum hrp values),
      encode-encoding hrp payload values pos h groups there,
      decode-text hrp values payload pos h groups back,
    )
