-- ===== src/Bip32/Keys/Clamped.antt =====
-- Keys made from a seed or from entropy are clamped.
use mathlib.Core.Path.{subst}
use mathlib.Core.List.{append-nil}
use go_cardano_serialization.Base.{
  ℕ, zero, suc, ◌+◌, ◌*◌, ◌%◌, ◌^◌, ◌<◌, ◌≤◌, ◌≡◌, refl, sym, ap, ◌∙◌, arith, List, [], ◌∷◌, ◌++◌,
  length, take, drop, All, IsByte, bit_and, bit_or, Result, bind_assoc, ok, err, ◌≢◌, ◌>>=◌,
  length-append, true, length-take_le, length-drop, take-append-drop, All-append, All-take,
  All-drop, ◌==◌, ==_iff, leb, ltb, ◌&&◌,
}
use go_cardano_serialization.Base.Bits.Table.{all_below, all_below-apply}
use go_cardano_serialization.Bip32.Arithmetic.{KeyError, seed_length}
use go_cardano_serialization.Bip32.Arithmetic.Sums.{number, number-append, number-lt}
use go_cardano_serialization.Bip32.Keys.Laws.{KeyLaws}
use go_cardano_serialization.Bip32.Keys.{
  KeyLibraries, modify, normalize_bytes_force3rd, new_xprv, from_bip39_entropy,
}

-- A key of 96 bytes at most `depth` derivations below a clamped one: its left half is a multiple
-- of 8, at least 2 ^ 254, and has grown by less than 2 ^ 227 in each derivation.
pub record IsKey (depth : ℕ) (key : List ℕ) : Type 0 where
  pub size : length key ≡ 96
  pub bytes : All IsByte key
  pub multiple : number (take 32 key) % 8 ≡ 0
  pub at_least : 2 ^ 254 ≤ number (take 32 key)
  pub below : number (take 32 key) < 2 ^ 254 + 2 ^ 253 + depth * 2 ^ 227

modify-append :
    (front : List ℕ) (b : ℕ) (back : List ℕ) (f : ℕ → ℕ) (i : ℕ)
    → length front ≡ i
    → modify (front ++ (b ∷ back)) i f ≡ ok (front ++ (f b ∷ back))
unfolding modify
modify-append [] b back f zero e = refl
modify-append [] b back f (suc i) e = absurd (omega arith)
modify-append (x ∷ front) b back f zero e = absurd (omega arith)
modify-append (x ∷ front) b back f (suc i) e = rw (modify-append front b back f i (omega arith))

-- The two bytes that are changed, with what stands between and behind them.
record Ends (key : List ℕ) : Type 0 where
  low : ℕ
  middle : List ℕ
  high : ℕ
  back : List ℕ
  parts : key ≡ low ∷ (middle ++ (high ∷ back))
  middle_size : length middle ≡ 30
  all_bytes : IsByte low × All IsByte middle × IsByte high × All IsByte back

high_part :
    (xs : List ℕ)
    → 1 ≤ length xs
    → All IsByte xs
    → (b : ℕ) × (back : List ℕ) × (xs ≡ b ∷ back) × IsByte b × All IsByte back
high_part [] l h = absurd (omega arith)
high_part (b ∷ back) l (h, hs) = (b, back, refl, h, hs)

ends : (key : List ℕ) → 32 ≤ length key → All IsByte key → Ends key
ends [] l h = absurd (omega arith)
ends (x ∷ xs) l (h, hs) =
    let (b, back, e, hb, hback) =
      high_part (drop 30 xs) (omega (arith, length-drop 30 xs)) (All-drop IsByte 30 xs hs) in
    record {
      low = x;
      middle = take 30 xs;
      high = b;
      back = back;
      parts = ap (◌∷◌ x) (sym (take-append-drop 30 xs) ∙ ap (◌++◌ (take 30 xs)) e);
      middle_size = length-take_le 30 xs (omega arith);
      all_bytes = (h, All-take IsByte 30 xs hs, hb, hback);
    }

low_table : all_below 256 (λ b. leb (bit_and b 0xf8) 255 && (bit_and b 0xf8 % 8 == 0)) ≡ true
unfolding all_below
low_table = refl

low_byte_lem : (b : ℕ) → IsByte b → (bit_and b 0xf8 < 256) × (bit_and b 0xf8 % 8 ≡ 0)
low_byte_lem b h = ground (
  arith,
  all_below-apply 256 (λ b. leb (bit_and b 0xf8) 255 && (bit_and b 0xf8 % 8 == 0)) b low_table h,
)

-- Both masks of the last byte leave its highest bits at 010.
high_table :
    all_below 256 (λ b.
      (leb 64 (bit_or (bit_and b 0x1f) 0x40) && ltb (bit_or (bit_and b 0x1f) 0x40) 96)
      && (leb 64 (bit_or (bit_and b 0x5f) 0x40) && ltb (bit_or (bit_and b 0x5f) 0x40) 96))
    ≡ true
unfolding all_below
high_table = refl

high_byte_lem :
    (b : ℕ)
    → IsByte b
    → ((64 ≤ bit_or (bit_and b 0x1f) 0x40) × (bit_or (bit_and b 0x1f) 0x40 < 96))
      × ((64 ≤ bit_or (bit_and b 0x5f) 0x40) × (bit_or (bit_and b 0x5f) 0x40 < 96))
high_byte_lem b h = ground (
  arith,
  all_below-apply 256
      (λ b.
        (leb 64 (bit_or (bit_and b 0x1f) 0x40) && ltb (bit_or (bit_and b 0x1f) 0x40) 96)
        && (leb 64 (bit_or (bit_and b 0x5f) 0x40) && ltb (bit_or (bit_and b 0x5f) 0x40) 96))
      b high_table h,
)

-- The three assignments, for either mask of the last byte.
clamp : (ℕ → ℕ) → List ℕ → Result KeyError (List ℕ)
clamp mask key = do
  first ← modify key 0 (λ b. bit_and b 0xf8)
  cleared ← modify first 31 mask
  modify cleared 31 (λ b. bit_or b 0x40)

clamp-then :
    (mask : ℕ → ℕ) (key : List ℕ) (next : List ℕ → Result KeyError (List ℕ)) {out : List ℕ}
    → clamp mask key ≡ ok out
    → (do
      first ← modify key 0 (λ b. bit_and b 0xf8)
      cleared ← modify first 31 mask
      extended ← modify cleared 31 (λ b. bit_or b 0x40)
      next extended)
      ≡ next out
unfolding clamp
clamp-then mask key next there =
    sym (
      bind_assoc (modify key 0 (λ b. bit_and b 0xf8)) _ next ∙ (λ i.
        modify key 0 (λ b. bit_and b 0xf8) >>= λ first.
        bind_assoc (modify first 31 mask) (λ cleared. modify cleared 31 (λ b. bit_or b 0x40)) next
          i))
    ∙ ap (λ (r : Result KeyError (List ℕ)). r >>= next) there

-- A mask whose bytes are from 64 to 95 once bit 6 is set.
abbrev IsHighMask : (ℕ → ℕ) → Type 0
IsHighMask mask = (b : ℕ) → IsByte b → (64 ≤ bit_or (mask b) 0x40) × (bit_or (mask b) 0x40 < 96)

clamp-parts :
    (mask : ℕ → ℕ) (low : ℕ) (middle : List ℕ) (high : ℕ) (back : List ℕ)
    → length middle ≡ 30
    → clamp mask (low ∷ (middle ++ (high ∷ back)))
      ≡ ok (bit_and low 0xf8 ∷ (middle ++ (bit_or (mask high) 0x40 ∷ back)))
unfolding clamp modify
clamp-parts mask low middle high back e =
    rw (modify-append middle high back mask 30 e)
      (rw (modify-append middle (mask high) back (λ b. bit_or b 0x40) 30 e))

take-front :
    (front : List ℕ) (b : ℕ) (back rest : List ℕ) (i : ℕ)
    → length front ≡ i
    → take (suc i) ((front ++ (b ∷ back)) ++ rest) ≡ front ++ (b ∷ [])
take-front [] b back rest zero e = refl
take-front [] b back rest (suc i) e = absurd (omega arith)
take-front (x ∷ front) b back rest zero e = absurd (omega arith)
take-front (x ∷ front) b back rest (suc i) e =
    ap (◌∷◌ x) (take-front front b back rest i (omega arith))

module _ (mask : ℕ → ℕ) (good : IsHighMask mask) (rest : List ℕ)
    (rest_bytes : All IsByte rest) where
  clamped-IsKey :
      (low : ℕ) (middle : List ℕ) (high : ℕ) (back : List ℕ)
      → length middle ≡ 30
      → IsByte low × All IsByte middle × IsByte high × All IsByte back
      → length ((low ∷ (middle ++ (high ∷ back))) ++ rest) ≡ 96
      → IsKey 0 ((bit_and low 0xf8 ∷ (middle ++ (bit_or (mask high) 0x40 ∷ back))) ++ rest)
  clamped-IsKey low middle high back e (hl, hm, hh, hb) size =
      let low' = bit_and low 0xf8 in
      let high' = bit_or (mask high) 0x40 in
      let value : number (take 32 ((low' ∷ (middle ++ (high' ∷ back))) ++ rest))
          ≡ low' + 256 * (number middle + 256 ^ 30 * high') =
        ap (λ (t : List ℕ). low' + 256 * number t) (take-front middle high' back rest 30 e)
        ∙ omega (arith, number-append middle (high' ∷ []), ap (λ (t : ℕ). 256 ^ t * high') e) in
      let middle_lt : number middle < 256 ^ 30 =
        subst (λ n. number middle < 256 ^ n) e (number-lt middle hm) in
      record {
        size = omega (
          arith,
          size,
          length-append (middle ++ (high' ∷ back)) rest,
          length-append middle (high' ∷ back),
          length-append (middle ++ (high ∷ back)) rest,
          length-append middle (high ∷ back),
        );
        bytes =
            All-append IsByte (low' ∷ (middle ++ (high' ∷ back))) rest
              (
                omega (arith, low_byte_lem low hl),
                All-append IsByte middle (high' ∷ back) hm (omega (arith, good high hh), hb),
              )
              rest_bytes;
        multiple = omega (arith, value, low_byte_lem low hl);
        at_least = omega (arith, value, good high hh);
        below = omega (arith, value, low_byte_lem low hl, good high hh, middle_lt);
      }

  clamp-IsKey :
      (key : List ℕ)
      → 32 ≤ length key
      → length (key ++ rest) ≡ 96
      → All IsByte key
      → (out : List ℕ) × (clamp mask key ≡ ok out) × IsKey 0 (out ++ rest)
  unfolding clamp modify
  clamp-IsKey key l size h =
      let e = ends key l h in
      (
        bit_and e.low 0xf8 ∷ (e.middle ++ (bit_or (mask e.high) 0x40 ∷ e.back)),
        ap (clamp mask) e.parts ∙ clamp-parts mask e.low e.middle e.high e.back e.middle_size,
        clamped-IsKey e.low e.middle e.high e.back e.middle_size e.all_bytes
            (ap (λ (t : List ℕ). length (t ++ rest)) (sym e.parts) ∙ size),
      )

module _ (lib : KeyLibraries) (laws : KeyLaws lib) where
  -- A seed of 32 bytes gives a clamped key of 96 bytes, and any other size is refused. The hashes
  -- must keep their laws.
  pub new_xprv-IsKey :
      (seed : List ℕ)
      → (length seed ≡ 32 → (key : List ℕ) × (new_xprv lib seed ≡ ok key) × IsKey 0 key)
        × (length seed ≢ 32 → new_xprv lib seed ≡ err seed_length)
  unfolding new_xprv clamp
  new_xprv-IsKey seed = (λ e. made e, λ e. ground arith)
    where
      made : length seed ≡ 32 → (key : List ℕ) × (new_xprv lib seed ≡ ok key) × IsKey 0 key
      made e =
          let whole = laws.sum512_bytes seed in
          let chain = laws.sum256_bytes (0x01 ∷ seed) in
          let (out, there, key) =
            clamp-IsKey (λ b. bit_and b 0x5f) (λ b h. (high_byte_lem b h).1)
              (lib.sum256 (0x01 ∷ seed)) chain.1 (lib.sum512 seed) (omega (arith, whole.0))
              (omega (
                arith,
                length-append (lib.sum512 seed) (lib.sum256 (0x01 ∷ seed)),
                whole.0,
                chain.0,
              ))
              whole.1 in
          (
            out ++ lib.sum256 (0x01 ∷ seed),
            rw ((==_iff (length seed) 32).1 e) (
                clamp-then (λ b. bit_and b 0x5f) (lib.sum512 seed)
                  (λ extended. ok (extended ++ lib.sum256 (0x01 ∷ seed))) there),
            key,
          )

  -- Entropy and password of any size give a clamped key of 96 bytes. pbkdf2 must keep its law.
  pub from_bip39_entropy-IsKey :
      (entropy password : List ℕ)
      → (key : List ℕ) × (from_bip39_entropy lib entropy password ≡ ok key) × IsKey 0 key
  unfolding from_bip39_entropy normalize_bytes_force3rd clamp
  from_bip39_entropy-IsKey entropy password =
      let whole = laws.pbkdf2_bytes password entropy 4096 96 in
      let bytes = lib.pbkdf2_key password entropy 4096 96 in
      let (out, there, key) =
        clamp-IsKey (λ b. bit_and b 0x1f) (λ b h. (high_byte_lem b h).0) [] tt bytes
          (omega (arith, whole.0)) (ap length (append-nil bytes) ∙ whole.0) whole.1 in
      (out, there, subst (IsKey 0) (append-nil out) key)
