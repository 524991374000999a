-- ===== src/Bech32/Checksum/Valid.antt =====
-- `createChecksum` makes `verifyChecksum` hold, and a changed symbol makes it fail.
use mathlib.Core.List.{foldl, append_assoc}
use go_cardano_serialization.Base.{
  ℕ, zero, suc, ◌+◌, ◌-◌, ◌*◌, ◌/◌, ◌%◌, ◌^◌, ◌<◌, ◌≡◌, refl, sym, ap, ◌∙◌, arith, true, List, [],
  ◌∷◌, ◌++◌, ==_iff, bit_and, bit_xor, All, All-append, All-map, IsByte, map, drop, length,
}
use go_cardano_serialization.Base.Bits.Fields.{bit_xor-zero, bit_xor-lt, bit_and_mask}
use go_cardano_serialization.Base.Bits.Xor.{zero_xor, xor_cancel}
use go_cardano_serialization.Bech32.Text.{lower_byte, to_lower}
use go_cardano_serialization.Bech32.Checksum.{
  polymod_step, hrp_expand, verify_checksum, checksum_bytes, create_checksum,
}
use go_cardano_serialization.Bech32.Checksum.Linear.{
  IsState, IsSymbol, polymod_step_small, polymod_step-IsState, polymod_step-xor,
  polymod_step-injective, polymod_step-injective_symbol,
}

-- The state after some symbols, from any state.
abbrev pub run : ℕ → List ℕ → ℕ
run = foldl polymod_step

pub run-append : (c : ℕ) (xs ys : List ℕ) → run c (xs ++ ys) ≡ run (run c xs) ys
run-append c [] ys = refl
run-append c (x ∷ xs) ys = run-append (polymod_step c x) xs ys

pub run-IsState : (c : ℕ) (xs : List ℕ) → IsState c → All IsSymbol xs → IsState (run c xs)
run-IsState c [] h a = h
run-IsState c (x ∷ xs) h (hx, a) =
    run-IsState (polymod_step c x) xs (polymod_step-IsState c x h (omega arith)) a

abbrev zeros : List ℕ
zeros = 0 ∷ 0 ∷ 0 ∷ 0 ∷ 0 ∷ 0 ∷ []

-- The checksum's six values are the base-32 digits of `m`, first digit first.
digit : (k m : ℕ) → bit_and (m / 2 ^ k % 256) 31 ≡ m / 2 ^ k % 32
digit k m = omega (arith, bit_and_mask 5 (m / 2 ^ k % 256))

digits_of : ℕ → List ℕ
digits_of m =
    m / 2 ^ 25 % 32
    ∷ m / 2 ^ 20 % 32
    ∷ m / 2 ^ 15 % 32
    ∷ m / 2 ^ 10 % 32
    ∷ m / 2 ^ 5 % 32
    ∷ m / 2 ^ 0 % 32
    ∷ []

checksum_bytes-eq-digits : (m : ℕ) → checksum_bytes 6 0 m ≡ digits_of m
unfolding checksum_bytes digits_of
checksum_bytes-eq-digits m =
    cc (digit 25 m, digit 20 m, digit 15 m, digit 10 m, digit 5 m, digit 0 m)

take_symbol :
    (c v c' : ℕ) (vs : List ℕ)
    → c < 2 ^ 25
    → IsSymbol v
    → c * 32 + v ≡ c'
    → run c (v ∷ vs) ≡ run c' vs
take_symbol c v c' vs hc hv e = ap (λ (t : ℕ). run t vs) (polymod_step_small c v hc hv ∙ e)

-- From the state 0 the digits are collected again.
run-digits : (m : ℕ) → IsState m → run 0 (digits_of m) ≡ m
unfolding digits_of
run-digits m h =
    take_symbol 0 (m / 2 ^ 25 % 32) (m / 2 ^ 25) (drop 1 (digits_of m)) (omega arith) (omega arith)
      (omega arith)
    ∙ take_symbol (m / 2 ^ 25) (m / 2 ^ 20 % 32) (m / 2 ^ 20) (drop 2 (digits_of m)) (omega arith)
        (omega arith) (omega arith)
    ∙ take_symbol (m / 2 ^ 20) (m / 2 ^ 15 % 32) (m / 2 ^ 15) (drop 3 (digits_of m)) (omega arith)
        (omega arith) (omega arith)
    ∙ take_symbol (m / 2 ^ 15) (m / 2 ^ 10 % 32) (m / 2 ^ 10) (drop 4 (digits_of m)) (omega arith)
        (omega arith) (omega arith)
    ∙ take_symbol (m / 2 ^ 10) (m / 2 ^ 5 % 32) (m / 2 ^ 5) (drop 5 (digits_of m)) (omega arith)
        (omega arith) (omega arith)
    ∙ take_symbol (m / 2 ^ 5) (m / 2 ^ 0 % 32) m (drop 6 (digits_of m)) (omega arith) (omega arith)
        (omega arith)

-- Symbols processed from two states put together.
pub run-xor :
    (a b : ℕ) (ws : List ℕ)
    → IsState a
    → IsState b
    → All IsSymbol ws
    → run (bit_xor a b) ws ≡ bit_xor (run a (map (λ _. 0) ws)) (run b ws)
run-xor a b [] ha hb hws = refl
run-xor a b (w ∷ ws) ha hb (hw, hws) =
    ap (λ (t : ℕ). run t ws)
      (ap (polymod_step (bit_xor a b)) (sym (zero_xor w)) ∙ polymod_step-xor a b 0 w ha hb)
    ∙ run-xor (polymod_step a 0) (polymod_step b w) ws (polymod_step-IsState a 0 ha (omega arith))
        (polymod_step-IsState b w hb (omega arith)) hws

run-xor-digits : (c m : ℕ) → IsState c → IsState m → run c (digits_of m) ≡ bit_xor (run c zeros) m
unfolding digits_of
run-xor-digits c m h hm =
    ap (λ (t : ℕ). run t (digits_of m)) (sym (bit_xor-zero c))
    ∙ run-xor c 0 (digits_of m) h (omega arith) (omega arith)
    ∙ ap (bit_xor (run c zeros)) (run-digits m hm)

pub hrp_expand-IsSymbol : (hrp : List ℕ) → All IsByte hrp → All IsSymbol (hrp_expand hrp)
unfolding hrp_expand
hrp_expand-IsSymbol hrp h =
    All-append IsSymbol _ _ (All-map IsByte IsSymbol (λ c. c / 2 ^ 5) (λ c p. omega arith) _ low) (
      omega arith,
      All-map IsByte IsSymbol (λ c. bit_and c 31) (λ c p. omega (arith, bit_and_mask 5 c)) _ low,
    )
  where
    low : All IsByte (to_lower hrp)
    low = All-map IsByte IsByte lower_byte (λ c p. ground arith) hrp h

-- What createChecksum appends makes verifyChecksum hold, for every text of bytes and every list
-- of five-bit values.
pub verify_checksum-create_checksum :
    (hrp values : List ℕ)
    → All IsByte hrp
    → All IsSymbol values
    → verify_checksum hrp (values ++ create_checksum hrp values) ≡ true
unfolding verify_checksum create_checksum
verify_checksum-create_checksum hrp values hb hv = (==_iff _ _).1 whole
  where
    start : ℕ
    start = run 1 (hrp_expand hrp ++ values)

    m : ℕ
    m = bit_xor (run 1 ((hrp_expand hrp ++ values) ++ zeros)) 1

    start-IsState : IsState start
    start-IsState =
        run-IsState 1 _ (omega arith) (All-append IsSymbol _ _ (hrp_expand-IsSymbol hrp hb) hv)

    m-eq : m ≡ bit_xor (run start zeros) 1
    m-eq = ap (λ (t : ℕ). bit_xor t 1) (run-append 1 (hrp_expand hrp ++ values) zeros)

    m-IsState : IsState m
    m-IsState =
        rw m-eq
          (bit_xor-lt 30 _ _ (run-IsState start zeros start-IsState (omega arith)) (omega arith))

    whole : run 1 (hrp_expand hrp ++ (values ++ checksum_bytes 6 0 m)) ≡ 1
    whole =
        ap (run 1) (sym (append_assoc (hrp_expand hrp) values (checksum_bytes 6 0 m)))
        ∙ run-append 1 (hrp_expand hrp ++ values) (checksum_bytes 6 0 m)
        ∙ ap (run start) (checksum_bytes-eq-digits m)
        ∙ run-xor-digits start m start-IsState m-IsState
        ∙ ap (bit_xor (run start zeros)) m-eq
        ∙ xor_cancel (run start zeros) 1

pub run-injective :
    (a b : ℕ) (xs : List ℕ) → IsState a → IsState b → All IsSymbol xs → run a xs ≡ run b xs → a ≡ b
run-injective a b [] ha hb hx e = e
run-injective a b (x ∷ xs) ha hb (hx, hxs) e = polymod_step-injective a b x ha hb (
    run-injective (polymod_step a x) (polymod_step b x) xs
      (polymod_step-IsState a x ha (omega arith)) (polymod_step-IsState b x hb (omega arith)) hxs e)

-- A valid data part with one symbol exchanged for another is not valid: where both lists pass
-- verifyChecksum, the two symbols are the same one.
verify_checksum_substitution :
    (hrp xs ys : List ℕ) (v w : ℕ)
    → All IsByte hrp
    → All IsSymbol xs
    → All IsSymbol ys
    → IsSymbol v
    → IsSymbol w
    → verify_checksum hrp (xs ++ (v ∷ ys)) ≡ true
    → verify_checksum hrp (xs ++ (w ∷ ys)) ≡ true
    → v ≡ w
unfolding verify_checksum
verify_checksum_substitution hrp xs ys v w hb hx hy hv hw ev ew =
    polymod_step-injective_symbol c v w (
      run-injective (polymod_step c v) (polymod_step c w) ys
        (polymod_step-IsState c v c-IsState (omega arith))
        (polymod_step-IsState c w c-IsState (omega arith)) hy
        (sym (split v) ∙ (==_iff _ _).0 ev ∙ sym ((==_iff _ _).0 ew) ∙ split w))
  where
    c : ℕ
    c = run 1 (hrp_expand hrp ++ xs)

    c-IsState : IsState c
    c-IsState =
        run-IsState 1 _ (omega arith) (All-append IsSymbol _ _ (hrp_expand-IsSymbol hrp hb) hx)

    split : (s : ℕ) → run 1 (hrp_expand hrp ++ (xs ++ (s ∷ ys))) ≡ run (polymod_step c s) ys
    split s =
        ap (run 1) (sym (append_assoc (hrp_expand hrp) xs (s ∷ ys)))
        ∙ run-append 1 (hrp_expand hrp ++ xs) (s ∷ ys)

pub create_checksum-IsSymbol : (hrp values : List ℕ) → All IsSymbol (create_checksum hrp values)
unfolding create_checksum
create_checksum-IsSymbol hrp values = bytes 6 0 _
  where
    bytes : (n p m : ℕ) → All IsSymbol (checksum_bytes n p m)
    bytes zero p m = tt
    bytes (suc n) p m =
        (omega (arith, bit_and_mask 5 (m / 2 ^ (5 * (5 - p)) % 256)), bytes n (p + 1) m)

pub length-create_checksum : (hrp values : List ℕ) → length (create_checksum hrp values) ≡ 6
unfolding create_checksum
length-create_checksum hrp values = refl
