-- ===== src/Bech32/Checksum/Burst.antt =====
-- What changes of the symbols `verifyChecksum` sees: all within six symbols in a row.
use mathlib.Core.List.{append_assoc, append-nil}
use go_cardano_serialization.Base.{
  ℕ, zero, suc, ◌+◌, ◌*◌, ◌^◌, ◌≤◌, ◌<◌, ◌≡◌, ◌≢◌, Bool-cases, inl, inr, false, refl, sym, ap, ap₂,
  ◌∙◌, arith, true, List, [], ◌∷◌, ◌++◌, ==_iff, bit_xor, All, All-append, All-split, IsByte, map,
  length,
}
use go_cardano_serialization.Base.Bits.Fields.{bit_xor-zero}
use go_cardano_serialization.Base.Bits.Xor.{xor-injective_right}
use go_cardano_serialization.Bech32.ConvertBits.Digits.{pow-add}
use go_cardano_serialization.Bech32.Checksum.{hrp_expand, verify_checksum, create_checksum}
use go_cardano_serialization.Bech32.Checksum.Linear.{IsState, IsSymbol, polymod_step_small}
use go_cardano_serialization.Bech32.Checksum.Valid.{
  run, run-append, run-IsState, run-xor, run-injective, hrp_expand-IsSymbol,
  create_checksum-IsSymbol, length-create_checksum, verify_checksum-create_checksum,
}

-- The number whose base-32 digits are appended to those of n.
abbrev appended : ℕ → List ℕ → ℕ
appended n [] = n
appended n (v ∷ vs) = appended (n * 32 + v) vs

appended-injective :
    (n m : ℕ) (vs ws : List ℕ)
    → All IsSymbol vs
    → All IsSymbol ws
    → length vs ≡ length ws
    → appended n vs ≡ appended m ws
    → (n ≡ m) × (vs ≡ ws)
appended-injective n m [] [] hv hw l e = (e, refl)
appended-injective n m [] (w ∷ ws) hv hw l e = absurd (omega arith)
appended-injective n m (v ∷ vs) [] hv hw l e = absurd (omega arith)
appended-injective n m (v ∷ vs) (w ∷ ws) (hv, hvs) (hw, hws) l e =
    let (same, rest) = appended-injective (n * 32 + v) (m * 32 + w) vs ws hvs hws (omega arith) e in
    (omega (arith, same), ap₂ ◌∷◌ (omega (arith, same)) rest)

power_small : (k : ℕ) → k ≤ 5 → 2 ^ (5 * k) ≤ 2 ^ 25
power_small zero h = omega arith
power_small (suc zero) h = omega arith
power_small (suc (suc zero)) h = omega arith
power_small (suc (suc (suc zero))) h = omega arith
power_small (suc (suc (suc (suc zero)))) h = omega arith
power_small (suc (suc (suc (suc (suc zero))))) h = omega arith
power_small (suc (suc (suc (suc (suc (suc k)))))) h = absurd (omega arith)

power_step : (k : ℕ) → 2 ^ (5 * suc k) ≡ 2 ^ (5 * k) * 32
power_step k = ap (λ (n : ℕ). 2 ^ n) {y = 5 + 5 * k} (omega arith) ∙ pow-add 5 (5 * k)

-- Few symbols from a small state are appended to it.
run-appended :
    (k c : ℕ) (vs : List ℕ)
    → c < 2 ^ (5 * k)
    → k + length vs ≤ 6
    → All IsSymbol vs
    → run c vs ≡ appended c vs
run-appended k c [] hc few hv = refl
run-appended k c (v ∷ vs) hc few (hv, hvs) =
    let small : c < 2 ^ 25 = omega (arith, power_small k (omega arith)) in
    ap (λ (n : ℕ). run n vs) (polymod_step_small c v small hv)
    ∙ run-appended (suc k) (c * 32 + v) vs (omega (arith, power_step k)) (omega arith) hvs

abbrev blank : List ℕ → List ℕ
blank = map (λ _. 0)

-- The same from any state.
run-injective_symbols :
    (c : ℕ) (vs ws : List ℕ)
    → IsState c
    → All IsSymbol vs
    → All IsSymbol ws
    → length vs ≡ length ws
    → length vs ≤ 6
    → run c vs ≡ run c ws
    → vs ≡ ws
run-injective_symbols c vs ws hc hv hw l few e =
    (appended-injective 0 0 vs ws hv hw l (
      sym (run-appended 0 0 vs (omega arith) (omega arith) hv)
      ∙ xor-injective_right (run c (blank vs)) (run 0 vs) (run 0 ws) (
          sym (from vs hv)
          ∙ e
          ∙ from ws hw
          ∙ ap (λ (t : List ℕ). bit_xor (run c t) (run 0 ws)) (zeros_same ws vs (sym l)))
      ∙ run-appended 0 0 ws (omega arith) (omega arith) hw)).1
  where
    from : (xs : List ℕ) → All IsSymbol xs → run c xs ≡ bit_xor (run c (blank xs)) (run 0 xs)
    from xs hx =
        ap (λ (t : ℕ). run t xs) (sym (bit_xor-zero c)) ∙ run-xor c 0 xs hc (omega arith) hx

    zeros_same : (xs ys : List ℕ) → length xs ≡ length ys → blank xs ≡ blank ys
    zeros_same [] [] h = refl
    zeros_same [] (y ∷ ys) h = absurd (omega arith)
    zeros_same (x ∷ xs) [] h = absurd (omega arith)
    zeros_same (x ∷ xs) (y ∷ ys) h = ap (◌∷◌ 0) (zeros_same xs ys (omega arith))

-- Where two data parts that differ in six symbols in a row at most both pass, they are the same.
valid_burst :
    (hrp xs vs ws ys : List ℕ)
    → All IsByte hrp
    → All IsSymbol (xs ++ (vs ++ ys))
    → All IsSymbol ws
    → length vs ≡ length ws
    → length vs ≤ 6
    → verify_checksum hrp (xs ++ (vs ++ ys)) ≡ true
    → verify_checksum hrp (xs ++ (ws ++ ys)) ≡ true
    → vs ≡ ws
unfolding verify_checksum
valid_burst hrp xs vs ws ys hb hall hw l few ev ew =
    run-injective_symbols c vs ws c-IsState hv hw l few (
      run-injective (run c vs) (run c ws) ys (run-IsState c vs c-IsState hv)
        (run-IsState c ws c-IsState hw) hy
        (sym (split vs) ∙ (==_iff _ _).0 ev ∙ sym ((==_iff _ _).0 ew) ∙ split ws))
  where
    hx : All IsSymbol xs
    hx = (All-split IsSymbol xs (vs ++ ys) hall).0

    hv : All IsSymbol vs
    hv = (All-split IsSymbol vs ys (All-split IsSymbol xs (vs ++ ys) hall).1).0

    hy : All IsSymbol ys
    hy = (All-split IsSymbol vs ys (All-split IsSymbol xs (vs ++ ys) hall).1).1

    c : ℕ
    c = run 1 (hrp_expand hrp ++ xs)

    c-IsState : IsState c
    c-IsState =
        run-IsState 1 _ (omega arith) (All-append IsSymbol _ _ (hrp_expand-IsSymbol hrp hb) hx)

    split : (ss : List ℕ) → run 1 (hrp_expand hrp ++ (xs ++ (ss ++ ys))) ≡ run (run c ss) ys
    split ss =
        ap (run 1) (sym (append_assoc (hrp_expand hrp) xs (ss ++ ys)))
        ∙ run-append 1 (hrp_expand hrp ++ xs) (ss ++ ys)
        ∙ run-append c ss ys

-- In a data part that verifyChecksum accepts, any change of up to six symbols in a row is seen:
-- verifyChecksum refuses the changed part, wherever the change is and under every human-readable
-- part of bytes.
pub verify_checksum_burst :
    (hrp xs vs ws ys : List ℕ)
    → All IsByte hrp
    → All IsSymbol (xs ++ (vs ++ ys))
    → All IsSymbol ws
    → length vs ≡ length ws
    → length vs ≤ 6
    → verify_checksum hrp (xs ++ (vs ++ ys)) ≡ true
    → vs ≢ ws
    → verify_checksum hrp (xs ++ (ws ++ ys)) ≡ false
verify_checksum_burst hrp xs vs ws ys hb hall hw l few ev ne =
    elim (Bool-cases (verify_checksum hrp (xs ++ (ws ++ ys)))) [
      | inl seen ↦ absurd (ne (valid_burst hrp xs vs ws ys hb hall hw l few ev seen))
      | inr refused ↦ refused
    ]

-- Only one checksum is valid for a text and its values.
pub create_checksum_unique :
    (hrp values sum : List ℕ)
    → All IsByte hrp
    → All IsSymbol values
    → All IsSymbol sum
    → length sum ≡ 6
    → verify_checksum hrp (values ++ sum) ≡ true
    → sum ≡ create_checksum hrp values
create_checksum_unique hrp values sum hb hv hs six e =
    let made = create_checksum hrp values in
    valid_burst hrp values sum made [] hb
      (All-append IsSymbol values (sum ++ []) hv (All-append IsSymbol sum [] hs tt))
      (create_checksum-IsSymbol hrp values) (six ∙ sym (length-create_checksum hrp values))
      (omega (arith, six))
      (ap (λ (t : List ℕ). verify_checksum hrp (values ++ t)) (append-nil sum) ∙ e)
      (ap (λ (t : List ℕ). verify_checksum hrp (values ++ t)) (append-nil made)
        ∙ verify_checksum-create_checksum hrp values hb hv)
