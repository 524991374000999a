-- ===== src/Bip32/Keys/Reached.antt =====
-- The keys that the package makes: a root from a seed or from entropy, and what `Derive` makes of
-- them, step by step.
use mathlib.Core.Path.{subst}
use go_cardano_serialization.Base.{
  ok-injective, ℕ, suc, ◌+◌, ◌*◌, ◌^◌, ◌<◌, ◌≤◌, ◌≡◌, sym, ap, ◌∙◌, arith, List, ◌++◌, length, take,
  drop, All, IsByte, ok, length-append, length-drop, All-append, All-drop, All-take, length-take_le,
  take-append_length, Bool-cases, inl, inr, ◌==◌, ==_iff,
}
use go_cardano_serialization.Bip32.Arithmetic.Sums.{number, number-lt}
use go_cardano_serialization.Bip32.Keys.{KeyLibraries, new_xprv, from_bip39_entropy, derive}
use go_cardano_serialization.Bip32.Keys.Laws.{KeyLaws}
use go_cardano_serialization.Bip32.Keys.Clamped.{IsKey, new_xprv-IsKey, from_bip39_entropy-IsKey}
use go_cardano_serialization.Bip32.Keys.Derived.{Parts, zout, iout, mac_input, derive-Parts}

module _ (lib : KeyLibraries) (laws : KeyLaws lib) where
  -- The left half of a child, where nothing is carried out of it.
  pub child_left :
      (depth : ℕ) (key child : List ℕ) (index : ℕ)
      → IsKey depth key
      → depth < 2 ^ 26
      → Parts lib key index child
      → (number (take 32 child) ≡ number (take 32 key) + 8 * number (take 28 (zout lib key index)))
        × (number (take 28 (zout lib key index)) < 2 ^ 224)
  child_left depth key child index k small p =
      let z = zout lib key index in
      let z_law = laws.hmac_bytes (drop 64 key) (mac_input lib key index 0) in
      let z_lt : number (take 28 z) < 2 ^ 224 =
        subst (λ n. number (take 28 z) < 256 ^ n) (length-take_le 28 z (omega (arith, z_law.0)))
          (number-lt (take 28 z) (All-take IsByte 28 z z_law.1)) in
      let front : take 32 child ≡ p.left =
        ap (take 32) p.parts ∙ take-append_length p.left _ 32 p.left_size in
      (omega (arith, ap number front, p.left_number, k.below, z_lt), z_lt)

  -- Derive of a key that is fewer than 2 ^ 26 derivations below a root never fails, and its
  -- result is a key one derivation further down. The hashes must keep their laws.
  pub derive-IsKey :
      (depth : ℕ) (key : List ℕ) (index : ℕ)
      → IsKey depth key
      → depth < 2 ^ 26
      → (child : List ℕ) × (derive lib key index ≡ ok child) × IsKey (suc depth) child
  derive-IsKey depth key index k small =
      let (child, there, p) = derive-Parts lib key index laws k.size k.bytes in
      let (left, z_lt) = child_left depth key child index k small p in
      let i = laws.hmac_bytes (drop 64 key) (mac_input lib key index 1) in
      let chain = drop 32 (iout lib key index) in
      (
        child,
        there,
        record {
          size = omega (
            arith,
            ap length p.parts,
            length-append p.left (p.right ++ chain),
            length-append p.right chain,
            length-drop 32 (iout lib key index),
            p.left_size,
            p.right_size,
            i.0,
          );
          bytes = subst (All IsByte) (sym p.parts) (
              All-append IsByte p.left (p.right ++ chain) p.left_bytes (
                All-append IsByte p.right chain p.right_bytes
                  (All-drop IsByte 32 (iout lib key index) i.1)));
          multiple = omega (arith, left, k.multiple);
          at_least = omega (arith, left, k.at_least);
          below = omega (arith, left, k.below, z_lt);
        },
      )

-- A key that is `depth` derivations below a root.
pub data Reached (lib : KeyLibraries) : ℕ → List ℕ → Type 0 where
  from_seed : (seed : List ℕ) {key : List ℕ} → new_xprv lib seed ≡ ok key → Reached lib 0 key
  from_entropy :
      (entropy password : List ℕ) {key : List ℕ}
      → from_bip39_entropy lib entropy password ≡ ok key
      → Reached lib 0 key
  from_parent :
      {depth : ℕ} {key child : List ℕ} (index : ℕ)
      → Reached lib depth key
      → derive lib key index ≡ ok child
      → Reached lib (suc depth) child

-- Every key that is made from a seed or from entropy by at most 2 ^ 26 derivations has 96 bytes,
-- and its left half is a multiple of 8 from 2 ^ 254 to below 2 ^ 255. The hashes must keep their
-- laws.
pub Reached-IsKey :
    (lib : KeyLibraries) (laws : KeyLaws lib) (depth : ℕ) (key : List ℕ)
    → Reached lib depth key
    → depth ≤ 2 ^ 26
    → IsKey depth key × (number (take 32 key) < 2 ^ 255)
Reached-IsKey lib laws depth key reached small =
    let k = go depth key reached small in (k, omega (arith, k.below))
  where
    go : (depth : ℕ) (key : List ℕ) → Reached lib depth key → depth ≤ 2 ^ 26 → IsKey depth key
    go _ key (from_seed seed made) small = elim (Bool-cases (length seed == 32)) [
      | inl e ↦
          let (key', there, k) = (new_xprv-IsKey lib laws seed).0 ((==_iff _ _).0 e) in
          subst (IsKey 0) (ok-injective (sym there ∙ made)) k
      | inr ne ↦
          let wrong =
            (new_xprv-IsKey lib laws seed).1 (λ e. cc ((==_iff (length seed) 32).1 e, ne)) in
          cc (wrong, made)
    ]
    go _ key (from_entropy entropy password made) small =
        let (key', there, k) = from_bip39_entropy-IsKey lib laws entropy password in
        subst (IsKey 0) (ok-injective (sym there ∙ made)) k
    go _ child (from_parent {depth} {key} index parent made) small =
        let (child', there, k) =
          derive-IsKey lib laws depth key index (go depth key parent (omega arith)) (omega arith) in
        subst (IsKey (suc depth)) (ok-injective (sym there ∙ made)) k
