-- ===== src/Bip32/Keys/Derived.antt =====
-- `Derive` keeps a key in its form, and adds to its left half a multiple of 8.
use go_cardano_serialization.Base.{
  ℕ, zero, suc, ◌+◌, ◌-◌, ◌*◌, ◌%◌, ◌^◌, ◌≤◌, ◌≡◌, refl, ap, arith, List, [], ◌∷◌, ◌++◌, length,
  take, drop, All, IsByte, ok, Bool-cases, length-take_le, length-drop, All-take, All-drop, inl,
  inr, if◌then◌else◌,
}
use go_cardano_serialization.Bip32.Arithmetic.Sums.{number, add28mul8-Yields, add256bits-Yields}
use go_cardano_serialization.Bip32.Keys.{
  KeyLibraries, slice, slice_from, is_hardened, put_uint32, extended_private_key, chain_code,
  make_public_key, derive_macs, derive,
}
use go_cardano_serialization.Bip32.Keys.Laws.{KeyLaws}

pub slice-in :
    (s : List ℕ) (lo hi : ℕ) → hi ≤ length s → slice s lo hi ≡ ok (take (hi - lo) (drop lo s))
unfolding slice
slice-in s lo hi h = ground arith

pub slice_from-in : (s : List ℕ) (lo : ℕ) → lo ≤ length s → slice_from s lo ≡ ok (drop lo s)
unfolding slice_from
slice_from-in s lo h = ground arith

pub take-take : (n m : ℕ) (s : List ℕ) → n ≤ m → take n (take m s) ≡ take n s
take-take zero m s h = refl
take-take (suc n) zero s h = absurd (omega arith)
take-take (suc n) (suc m) [] h = refl
take-take (suc n) (suc m) (x ∷ s) h = ap (◌∷◌ x) (take-take n m s (omega arith))

module _ (lib : KeyLibraries) (key : List ℕ) where
  -- The bytes of the public key.
  abbrev pub pk_bytes : List ℕ
  pk_bytes = lib.to_bytes (lib.ge_scalar_mult_base (take 32 key))

  -- 32 bytes or more have a public key, that of the first 32.
  pub make_public_key-bytes : 32 ≤ length key → make_public_key lib key ≡ ok pk_bytes
  unfolding make_public_key
  make_public_key-bytes h = rw (slice-in key 0 32 h)

module _ (lib : KeyLibraries) (key : List ℕ) (index : ℕ) where
  -- What the two MACs are of, with `tag` for the hard and the soft derivation.
  abbrev pub mac_input : ℕ → List ℕ
  mac_input tag =
      if is_hardened index
      then tag ∷ (take 64 key ++ put_uint32 index)
      else (tag + 2) ∷ (pk_bytes lib key ++ put_uint32 index)

  abbrev pub zout : List ℕ
  zout = lib.hmac_sha512 (drop 64 key) (mac_input 0)

  abbrev pub iout : List ℕ
  iout = lib.hmac_sha512 (drop 64 key) (mac_input 1)

  derive_macs-parts : length key ≡ 96 → derive_macs lib key index ≡ ok (zout, iout)
  unfolding derive_macs chain_code extended_private_key make_public_key
  derive_macs-parts h = rw (slice_from-in key 64 (omega arith)) (
      rw (slice-in key 0 64 (omega arith)) (elim (Bool-cases (is_hardened index)) [
        | inl hard ↦ rw (hard, zout, iout, mac_input)
        | inr soft ↦
            rw (soft, zout, iout, mac_input)
              (rw (slice-in (take 64 key) 0 32 (omega (arith, length-take_le 64 key (omega arith))))
                (rw (take-take 32 64 key (omega arith))))
      ]))

  -- A child: its left half, its right half and its chain code.
  pub record Parts (child : List ℕ) : Type 0 where
    pub left : List ℕ
    pub right : List ℕ
    pub parts : child ≡ left ++ (right ++ drop 32 iout)
    pub left_size : length left ≡ 32
    pub right_size : length right ≡ 32
    pub left_bytes : All IsByte left
    pub right_bytes : All IsByte right
    pub left_number : number left ≡ (number (take 32 key) + 8 * number (take 28 zout)) % 2 ^ 256

  module _ (laws : KeyLaws lib) (size : length key ≡ 96) (bytes : All IsByte key) where
    pub derive-Parts : (child : List ℕ) × (derive lib key index ≡ ok child) × Parts child
    unfolding derive
    derive-Parts =
        let z = laws.hmac_bytes (drop 64 key) (mac_input 0) in
        let i = laws.hmac_bytes (drop 64 key) (mac_input 1) in
        let (left, l_ok, l_size, l_bytes, l_number) =
          add28mul8-Yields (take 32 key) (take 32 zout) (length-take_le 32 key (omega arith))
            (length-take_le 32 zout (omega (arith, z.0))) (All-take IsByte 32 key bytes)
            (All-take IsByte 32 zout z.1) in
        let (right, r_ok, r_size, r_bytes, r_number) =
          add256bits-Yields (take 32 (drop 32 key)) (take 32 (drop 32 zout))
            (length-take_le 32 (drop 32 key) (omega (arith, length-drop 32 key)))
            (length-take_le 32 (drop 32 zout) (omega (arith, length-drop 32 zout, z.0)))
            (All-take IsByte 32 _ (All-drop IsByte 32 key bytes))
            (All-take IsByte 32 _ (All-drop IsByte 32 zout z.1)) in
        (
          left ++ (right ++ drop 32 iout),
          rw (derive_macs-parts size) (
              rw (slice-in key 0 32 (omega arith)) (
                rw (slice-in zout 0 32 (omega (arith, z.0))) (
                  rw l_ok (
                    rw (slice-in key 32 64 (omega arith)) (
                      rw (slice-in zout 32 64 (omega (arith, z.0)))
                        (rw r_ok (rw (slice_from-in iout 32 (omega (arith, i.0)))))))))),
          record {
            left = left;
            right = right;
            parts = refl;
            left_size = l_size;
            right_size = r_size;
            left_bytes = l_bytes;
            right_bytes = r_bytes;
            left_number = omega (arith, l_number, ap number (take-take 28 32 zout (omega arith)));
          },
        )
