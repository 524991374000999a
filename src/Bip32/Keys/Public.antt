-- ===== src/Bip32/Keys/Public.antt =====
-- What `Derive` does to public keys.
use mathlib.Core.List.{append_assoc}
use go_cardano_serialization.Base.{
  ok-injective, ℕ, ◌+◌, ◌*◌, ◌^◌, ◌<◌, ◌≡◌, sym, ap, ap₂, ◌∙◌, arith, List, ◌∷◌, ◌++◌, length, take,
  drop, ok, length-append, length-drop, length-take_le, take-append_length, drop-append_length,
  false,
}
use go_cardano_serialization.Bip32.Arithmetic.Sums.{number}
use go_cardano_serialization.Bip32.Keys.{
  KeyLibraries, is_hardened, put_uint32, derive, public, public_key, extended_private_key,
  chain_code,
}
use go_cardano_serialization.Bip32.Keys.Laws.{KeyLaws}
use go_cardano_serialization.Bip32.Keys.Clamped.{IsKey}
use go_cardano_serialization.Bip32.Keys.Derived.{
  Parts, derive-Parts, zout, iout, mac_input, pk_bytes, slice-in, slice_from-in, take-take,
  make_public_key-bytes,
}
use go_cardano_serialization.Bip32.Keys.Reached.{child_left}

module _ (lib : KeyLibraries) (laws : KeyLaws lib) where
  -- The parent's point, moved by eight times what the MAC gives.
  abbrev pub moved : List ℕ → ℕ → lib.Point
  moved key index =
      laws.add (lib.ge_scalar_mult_base (take 32 key))
        (laws.scale (8 * number (take 28 (zout lib key index))) laws.base_point)

  child_point :
      (depth : ℕ) (key child : List ℕ) (index : ℕ)
      → IsKey depth key
      → depth < 2 ^ 26
      → Parts lib key index child
      → lib.ge_scalar_mult_base (take 32 child) ≡ moved key index
  child_point depth key child index k small p =
      let (left, z_lt) = child_left lib laws depth key child index k small p in
      laws.mult_base (take 32 child) (omega (arith, left, k.below, z_lt))
      ∙ ap (λ (n : ℕ). laws.scale n laws.base_point) left
      ∙ laws.scale_add _ _ laws.base_point
      ∙ ap
          (λ (q : lib.Point).
            laws.add q (laws.scale (8 * number (take 28 (zout lib key index))) laws.base_point))
          (sym (laws.mult_base (take 32 key) (omega (arith, k.below))))

  pub public-parts :
      (key : List ℕ) → length key ≡ 96 → public lib key ≡ ok (pk_bytes lib key ++ drop 64 key)
  unfolding public extended_private_key chain_code
  public-parts key h = rw (slice-in key 0 64 (omega arith)) (
      rw
        (make_public_key-bytes lib (take 64 key)
          (omega (arith, length-take_le 64 key (omega arith))))
        (rw (slice_from-in key 64 (omega arith)) (
          ap (λ (t : List ℕ). ok (lib.to_bytes (lib.ge_scalar_mult_base t) ++ drop 64 key))
            (take-take 32 64 key (omega arith)))))

  -- What `PublicKey` takes of it
  pub public_key-parts :
      (prv : List ℕ) → public_key (pk_bytes lib prv ++ drop 64 prv) ≡ ok (pk_bytes lib prv)
  unfolding public_key
  public_key-parts prv =
      let size = laws.to_bytes_size (lib.ge_scalar_mult_base (take 32 prv)) in
      slice-in (pk_bytes lib prv ++ drop 64 prv) 0 32
        (omega (arith, length-append (pk_bytes lib prv) (drop 64 prv), size))
      ∙ ap ok (take-append_length (pk_bytes lib prv) (drop 64 prv) 32 size)

  -- For a key fewer than 2 ^ 26 derivations below a root, Derive returns a child whose public key
  -- is the parent's point moved by a multiple of the base point, and whose chain code is the
  -- right half of the second MAC. The hashes and the curve must keep their laws.
  pub derive-public :
      (depth : ℕ) (key : List ℕ) (index : ℕ)
      → IsKey depth key
      → depth < 2 ^ 26
      → (child : List ℕ) × (derive lib key index ≡ ok child)
        × (public lib child ≡ ok (lib.to_bytes (moved key index) ++ drop 32 (iout lib key index)))
  derive-public depth key index k small =
      let (child, there, p) = derive-Parts lib key index laws k.size k.bytes in
      let i = laws.hmac_bytes (drop 64 key) (mac_input lib key index 1) in
      let chain = drop 32 (iout lib key index) in
      let size : length child ≡ 96 = omega (
        arith,
        ap length p.parts,
        length-append p.left (p.right ++ chain),
        length-append p.right chain,
        length-drop 32 (iout lib key index),
        p.left_size,
        p.right_size,
        i.0,
      ) in
      let behind : drop 64 child ≡ chain =
        ap (drop 64) (p.parts ∙ sym (append_assoc p.left p.right chain))
        ∙ drop-append_length (p.left ++ p.right) chain 64
            (omega (arith, length-append p.left p.right, p.left_size, p.right_size)) in
      (
        child,
        there,
        public-parts child size
            ∙ ap ok
                (ap₂ ◌++◌ (ap lib.to_bytes (child_point depth key child index k small p)) behind),
      )

  module _ (depth : ℕ) (key key' : List ℕ) (index : ℕ) (k : IsKey depth key) (k' : IsKey depth key')
      (small : depth < 2 ^ 26) (soft : is_hardened index ≡ false)
      (same : public lib key ≡ public lib key') where
    same_parts : (pk_bytes lib key ≡ pk_bytes lib key') × (drop 64 key ≡ drop 64 key')
    same_parts =
        let whole : pk_bytes lib key ++ drop 64 key ≡ pk_bytes lib key' ++ drop 64 key' =
          ok-injective (sym (public-parts key k.size) ∙ same ∙ public-parts key' k'.size) in
        let size = laws.to_bytes_size (lib.ge_scalar_mult_base (take 32 key)) in
        let size' = laws.to_bytes_size (lib.ge_scalar_mult_base (take 32 key')) in
        (
          sym (take-append_length (pk_bytes lib key) _ 32 size)
              ∙ ap (take 32) whole
              ∙ take-append_length (pk_bytes lib key') _ 32 size',
          sym (drop-append_length (pk_bytes lib key) _ 32 size)
              ∙ ap (drop 32) whole
              ∙ drop-append_length (pk_bytes lib key') _ 32 size',
        )

    same_mac :
        (tag : ℕ)
        → lib.hmac_sha512 (drop 64 key) (mac_input lib key index tag)
          ≡ lib.hmac_sha512 (drop 64 key') (mac_input lib key' index tag)
    same_mac tag =
        rw (soft, mac_input)
          (ap₂ lib.hmac_sha512 same_parts.1
            (ap (λ (t : List ℕ). (tag + 2) ∷ (t ++ put_uint32 index)) same_parts.0))

    same_moved : moved key index ≡ moved key' index
    same_moved =
        ap₂ laws.add (laws.to_bytes_injective _ _ same_parts.0)
          (ap (λ (t : List ℕ). laws.scale (8 * number (take 28 t)) laws.base_point) (same_mac 0))

    -- Two keys fewer than 2 ^ 26 derivations below a root that have the same public key and chain
    -- code have, in a derivation that is not hardened, children with the same public key and
    -- chain code. The hashes and the curve must keep their laws.
    pub derive-public_soft :
        (child child' : List ℕ) × (derive lib key index ≡ ok child)
        × (derive lib key' index ≡ ok child')
        × (public lib child ≡ public lib child')
    derive-public_soft =
        let (child, there, pub_child) = derive-public depth key index k small in
        let (child', there', pub_child') = derive-public depth key' index k' small in
        (
          child,
          child',
          there,
          there',
          pub_child
              ∙ ap ok (ap₂ ◌++◌ (ap lib.to_bytes same_moved) (ap (drop 32) (same_mac 1)))
              ∙ sym pub_child',
        )
