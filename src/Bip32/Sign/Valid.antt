-- ===== src/Bip32/Sign/Valid.antt =====
-- What `Sign` makes is a signature in the sense of Ed25519.
use go_cardano_serialization.Base.{
  ℕ, ◌+◌, ◌*◌, ◌^◌, ◌<◌, ◌≤◌, ◌≡◌, refl, sym, ap, ap₂, ◌∙◌, arith, List, ◌++◌, length, take, drop,
  ok, length-append,
}
use go_cardano_serialization.Bip32.Arithmetic.Sums.{number}
use go_cardano_serialization.Bip32.Keys.{KeyLibraries, make_public_key}
use go_cardano_serialization.Bip32.Keys.Laws.{KeyLaws}
use go_cardano_serialization.Bip32.Keys.Derived.{slice-in, make_public_key-bytes}
use go_cardano_serialization.Bip32.Sign.{sign}

module _ (lib : KeyLibraries) (laws : KeyLaws lib) where
  -- The verification equation of Ed25519: with `s` the second half, R the point that the first
  -- half encodes and k the reduced hash of R, the public key and the message, s B = k A + R.
  pub record IsSignature (a : lib.Point) (message signature : List ℕ) : Type 0 where
    r : lib.Point
    s : List ℕ
    halves : signature ≡ lib.to_bytes r ++ s
    pub size : length signature ≡ 64
    equation :
        laws.scale (number s) laws.base_point
        ≡ laws.add
            (laws.scale
              (number (lib.sc_reduce (lib.sum512 ((lib.to_bytes r ++ lib.to_bytes a) ++ message))))
              a)
            r

  -- Sign with a key of 64 bytes or more whose left half is below 2 ^ 255 makes, for any message,
  -- a signature that the key's point verifies; the public key encodes that point. The hashes and
  -- the curve must keep their laws.
  pub sign-IsSignature :
      (prv message : List ℕ)
      → 64 ≤ length prv
      → number (take 32 prv) < 2 ^ 255
      → (signature : List ℕ) × (a : lib.Point) × (make_public_key lib prv ≡ ok (lib.to_bytes a))
        × (sign lib prv message ≡ ok signature)
        × IsSignature a message signature
  unfolding sign
  sign-IsSignature prv message h small =
      let a = lib.ge_scalar_mult_base (take 32 prv) in
      let nonce = lib.sc_reduce (lib.sum512 (take 32 (drop 32 prv) ++ message)) in
      let r = lib.ge_scalar_mult_base nonce in
      let k = lib.sc_reduce (lib.sum512 ((lib.to_bytes r ++ lib.to_bytes a) ++ message)) in
      let s = lib.sc_mul_add k (take 32 prv) nonce in
      (
        lib.to_bytes r ++ s,
        a,
        make_public_key-bytes lib prv (omega arith),
        rw (make_public_key-bytes lib prv (omega arith))
            (rw (slice-in prv 32 64 h) (rw (slice-in prv 0 32 (omega arith)))),
        record {
          r = r;
          s = s;
          halves = refl;
          size = omega (
            arith,
            length-append (lib.to_bytes r) s,
            laws.to_bytes_size r,
            laws.sc_mul_add_number k (take 32 prv) nonce,
          );
          equation =
              ap multiple (laws.sc_mul_add_number k (take 32 prv) nonce).0
              ∙ laws.scale_order (number k * number (take 32 prv) + number nonce)
              ∙ laws.scale_add (number k * number (take 32 prv)) (number nonce) laws.base_point
              ∙ ap₂ laws.add
                  (laws.scale_mul (number k) (number (take 32 prv)) laws.base_point
                    ∙ ap (laws.scale (number k)) (sym (laws.mult_base (take 32 prv) small)))
                  (sym (laws.mult_base nonce (nonce_small (take 32 (drop 32 prv) ++ message))));
        },
      )
    where
      multiple : ℕ → lib.Point
      multiple n = laws.scale n laws.base_point

      nonce_small : (m : List ℕ) → number (lib.sc_reduce (lib.sum512 m)) < 2 ^ 255
      nonce_small m = omega (arith, (laws.sc_reduce_number (lib.sum512 m)).1, laws.order_small)
