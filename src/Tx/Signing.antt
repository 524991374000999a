-- ===== src/Tx/Signing.antt =====
-- The functions of tx/tx_witness_set.go on crypto/ed25519, and the bootstrap witness.
use go_cardano_serialization.Base.{
  ℕ, suc, ◌+◌, ◌≤◌, ◌≡◌, ◌≢◌, refl, sym, ap, ap₂, ◌∙◌, arith, List, [], ◌∷◌, ◌++◌, length-take_le,
  length-drop, length, take, drop, replicate, leb, ◌==◌, Result, ok, err, panic, ◌>>=◌, ◌>>◌,
  in_range, length-append, length-replicate, drop-append_length, take-append_length,
}
use go_cardano_serialization.Address.Bytes.{copy}
use go_cardano_serialization.Address.Parse.Header.{copy_full}

pub record BootstrapWitness : Type 0 where
  pub vkey : List ℕ
  pub signature : List ℕ
  pub chain_code : List ℕ
  pub attributes : List ℕ

pub data SigningError : Type 0 where
  recovered : SigningError

-- `NewKeyFromSeed` of 32 bytes and `Sign` with a private key of 64
pub record Ed25519Libraries : Type 0 where
  pub new_key_from_seed : List ℕ → List ℕ
  pub sign : List ℕ → List ℕ → List ℕ

-- `copy(s[n:], src)`
unfoldable pub copy_from : ℕ → List ℕ → List ℕ → List ℕ
copy_from n s src = take n s ++ copy (drop n s) src

-- A panic becomes the error.
abbrev pub recover : Result SigningError (List ℕ) → Result SigningError (List ℕ)
recover (ok result) = ok result
recover (err e) = err e
recover panic = err recovered

module _ (lib : Ed25519Libraries) where
  -- A seed of another size panics; `Public` is the second half of the key.
  unfoldable pub get_verification_key_from_signing_key : List ℕ → Result SigningError (List ℕ)
  get_verification_key_from_signing_key signing_key =
      in_range (length signing_key == 32) >> ok (drop 32 (lib.new_key_from_seed signing_key))

  unfoldable pub sign_message : List ℕ → List ℕ → List ℕ → Result SigningError (List ℕ)
  sign_message signing_key verification_key message =
      let size = length signing_key + length verification_key in
      let private_key = copy_from 32 (copy (replicate size 0) signing_key) verification_key in
      recover (
        in_range (leb 32 size)
        >> (in_range (length private_key == 64) >> ok (lib.sign private_key message)))

-- A private key is its seed and the public key, of 32 bytes each.
pub record Ed25519Laws (lib : Ed25519Libraries) : Type 0 where
  pub public : List ℕ → List ℕ
  pub seed_and_public :
      (seed : List ℕ) → length seed ≡ 32 → lib.new_key_from_seed seed ≡ seed ++ public seed
  pub public_size : (seed : List ℕ) → length (public seed) ≡ 32

length-copy : (dst src : List ℕ) → length (copy dst src) ≡ length dst
unfolding copy
length-copy [] src = refl
length-copy (d ∷ dst) [] = refl
length-copy (d ∷ dst) (x ∷ src) = ap suc (length-copy dst src)

copy_short :
    (dst src : List ℕ) → length src ≤ length dst → copy dst src ≡ src ++ drop (length src) dst
unfolding copy
copy_short [] [] h = refl
copy_short [] (x ∷ src) h = absurd (omega arith)
copy_short (d ∷ dst) [] h = refl
copy_short (d ∷ dst) (x ∷ src) h = ap (◌∷◌ x) (copy_short dst src (omega arith))

length-copy_from : (n : ℕ) (s src : List ℕ) → n ≤ length s → length (copy_from n s src) ≡ length s
unfolding copy_from
length-copy_from n s src h = omega (
  arith,
  length-append (take n s) (copy (drop n s) src),
  length-take_le n s h,
  length-copy (drop n s) src,
  length-drop n s,
)

-- The two halves of a private key of 64 bytes, copied into zeros.
copy_from-halves :
    (left right : List ℕ)
    → length left ≡ 32
    → length right ≡ 32
    → copy_from 32 (copy (replicate (length left + length right) 0) left) right ≡ left ++ right
unfolding copy_from
copy_from-halves left right hl hr =
    let zeros = replicate (length left + length right) 0 in
    let behind = drop (length left) zeros in
    let size : length zeros ≡ 64 =
      omega (arith, length-replicate {A = ℕ} (length left + length right) 0) in
    let filled : copy zeros left ≡ left ++ behind = copy_short zeros left (omega (arith, size)) in
    let rest : length right ≡ length behind =
      omega (arith, hr, size, length-drop (length left) zeros) in
    ap₂ ◌++◌ (ap (take 32) filled ∙ take-append_length left behind 32 hl) (
      ap (λ (t : List ℕ). copy (drop 32 t) right) filled
      ∙ ap (λ (t : List ℕ). copy t right) (drop-append_length left behind 32 hl)
      ∙ copy_full behind right rest)

sign_message-halves :
    (lib : Ed25519Libraries) (left right message : List ℕ)
    → length left ≡ 32
    → length right ≡ 32
    → sign_message lib left right message ≡ ok (lib.sign (left ++ right) message)
unfolding sign_message
sign_message-halves lib left right message hl hr =
    rw (copy_from-halves left right hl hr, sign_message)
      (ground (arith, length-append left right, hl, hr))

-- SignMessage with a seed of 32 bytes and the verification key that
-- GetVerificationKeyFromSigningKey returns for it signs with the private key of the seed, and
-- with two keys whose sizes do not add up to 64 returns an error in place of a panic. A private
-- key must be its seed and the public key.
pub sign_message-seed :
    (lib : Ed25519Libraries) (laws : Ed25519Laws lib) (signing_key message : List ℕ)
    → (length signing_key ≡ 32
        → (get_verification_key_from_signing_key lib signing_key >>= λ verification_key.
            sign_message lib signing_key verification_key message)
          ≡ ok (lib.sign (lib.new_key_from_seed signing_key) message))
      × ((verification_key : List ℕ)
          → length signing_key + length verification_key ≢ 64
          → sign_message lib signing_key verification_key message ≡ err recovered)
unfolding get_verification_key_from_signing_key sign_message
sign_message-seed lib laws signing_key message = (
  λ size.
      let vk = laws.public signing_key in
      let key = laws.seed_and_public signing_key size in
      let half : drop 32 (lib.new_key_from_seed signing_key) ≡ vk =
        ap (drop 32) key ∙ drop-append_length signing_key vk 32 size in
      let there : get_verification_key_from_signing_key lib signing_key ≡ ok vk =
        rw (half, get_verification_key_from_signing_key) (rw size refl) in
      ap (λ r. r >>= λ verification_key. sign_message lib signing_key verification_key message)
        there
      ∙ sign_message-halves lib signing_key vk message size (laws.public_size signing_key)
      ∙ ap (λ (t : List ℕ). ok (lib.sign t message)) (sym key),
  λ verification_key wrong.
      let total = length signing_key + length verification_key in
      let zeros = copy (replicate total 0) signing_key in
      ground (
        arith,
        length-copy_from 32 zeros verification_key,
        length-copy (replicate total 0) signing_key,
        length-replicate {A = ℕ} total 0,
      ),
)
