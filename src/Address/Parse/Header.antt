-- ===== src/Address/Parse/Header.antt =====
-- The header byte of an address as arithmetic, and the branches of `NewAddressFromBytes` that it
-- selects.
use mathlib.Core.List.{append_assoc}
use go_cardano_serialization.Base.{
  ℕ, ◌+◌, ◌*◌, ◌/◌, ◌%◌, ◌^◌, ◌≤◌, ◌<◌, ◌≡◌, refl, ap, ◌∙◌, arith, Bool, true, List, [], ◌∷◌, ◌++◌,
  length, take, drop, leb, ◌==◌, if◌then◌else◌, bit_and, bit_or, ◌&&◌, ◌<<<◌, u8, ok, ◌⊎◌, inl, inr,
  length-append, take-append_length, drop-append_length,
}
use go_cardano_serialization.Base.Bits.Table.{all_below, all_below-apply}
use go_cardano_serialization.Network.{NetworkInfo, test_net, main_net}
use go_cardano_serialization.Address.Types.{
  StakeCredential, new_key_stake_credential, new_script_stake_credential, base,
}
use go_cardano_serialization.Address.Byron.{ByronLibraries}
use go_cardano_serialization.Address.Bytes.{copy}
use go_cardano_serialization.Address.Parse.{
  networks, read_addr_cred, read_base, read_pointer, read_enterprise, read_reward, read_by_header,
}

-- A credential that the constructor functions make from a hash of 28 bytes.
pub record IsCredential (c : StakeCredential) : Type 0 where
  pub kind_small : c.kind < 2
  pub hash_size : length c.payload ≡ 28

abbrev pub IsNetwork : NetworkInfo → Type 0
IsNetwork net = (net ≡ test_net) ⊎ (net ≡ main_net)

pub copy_full : (dst src : List ℕ) → length src ≡ length dst → copy dst src ≡ src
unfolding copy
copy_full [] [] h = refl
copy_full [] (x ∷ src) h = absurd (omega arith)
copy_full (d ∷ dst) [] h = absurd (omega arith)
copy_full (d ∷ dst) (x ∷ src) h = ap (◌∷◌ x) (copy_full dst src (omega arith))

-- The credential that a header's bit stands for.
abbrev pub credential : ℕ → ℕ → List ℕ → StakeCredential
credential header bit hash =
    if bit_and header (u8 (1 <<< bit)) == 0
    then new_key_stake_credential hash
    else new_script_stake_credential hash

pub read_addr_cred-parts :
    (input spare front hash back : List ℕ) (header bit pos : ℕ)
    → input ++ spare ≡ front ++ (hash ++ back)
    → length front ≡ pos
    → length hash ≡ 28
    → read_addr_cred input spare header bit pos ≡ ok (credential header bit hash)
unfolding read_addr_cred
read_addr_cred-parts input spare front hash back header bit pos e hf hh =
    rw (e, fits) (ap (λ (t : List ℕ). ok (credential header bit t)) found)
  where
    fits : leb (pos + 28) (length (front ++ (hash ++ back))) ≡ true
    fits = ground (arith, length-append front (hash ++ back), length-append hash back)

    found : take 28 (drop pos (front ++ (hash ++ back))) ≡ hash
    found =
        ap (take 28) (drop-append_length front (hash ++ back) pos hf)
        ∙ take-append_length hash back 28 hh

pub read_base-parts :
    (header : ℕ) (p q spare : List ℕ)
    → length p ≡ 28
    → length q ≡ 28
    → read_base (header ∷ (p ++ q)) spare header
      ≡ ok (
          base (record {
            network = networks (bit_and header 0x0f);
            payment = credential header 4 p;
            stake = credential header 5 q;
          }))
unfolding read_base
read_base-parts header p q spare hp hq =
    rw
      (read_addr_cred-parts (header ∷ (p ++ q)) spare (header ∷ []) p (q ++ spare) header 4 1
        (ap (◌∷◌ header) (append_assoc p q spare)) refl hp)
      (rw (
        read_addr_cred-parts (header ∷ (p ++ q)) spare (header ∷ p) q spare header 5 29
          (ap (◌∷◌ header) (append_assoc p q spare)) (omega arith) hq))

-- The fields of a header, as arithmetic on a byte.
header_ok : ℕ → Bool
header_ok h =
    (bit_and h 0x0f == h % 16 && bit_and h 0xf0 / 2 ^ 4 == h / 16)
    && (bit_and h (u8 (1 <<< 4)) == h / 16 % 2 * 16 && bit_and h (u8 (1 <<< 5)) == h / 32 % 2 * 32)

header_table : all_below 256 header_ok ≡ true
unfolding all_below header_ok
header_table = refl

pub header_fields :
    (h : ℕ)
    → h < 256
    → (bit_and h 0x0f ≡ h % 16)
      × (bit_and h 0xf0 / 2 ^ 4 ≡ h / 16)
      × (bit_and h (u8 (1 <<< 4)) ≡ h / 16 % 2 * 16)
      × (bit_and h (u8 (1 <<< 5)) ≡ h / 32 % 2 * 32)
unfolding header_ok
header_fields h small =
    let t : header_ok h ≡ true = all_below-apply 256 header_ok h header_table small in
    ground (arith, t)

-- The headers that are written, as sums.
header_sum_ok : ℕ → ℕ → ℕ → Bool
header_sum_ok n k s =
    (bit_or (bit_or (u8 (k <<< 4)) (u8 (s <<< 5))) (bit_and n 0xf) == s * 32 + k * 16 + n
      && bit_or (bit_or 0b0110_0000 (u8 (k <<< 4))) (bit_and n 0xf) == 0x60 + k * 16 + n)
    && (bit_or (bit_or 0b1110_0000 (u8 (k <<< 4))) (bit_and n 0xf) == 0xe0 + k * 16 + n
        && bit_or (bit_or 0b0100_0000 (u8 (k <<< 4))) (bit_and n 0xf) == 0x40 + k * 16 + n)

header_sum_table :
    all_below 2 (λ n. all_below 2 (λ k. all_below 2 (λ s. header_sum_ok n k s))) ≡ true
unfolding all_below header_sum_ok
header_sum_table = refl

pub header_sums :
    (n k s : ℕ)
    → n < 2
    → k < 2
    → s < 2
    → (bit_or (bit_or (u8 (k <<< 4)) (u8 (s <<< 5))) (bit_and n 0xf) ≡ s * 32 + k * 16 + n)
      × (bit_or (bit_or 0b0110_0000 (u8 (k <<< 4))) (bit_and n 0xf) ≡ 0x60 + k * 16 + n)
      × (bit_or (bit_or 0b1110_0000 (u8 (k <<< 4))) (bit_and n 0xf) ≡ 0xe0 + k * 16 + n)
      × (bit_or (bit_or 0b0100_0000 (u8 (k <<< 4))) (bit_and n 0xf) ≡ 0x40 + k * 16 + n)
unfolding header_sum_ok
header_sums n k s hn hk hs =
    let t : header_sum_ok n k s ≡ true =
      all_below-apply 2 (λ s. header_sum_ok n k s) s
        (all_below-apply 2 (λ k. all_below 2 (λ s. header_sum_ok n k s)) k
          (all_below-apply 2 (λ n. all_below 2 (λ k. all_below 2 (λ s. header_sum_ok n k s))) n
            header_sum_table hn)
          hk)
        hs in
    ground (arith, t)

pub network_small : (net : NetworkInfo) → IsNetwork net → net.network_id < 2
network_small net (inl e) = rw e (omega arith)
network_small net (inr e) = rw e (omega arith)

pub networks-network_id : (net : NetworkInfo) → IsNetwork net → networks net.network_id ≡ net
unfolding networks
networks-network_id net (inl e) = rw e
networks-network_id net (inr e) = rw e

-- What the header's two credential bits give back.
pub credential_payment :
    (c : StakeCredential) (h : ℕ)
    → h < 256
    → c.kind < 2
    → h / 16 % 2 ≡ c.kind
    → credential h 4 c.payload ≡ c
credential_payment c h small hk e = ground (arith, header_fields h small)

pub credential_stake :
    (c : StakeCredential) (h : ℕ)
    → h < 256
    → c.kind < 2
    → h / 32 % 2 ≡ c.kind
    → credential h 5 c.payload ≡ c
credential_stake c h small hk e = ground (arith, header_fields h small)

module _ (lib : ByronLibraries) (input spare : List ℕ) (h : ℕ) (small : h < 256) where
  pub goes_to_base : h / 16 < 4 → read_by_header lib input spare h ≡ read_base input spare h
  unfolding read_by_header
  goes_to_base e = ground (arith, header_fields h small)

  pub goes_to_pointer :
      4 ≤ h / 16 → h / 16 < 6 → read_by_header lib input spare h ≡ read_pointer input spare h
  unfolding read_by_header
  goes_to_pointer e f = ground (arith, header_fields h small)

  pub goes_to_enterprise :
      6 ≤ h / 16 → h / 16 < 8 → read_by_header lib input spare h ≡ read_enterprise input spare h
  unfolding read_by_header
  goes_to_enterprise e f = ground (arith, header_fields h small)

  pub goes_to_reward : 14 ≤ h / 16 → read_by_header lib input spare h ≡ read_reward input spare h
  unfolding read_by_header
  goes_to_reward e = ground (arith, header_fields h small)
