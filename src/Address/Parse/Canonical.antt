-- ===== src/Address/Parse/Canonical.antt =====
-- `Bytes` makes the input again of what `NewAddressFromBytes` read, so two inputs of one address
-- are the same.
use go_cardano_serialization.Base.{
  ℕ, ◌/◌, ◌%◌, ◌≤◌, ◌<◌, ◌≡◌, sym, ap, ap₂, ◌∙◌, arith, List, ◌∷◌, ◌++◌, length, ok, bit_and,
  bit_or, u8, ◌<<<◌, inl, inr, ◌⊎◌, take, drop, length-take_le, length-drop, take-append-drop,
  replicate,
}
use go_cardano_serialization.Address.Types.{Address}
use go_cardano_serialization.Address.Byron.{ByronLibraries}
use go_cardano_serialization.Address.Bytes.{
  enterprise_bytes, reward_bytes, base_bytes, address_bytes, copy,
}
use go_cardano_serialization.Address.Parse.{networks, read_base, new_address_from_bytes}
use go_cardano_serialization.Address.Parse.Header.{
  copy_full, credential, header_fields, header_sums, goes_to_base, goes_to_enterprise,
  goes_to_reward, read_base-parts,
}
use go_cardano_serialization.Address.Parse.RoundTrip.{read_enterprise-parts, read_reward-parts}

credential_payload : (h bit : ℕ) (r : List ℕ) → (credential h bit r).payload ≡ r
credential_payload h bit r = ground arith

credential_kind :
    (h : ℕ) (r : List ℕ)
    → h < 256
    → ((credential h 4 r).kind ≡ h / 16 % 2) × ((credential h 5 r).kind ≡ h / 32 % 2)
credential_kind h r small = ground (arith, header_fields h small)

networks_id : (n : ℕ) → n < 2 → (networks n).network_id ≡ n
unfolding networks
networks_id n h = ground arith

module _ (lib : ByronLibraries) (spare : List ℕ) (h : ℕ) (small : h < 256) (net : h % 16 < 2) where
  id_of : (networks (bit_and h 0x0f)).network_id ≡ h % 16
  id_of =
      ap (λ (t : ℕ). (networks t).network_id) (header_fields h small).0 ∙ networks_id (h % 16) net

  -- The header that is written again is a sum of its fields.
  module _ (r q : List ℕ) where
    abbrev again : (ℕ → ℕ → ℕ → ℕ) → ℕ
    again f =
        f (credential h 4 r).kind (credential h 5 q).kind (networks (bit_and h 0x0f)).network_id

    again-eq : (f : ℕ → ℕ → ℕ → ℕ) → again f ≡ f (h / 16 % 2) (h / 32 % 2) (h % 16)
    again-eq f =
        let k = (credential_kind h r small).0 in
        let s = (credential_kind h q small).1 in λ i. f (k i) (s i) (id_of i)

  -- A base, enterprise or reward address of exactly its size and of a known network is read, and
  -- Bytes of what was read is the input.
  pub address_bytes-new_address_from_bytes :
      (rest : List ℕ)
      → ((h < 64) × (length rest ≡ 56))
        ⊎ (((6 ≤ h / 16) × (h / 16 < 8) ⊎ (14 ≤ h / 16)) × (length rest ≡ 28))
      → (a : Address) × (new_address_from_bytes lib (h ∷ rest) spare ≡ ok a)
        × (address_bytes lib a ≡ h ∷ rest)
  unfolding new_address_from_bytes address_bytes enterprise_bytes reward_bytes base_bytes
  address_bytes-new_address_from_bytes rest (inr (inl (lo, hi), size)) = (
    _,
    goes_to_enterprise lib (h ∷ rest) spare h small lo hi
        ∙ read_enterprise-parts lib spare h rest size,
    ap₂ ◌∷◌
        (again-eq rest rest (λ k s n. bit_or (bit_or 0x60 (u8 (k <<< 4))) (bit_and n 0xf))
          ∙ (header_sums (h % 16) (h / 16 % 2) 0 net (omega arith) (omega arith)).1
          ∙ omega arith)
        (ap (copy (replicate 28 0)) (credential_payload h 4 rest) ∙ copy_full _ rest size),
  )
  address_bytes-new_address_from_bytes rest (inr (inr lo, size)) = (
    _,
    goes_to_reward lib (h ∷ rest) spare h small lo ∙ read_reward-parts lib spare h rest size,
    ap₂ ◌∷◌
        (again-eq rest rest (λ k s n. bit_or (bit_or 0xe0 (u8 (k <<< 4))) (bit_and n 0xf))
          ∙ (header_sums (h % 16) (h / 16 % 2) 0 net (omega arith) (omega arith)).2
          ∙ omega arith)
        (ap (copy (replicate 28 0)) (credential_payload h 4 rest) ∙ copy_full _ rest size),
  )
  address_bytes-new_address_from_bytes rest (inl (lo, size)) =
      let p = take 28 rest in
      let q = drop 28 rest in
      let hp : length p ≡ 28 = length-take_le 28 rest (omega arith) in
      let hq : length q ≡ 28 = omega (arith, length-drop 28 rest) in
      (
        _,
        goes_to_base lib (h ∷ rest) spare h small (omega arith)
            ∙ ap (λ (t : List ℕ). read_base (h ∷ t) spare h) (sym (take-append-drop 28 rest))
            ∙ read_base-parts h p q spare hp hq,
        ap₂ ◌∷◌
            (again-eq p q (λ k s n. bit_or (bit_or (u8 (k <<< 4)) (u8 (s <<< 5))) (bit_and n 0xf))
              ∙ (header_sums (h % 16) (h / 16 % 2) (h / 32 % 2) net (omega arith) (omega arith)).0
              ∙ omega arith)
            (ap₂ ◌++◌ (ap (copy (replicate 28 0)) (credential_payload h 4 p) ∙ copy_full _ p hp)
                (ap (copy (replicate 28 0)) (credential_payload h 5 q) ∙ copy_full _ q hq)
              ∙ take-append-drop 28 rest),
      )
