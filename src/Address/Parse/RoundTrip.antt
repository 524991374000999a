-- ===== src/Address/Parse/RoundTrip.antt =====
-- `NewAddressFromBytes` reads back what `Bytes` wrote, for every kind of address.
use go_cardano_serialization.Base.{
  ℕ, ◌+◌, ◌*◌, ◌/◌, ◌%◌, ◌<◌, ◌≡◌, refl, sym, ap, ◌∙◌, arith, List, [], ◌∷◌, length, Result, ok,
  ◌>>=◌, IsU64, bit_and,
}
use go_cardano_serialization.Network.{NetworkInfo}
use go_cardano_serialization.Address.Types.{
  StakeCredential, Address, base, enterprise, reward, pointer, byron, BaseAddress,
  EnterpriseAddress, RewardAddress, PointerAddress, ByronAddress, new_enterprise_address,
  new_reward_address, new_pointer, new_pointer_address,
}
use go_cardano_serialization.Address.Byron.{
  ByronLibraries, AddressError, byron_bytes, unmarshal_byron,
}
use go_cardano_serialization.Address.Byron.RoundTrip.{
  ByronLaws, byron_bytes-eq, unmarshal_byron-byron_bytes,
}
use go_cardano_serialization.Address.Bytes.{
  base_bytes, enterprise_bytes, reward_bytes, pointer_bytes, address_bytes,
}
use go_cardano_serialization.Address.Parse.{
  networks, read_enterprise, read_reward, read_by_header, new_address_from_bytes,
}
use go_cardano_serialization.Address.Parse.Pointer.{written, read_pointer-parts}
use go_cardano_serialization.Address.Parse.Header.{
  IsCredential, IsNetwork, copy_full, credential, read_addr_cred-parts, read_base-parts,
  header_fields, header_sums, network_small, networks-network_id, credential_payment,
  credential_stake, goes_to_base, goes_to_pointer, goes_to_enterprise, goes_to_reward,
}

-- An address that the constructor functions make from one of the two networks, hashes of 28
-- bytes and numbers of 64 bits.
abbrev pub IsValid : Address → Type 0
IsValid (base b) = IsNetwork b.network × IsCredential b.payment × IsCredential b.stake
IsValid (enterprise e) = IsNetwork e.network × IsCredential e.payment
IsValid (reward r) = IsNetwork r.network × IsCredential r.stake
IsValid (pointer p) =
    IsNetwork p.network
    × IsCredential p.payment
    × IsU64 p.stake.slot
    × IsU64 p.stake.tx_index
    × IsU64 p.stake.cert_index
IsValid (byron b) = (length b.hash ≡ 28) × (b.tag ≡ 0)

module _ (lib : ByronLibraries) (spare : List ℕ) where
  pub base_round_trip :
      (b : BaseAddress)
      → IsValid (base b)
      → new_address_from_bytes lib (base_bytes b) spare ≡ ok (base b)
  unfolding new_address_from_bytes base_bytes
  base_round_trip b (hn, hp, hs) =
      rw
        (
          copy_full _ b.payment.payload hp.hash_size,
          copy_full _ b.stake.payload hs.hash_size,
          (header_sums b.network.network_id b.payment.kind b.stake.kind id_small hp.kind_small
              hs.kind_small).0,
        )
        (goes_to_base lib _ spare h small (omega (arith, id_small, hp.kind_small, hs.kind_small))
          ∙ read_base-parts h b.payment.payload b.stake.payload spare hp.hash_size hs.hash_size
          ∙ cc (
            low,
            networks-network_id b.network hn,
            credential_payment b.payment h small hp.kind_small
                (omega (arith, id_small, hp.kind_small, hs.kind_small)),
            credential_stake b.stake h small hs.kind_small
                (omega (arith, id_small, hp.kind_small, hs.kind_small)),
          ))
    where
      id_small : b.network.network_id < 2
      id_small = network_small b.network hn

      h : ℕ
      h = b.stake.kind * 32 + b.payment.kind * 16 + b.network.network_id

      small : h < 256
      small = omega (arith, id_small, hp.kind_small, hs.kind_small)

      low : bit_and h 0x0f ≡ b.network.network_id
      low = omega (arith, (header_fields h small).0, id_small)

  pub read_enterprise-parts :
      (h : ℕ) (p : List ℕ)
      → length p ≡ 28
      → read_enterprise (h ∷ p) spare h
        ≡ ok (
            enterprise (record { network = networks (bit_and h 0x0f); payment = credential h 4 p }))
  unfolding read_enterprise new_enterprise_address
  read_enterprise-parts h p e =
      ground (arith, read_addr_cred-parts (h ∷ p) spare (h ∷ []) p spare h 4 1 refl refl e)

  pub read_reward-parts :
      (h : ℕ) (p : List ℕ)
      → length p ≡ 28
      → read_reward (h ∷ p) spare h
        ≡ ok (reward (record { network = networks (bit_and h 0x0f); stake = credential h 4 p }))
  unfolding read_reward new_reward_address
  read_reward-parts h p e =
      ground (arith, read_addr_cred-parts (h ∷ p) spare (h ∷ []) p spare h 4 1 refl refl e)

  module _ (net : NetworkInfo) (c : StakeCredential) (hn : IsNetwork net)
      (hc : IsCredential c) where
    -- What a header `top` + kind * 16 + network gives back.
    header_parts :
        (top : ℕ)
        → top % 32 ≡ 0
        → top < 0xe1
        → let h = top + c.kind * 16 + net.network_id in
          (networks (bit_and h 0x0f) ≡ net)
          × (credential h 4 c.payload ≡ c)
          × (h < 256)
          × (h / 16 ≡ top / 16 + c.kind)
    header_parts top e t =
        let id_small = network_small net hn in
        let h = top + c.kind * 16 + net.network_id in
        let small : h < 256 = omega (arith, id_small, hc.kind_small) in
        (
          ap networks (omega (arith, (header_fields h small).0, id_small, hc.kind_small))
              ∙ networks-network_id net hn,
          credential_payment c h small hc.kind_small (omega (arith, id_small, hc.kind_small)),
          small,
          omega (arith, id_small, hc.kind_small),
        )

  pub enterprise_round_trip :
      (e : EnterpriseAddress)
      → IsValid (enterprise e)
      → new_address_from_bytes lib (enterprise_bytes e) spare ≡ ok (enterprise e)
  unfolding new_address_from_bytes enterprise_bytes
  enterprise_round_trip e (hn, hp) =
      let (net, cred, small, top) =
        header_parts e.network e.payment hn hp 0x60 refl (omega arith) in
      let h = 0x60 + e.payment.kind * 16 + e.network.network_id in
      rw
        (
          copy_full _ e.payment.payload hp.hash_size,
          (header_sums e.network.network_id e.payment.kind 0 (network_small e.network hn)
              hp.kind_small (omega arith)).1,
        )
        (goes_to_enterprise lib _ spare h small (omega (arith, top))
            (omega (arith, top, hp.kind_small))
          ∙ read_enterprise-parts h e.payment.payload hp.hash_size
          ∙ cc (net, cred))

  pub reward_round_trip :
      (r : RewardAddress)
      → IsValid (reward r)
      → new_address_from_bytes lib (reward_bytes r) spare ≡ ok (reward r)
  unfolding new_address_from_bytes reward_bytes
  reward_round_trip r (hn, hp) =
      let (net, cred, small, top) = header_parts r.network r.stake hn hp 0xe0 refl (omega arith) in
      let h = 0xe0 + r.stake.kind * 16 + r.network.network_id in
      rw
        (
          copy_full _ r.stake.payload hp.hash_size,
          (header_sums r.network.network_id r.stake.kind 0 (network_small r.network hn)
              hp.kind_small (omega arith)).2,
        )
        (goes_to_reward lib _ spare h small (omega (arith, top))
          ∙ read_reward-parts h r.stake.payload hp.hash_size
          ∙ cc (net, cred))

  pointer_round_trip :
      (p : PointerAddress)
      → IsValid (pointer p)
      → new_address_from_bytes lib (pointer_bytes p) spare ≡ ok (pointer p)
  unfolding new_address_from_bytes pointer_bytes written new_pointer_address new_pointer
  pointer_round_trip p (hn, hp, ha, hb, hc) =
      let (net, cred, small, top) =
        header_parts p.network p.payment hn hp 0x40 refl (omega arith) in
      let h = 0x40 + p.payment.kind * 16 + p.network.network_id in
      rw
        (header_sums p.network.network_id p.payment.kind 0 (network_small p.network hn)
          hp.kind_small (omega arith)).3
        (goes_to_pointer lib _ spare h small (omega (arith, top))
            (omega (arith, top, hp.kind_small))
          ∙ read_pointer-parts spare h p.payment.payload p.stake.slot p.stake.tx_index
              p.stake.cert_index hp.hash_size ha hb hc
          ∙ cc (net, cred))

byron_round_trip :
    (lib : ByronLibraries) (spare : List ℕ) (b : ByronAddress) (laws : ByronLaws lib)
    → length b.hash ≡ 28
    → b.tag ≡ 0
    → new_address_from_bytes lib (byron_bytes lib b) spare ≡ ok (byron b)
unfolding new_address_from_bytes read_by_header
byron_round_trip lib spare b laws h t = rw (byron_bytes-eq lib laws b) (
    ap (λ (r : Result AddressError ByronAddress). r >>= (λ b. ok (byron b)))
      (ap (unmarshal_byron lib) (sym (byron_bytes-eq lib laws b))
        ∙ unmarshal_byron-byron_bytes lib laws b h t))

-- NewAddressFromBytes gives back every valid address from the bytes that Bytes makes of it,
-- whatever the array of the slice holds behind them. For Byron addresses the CBOR library and the
-- CRC must keep their laws.
pub new_address_from_bytes-address_bytes :
    (lib : ByronLibraries) (spare : List ℕ) (a : Address)
    → ByronLaws lib
    → IsValid a
    → new_address_from_bytes lib (address_bytes lib a) spare ≡ ok a
unfolding address_bytes
new_address_from_bytes-address_bytes lib spare (base b) laws v = base_round_trip lib spare b v
new_address_from_bytes-address_bytes lib spare (enterprise e) laws v =
    enterprise_round_trip lib spare e v
new_address_from_bytes-address_bytes lib spare (reward r) laws v = reward_round_trip lib spare r v
new_address_from_bytes-address_bytes lib spare (pointer p) laws v = pointer_round_trip lib spare p v
new_address_from_bytes-address_bytes lib spare (byron b) laws (h, t) =
    byron_round_trip lib spare b laws h t
