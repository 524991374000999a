-- ===== src/Address/Parse/Sizes.antt =====
-- Which inputs `NewAddressFromBytes` accepts, refuses and does not survive, by the header and the
-- number of bytes.
use go_cardano_serialization.Base.{
  ℕ, ◌+◌, ◌/◌, ◌≤◌, ◌<◌, ◌≡◌, ◌∙◌, arith, true, false, List, ◌∷◌, ◌++◌, length, leb, ok, err, panic,
  ◌⊎◌, inl, inr, bit_and, Bool-cases, take, drop,
}
use go_cardano_serialization.Address.Types.{Address, base, BaseAddress}
use go_cardano_serialization.Address.Byron.{
  ByronLibraries, not_enough, trailing_data, unsupported_address,
}
use go_cardano_serialization.Address.Parse.{
  networks, read_addr_cred, read_base, read_enterprise, read_reward, read_by_header,
  new_address_from_bytes,
}
use go_cardano_serialization.Address.Parse.Header.{
  credential, header_fields, goes_to_base, goes_to_enterprise, goes_to_reward,
}
use go_cardano_serialization.Address.Parse.RoundTrip.{read_enterprise-parts, read_reward-parts}

read_addr_cred-in :
    (input spare : List ℕ) (h bit pos : ℕ)
    → pos + 28 ≤ length (input ++ spare)
    → read_addr_cred input spare h bit pos
      ≡ ok (credential h bit (take 28 (drop pos (input ++ spare))))
unfolding read_addr_cred
read_addr_cred-in input spare h bit pos fits = rw e
  where
    e : leb (pos + 28) (length (input ++ spare)) ≡ true
    e = ground arith

read_addr_cred-out :
    (input spare : List ℕ) (h bit pos : ℕ)
    → length (input ++ spare) < pos + 28
    → read_addr_cred input spare h bit pos ≡ panic
unfolding read_addr_cred
read_addr_cred-out input spare h bit pos short = rw e
  where
    e : leb (pos + 28) (length (input ++ spare)) ≡ false
    e = ground arith

-- Base addresses are never refused. With a capacity of 57 bytes the result is a base address,
-- also where the slice is shorter than that, and with less the call panics.
pub new_address_from_bytes_base :
    (lib : ByronLibraries) (header : ℕ) (rest spare : List ℕ)
    → header < 64
    → (57 ≤ length ((header ∷ rest) ++ spare)
        → (b : BaseAddress) × (new_address_from_bytes lib (header ∷ rest) spare ≡ ok (base b)))
      × (length ((header ∷ rest) ++ spare) < 57
          → new_address_from_bytes lib (header ∷ rest) spare ≡ panic)
unfolding new_address_from_bytes read_base
new_address_from_bytes_base lib header rest spare h = (λ fits. (_, there fits), gone)
  where
    input : List ℕ
    input = header ∷ rest

    to_base : read_by_header lib input spare header ≡ read_base input spare header
    to_base = goes_to_base lib input spare header (omega arith) (omega arith)

    there :
        57 ≤ length (input ++ spare)
        → read_by_header lib input spare header
          ≡ ok (
              base (record {
                network = networks (bit_and header 0x0f);
                payment = credential header 4 (take 28 (drop 1 (input ++ spare)));
                stake = credential header 5 (take 28 (drop 29 (input ++ spare)));
              }))
    there fits =
        to_base
        ∙ rw (read_addr_cred-in input spare header 4 1 (omega arith))
            (rw (read_addr_cred-in input spare header 5 29 fits))

    gone : length (input ++ spare) < 57 → read_by_header lib input spare header ≡ panic
    gone short = to_base ∙ elim (Bool-cases (leb 29 (length (input ++ spare)))) [
      | inl one ↦
          rw (read_addr_cred-in input spare header 4 1 (ground arith))
            (rw (read_addr_cred-out input spare header 5 29 short))
      | inr fewer ↦ rw (read_addr_cred-out input spare header 4 1 (ground arith))
    ]

-- An enterprise or reward address has exactly 29 bytes: with fewer or more it is refused, each
-- with its own error.
pub new_address_from_bytes_exact :
    (lib : ByronLibraries) (header : ℕ) (rest spare : List ℕ)
    → header < 256
    → ((6 ≤ header / 16) × (header / 16 < 8)) ⊎ (14 ≤ header / 16)
    → (length rest < 28 → new_address_from_bytes lib (header ∷ rest) spare ≡ err not_enough)
      × (28 < length rest → new_address_from_bytes lib (header ∷ rest) spare ≡ err trailing_data)
      × (length rest ≡ 28
          → (a : Address) × (new_address_from_bytes lib (header ∷ rest) spare ≡ ok a))
unfolding new_address_from_bytes
new_address_from_bytes_exact lib header rest spare h (inl (lo, hi)) =
    let e = goes_to_enterprise lib (header ∷ rest) spare header h lo hi in
    (
      λ s. e ∙ unfold read_enterprise in ground arith,
      λ s. e ∙ unfold read_enterprise in ground arith,
      λ s. (_, e ∙ read_enterprise-parts lib spare header rest s),
    )
new_address_from_bytes_exact lib header rest spare h (inr lo) =
    let e = goes_to_reward lib (header ∷ rest) spare header h lo in
    (
      λ s. e ∙ unfold read_reward in ground arith,
      λ s. e ∙ unfold read_reward in ground arith,
      λ s. (_, e ∙ read_reward-parts lib spare header rest s),
    )

-- Headers from 0x90 to 0xdf belong to no kind of address.
new_address_from_bytes_unsupported :
    (lib : ByronLibraries) (header : ℕ) (rest spare : List ℕ)
    → 9 ≤ header / 16
    → header / 16 < 14
    → new_address_from_bytes lib (header ∷ rest) spare ≡ err unsupported_address
unfolding new_address_from_bytes read_by_header
new_address_from_bytes_unsupported lib header rest spare lo hi =
    ground (arith, header_fields header)
