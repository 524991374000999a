-- ===== src/Address/Text/Canonical.antt =====
-- `NewAddress` and the texts of one address.
use go_cardano_serialization.Base.{
  ℕ, ◌/◌, ◌%◌, ◌≤◌, ◌<◌, ◌≡◌, true, ◌||◌, ◌⊎◌, List, ◌∷◌, length, ok,
}
use go_cardano_serialization.Bech32.Text.{codes, to_lower}
use go_cardano_serialization.Bech32.Codec.{encode, decode}
use go_cardano_serialization.Bech32.Codec.Canonical.{encode-decode}
use go_cardano_serialization.Address.Types.{Address}
use go_cardano_serialization.Address.Bytes.{address_bytes}
use go_cardano_serialization.Address.Parse.Canonical.{address_bytes-new_address_from_bytes}
use go_cardano_serialization.Address.Text.{TextLibraries, has_prefix, new_address}

-- A text that starts with addr or stake and that Decode takes to the bytes of a base, enterprise
-- or reward address, of exactly its size and of a known network, is read by NewAddress, and
-- Encode writes it again, up to its letter case, from its own prefix and Bytes of what was read.
pub encode-new_address :
    (lib : TextLibraries) (spare raw hrp : List ℕ) (header : ℕ) (rest : List ℕ)
    → (has_prefix (codes "addr") raw || has_prefix (codes "stake") raw) ≡ true
    → decode raw ≡ ok (hrp, header ∷ rest)
    → header < 256
    → header % 16 < 2
    → ((header < 64) × (length rest ≡ 56))
      ⊎ (((6 ≤ header / 16) × (header / 16 < 8) ⊎ (14 ≤ header / 16)) × (length rest ≡ 28))
    → (a : Address) × (new_address lib raw spare ≡ ok a)
      × (t : List ℕ) × (encode hrp (address_bytes lib.byron_libraries a) ≡ ok t)
      × (to_lower t ≡ to_lower raw)
unfolding new_address
encode-new_address lib spare raw hrp header rest known e small net sizes =
    let (a, there, bytes) =
      address_bytes-new_address_from_bytes lib.byron_libraries spare header small net rest sizes in
    let (t, again, same) = encode-decode raw hrp (header ∷ rest) e in
    (a, rw (known, e) there, t, rw bytes again, same)
