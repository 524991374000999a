-- ===== src/Address/Text/Prefix.antt =====
-- `NewAddress` and the human-readable part of a text.
use go_cardano_serialization.Base.{
  ℕ, ◌≤◌, ◌≡◌, refl, arith, true, ◌||◌, List, [], ◌∷◌, ◌++◌, length, All, ◌==◌, Bool-cases, inl,
  inr, ok, IsByte,
}
use go_cardano_serialization.Bech32.Text.{codes}
use go_cardano_serialization.Bech32.Codec.{encode}
use go_cardano_serialization.Bech32.Codec.Symbols.{IsLowerCharacter}
use go_cardano_serialization.Bech32.Codec.RoundTrip.{decode-encode}
use go_cardano_serialization.Address.Types.{Address, base, enterprise, reward, pointer, byron}
use go_cardano_serialization.Address.Bytes.{address_bytes}
use go_cardano_serialization.Address.Parse.{new_address_from_bytes}
use go_cardano_serialization.Address.Parse.RoundTrip.{
  base_round_trip, enterprise_round_trip, reward_round_trip,
}
use go_cardano_serialization.Address.Text.{TextLibraries, has_prefix, new_address}
use go_cardano_serialization.Address.Text.RoundTrip.{
  IsBech32, base_bytes-IsByte, enterprise_bytes-IsByte, reward_bytes-IsByte,
}

has_prefix-append : (q p rest : List ℕ) → has_prefix q p ≡ true → has_prefix q (p ++ rest) ≡ true
unfolding has_prefix
has_prefix-append [] p rest h = refl
has_prefix-append (c ∷ q) [] rest h = cc
has_prefix-append (c ∷ q) (d ∷ p) rest h =
    let here : (c == d) ≡ true = ground (arith, h) in
    rw here (has_prefix-append q p rest (ground (arith, h, here)))

known-append :
    (p rest : List ℕ)
    → (has_prefix (codes "addr") p || has_prefix (codes "stake") p) ≡ true
    → (has_prefix (codes "addr") (p ++ rest) || has_prefix (codes "stake") (p ++ rest)) ≡ true
known-append p rest h = elim (Bool-cases (has_prefix (codes "addr") p)) [
  | inl is_addr ↦ rw (has_prefix-append (codes "addr") p rest is_addr) refl
  | inr not_addr ↦
      ground
        (arith, h, not_addr, has_prefix-append (codes "stake") p rest (ground (arith, h, not_addr)))
]

not_empty :
    (p : List ℕ)
    → (has_prefix (codes "addr") p || has_prefix (codes "stake") p) ≡ true
    → 1 ≤ length p
unfolding has_prefix
not_empty [] h = cc
not_empty (c ∷ p) h = omega arith

module _ (lib : TextLibraries) (spare : List ℕ) (p : List ℕ) (low : All IsLowerCharacter p)
    (known : (has_prefix (codes "addr") p || has_prefix (codes "stake") p) ≡ true) where
  read_under :
      (payload : List ℕ) (a : Address)
      → All IsByte payload
      → new_address_from_bytes lib.byron_libraries payload spare ≡ ok a
      → (s : List ℕ) × (encode p payload ≡ ok s) × (new_address lib s spare ≡ ok a)
  unfolding new_address
  read_under payload a hb back =
      let (rest, there, again) = decode-encode p payload (not_empty p known) low hb in
      (p ++ rest, there, rw (known-append p rest known, again) back)

  -- NewAddress does not look at the prefix of a text beyond its first letters: the bytes of a
  -- valid base, enterprise or reward address are read as that address under every lower-case
  -- prefix that starts with addr or stake, that of the other network or of the other kind too.
  pub new_address-any_prefix :
      (a : Address)
      → IsBech32 a
      → (s : List ℕ) × (encode p (address_bytes lib.byron_libraries a) ≡ ok s)
        × (new_address lib s spare ≡ ok a)
  unfolding address_bytes
  new_address-any_prefix (base b) v =
      read_under _ (base b) (base_bytes-IsByte b v)
        (base_round_trip lib.byron_libraries spare b v.0)
  new_address-any_prefix (enterprise e) v =
      read_under _ (enterprise e) (enterprise_bytes-IsByte e v)
        (enterprise_round_trip lib.byron_libraries spare e v.0)
  new_address-any_prefix (reward r) v =
      read_under _ (reward r) (reward_bytes-IsByte r v)
        (reward_round_trip lib.byron_libraries spare r v.0)
  new_address-any_prefix (pointer q) v = absurd v
  new_address-any_prefix (byron b) v = absurd v
