-- ===== src/Address/Examples.antt =====
-- Runs of the package address on the addresses of address/address_test.go, the theorems about it
-- at concrete inputs, and libraries that keep the laws of `ByronLaws`.
use go_cardano_serialization.Base.{
  ◌*◌, ◌^◌, ◌⊎◌, ℕ, zero, suc, ◌+◌, ◌%◌, ◌≡◌, ◌<◌, ◌≤◌, refl, arith, true, List, [], ◌∷◌, ◌++◌,
  Option, none, some, ok, err, panic, length, take, drop, take-append_length, drop-append_length,
  inr, All, IsByte, ap, ◌||◌,
}
use go_cardano_serialization.Network.{main_net}
use go_cardano_serialization.Address.Types.{
  Address, new_reward_address, base, reward, byron, BaseAddress, ByronAddress,
}
use go_cardano_serialization.Address.VariableNat.{
  variable_nat_encode, variable_nat_decode, encode_loop, decode_loop, unexpected_bytes,
}
use go_cardano_serialization.Address.VariableNat.RoundTrip.{
  variable_nat_decode-encode, variable_nat_encode_shape,
}
use go_cardano_serialization.Address.Byron.{ByronLibraries, RawAddr, not_enough, trailing_data}
use go_cardano_serialization.Address.Byron.RoundTrip.{ByronLaws}
use go_cardano_serialization.Address.Bytes.{address_bytes, reward_bytes, copy}
use go_cardano_serialization.Address.Parse.{
  new_address_from_bytes, read_by_header, read_reward, read_addr_cred, networks,
}
use go_cardano_serialization.Address.Parse.Header.{IsCredential}
use go_cardano_serialization.Address.Parse.RoundTrip.{new_address_from_bytes-address_bytes}
use go_cardano_serialization.Address.Parse.Sizes.{
  new_address_from_bytes_base, new_address_from_bytes_exact,
}
use go_cardano_serialization.Address.Parse.Canonical.{address_bytes-new_address_from_bytes}
use go_cardano_serialization.Address.Text.{TextLibraries, to_string, new_address, has_prefix}
use go_cardano_serialization.Bech32.Text.{
  codes, to_lower, same_text, lower_byte, upper_byte, last_index, bad_character, index_rune,
}
use go_cardano_serialization.Bech32.Codec.{encode, decode, decode_at, read_symbols}
use go_cardano_serialization.Bech32.Checksum.{verify_checksum}
use go_cardano_serialization.Bech32.ConvertBits.{convert_bits}
use go_cardano_serialization.Address.Text.Canonical.{encode-new_address}
use go_cardano_serialization.Address.Text.Prefix.{new_address-any_prefix}
use go_cardano_serialization.Address.Text.RoundTrip.{new_address-to_string}

-- A coding of Byron addresses that can be read back: tag, network, size of the hash, hash, payload.
abbrev toy_parts : ByronAddress → List ℕ
toy_parts b =
    b.tag
    ∷ elim b.attributes.network [ none ↦ 0 | some n ↦ n + 1 ]
    ∷ length b.hash
    ∷ (b.hash ++ b.attributes.payload)

abbrev toy_network : ℕ → Option ℕ
toy_network zero = none
toy_network (suc n) = some n

abbrev toy_read : List ℕ → Option ByronAddress
toy_read (tag ∷ net ∷ size ∷ rest) = some (record {
  hash = take size rest;
  attributes = record { payload = drop size rest; network = toy_network net };
  tag = tag;
})
toy_read _ = none

abbrev toy_read_raw : List ℕ → Option RawAddr
toy_read_raw (head ∷ n ∷ sum ∷ content) =
    some (record { tag_number = n; content = some content; checksum = sum })
toy_read_raw _ = none

abbrev toy : ByronLibraries
toy = record {
  marshal_parts = λ b. some (toy_parts b);
  marshal_raw = λ n content sum. some (0x82 ∷ n ∷ sum ∷ content);
  well_formed = λ _. true;
  unmarshal_raw = toy_read_raw;
  unmarshal_parts = toy_read;
  checksum_ieee = λ content. length content % 4294967296;
}

toy_network_lem : (o : Option ℕ) → toy_network (elim o [ none ↦ 0 | some n ↦ n + 1 ]) ≡ o
toy_network_lem none = refl
toy_network_lem (some n) = ap toy_network {y = suc n} (omega arith)

toy-ByronLaws : ByronLaws toy
toy-ByronLaws = record {
  parts = toy_parts;
  parts_marshal = λ b. refl;
  parts_unmarshal = λ b i. some (record {
    hash = take-append_length b.hash b.attributes.payload (length b.hash) refl i;
    attributes = record {
      payload = drop-append_length b.hash b.attributes.payload (length b.hash) refl i;
      network = toy_network_lem b.attributes.network i;
    };
    tag = b.tag;
  });
  raw = λ n content sum. n ∷ sum ∷ content;
  raw_marshal = λ n content sum. refl;
  raw_well_formed = λ n content sum. refl;
  raw_unmarshal = λ n content sum small. refl;
  checksum_small = λ content. omega arith;
}

abbrev pub toy_texts : TextLibraries
toy_texts = record {
  byron_libraries = toy;
  base58_encode = λ bytes. bytes;
  base58_decode = λ bytes. bytes;
  btcutil_encode = λ hrp bytes. none;
}

abbrev stake_hash : List ℕ
stake_hash =
    92 ∷ 125 ∷ 42 ∷ 103 ∷ 146 ∷ 229 ∷ 154 ∷ 39 ∷ 152 ∷ 138 ∷ 190 ∷ 167 ∷ 236 ∷ 0 ∷ 99 ∷ 187 ∷ 15
    ∷ 133 ∷ 153 ∷ 151 ∷ 116 ∷ 30 ∷ 241 ∷ 19 ∷ 158 ∷ 68 ∷ 34 ∷ 150 ∷ []

abbrev stake_address : Address
stake_address =
    reward (record { network = main_net; stake = record { kind = 0; payload = stake_hash } })

abbrev byron_address : Address
byron_address = byron (record {
  hash = stake_hash;
  attributes = record { payload = 1 ∷ 2 ∷ []; network = some 3 };
  tag = 0;
})

read_stake : new_address_from_bytes toy (225 ∷ stake_hash) [] ≡ ok stake_address
unfolding new_address_from_bytes read_by_header read_reward read_addr_cred networks
    new_reward_address
read_stake = refl

write_stake : address_bytes toy stake_address ≡ 225 ∷ stake_hash
unfolding address_bytes reward_bytes copy
write_stake = refl

encode_300 : variable_nat_encode 300 ≡ 0x82 ∷ 0x2c ∷ []
unfolding variable_nat_encode encode_loop
encode_300 = refl

decode_cut : variable_nat_decode (0x82 ∷ []) ≡ err unexpected_bytes
unfolding variable_nat_decode decode_loop
decode_cut = refl

stake_hash-IsCredential : IsCredential (record { kind = 0; payload = stake_hash })
stake_hash-IsCredential = record { kind_small = omega arith; hash_size = refl }

new_address-to_string_example :
    (s : List ℕ) × (to_string toy_texts stake_address ≡ ok s)
    × (new_address toy_texts s (9 ∷ []) ≡ ok stake_address)
new_address-to_string_example =
    new_address-to_string toy_texts (9 ∷ []) stake_address
      ((inr refl, stake_hash-IsCredential), omega arith)

new_address_from_bytes-address_bytes_example :
    new_address_from_bytes toy (address_bytes toy byron_address) (9 ∷ []) ≡ ok byron_address
new_address_from_bytes-address_bytes_example =
    new_address_from_bytes-address_bytes toy (9 ∷ []) byron_address toy-ByronLaws (refl, refl)

address_bytes-new_address_from_bytes_example :
    (a : Address) × (new_address_from_bytes toy (225 ∷ stake_hash) [] ≡ ok a)
    × (address_bytes toy a ≡ 225 ∷ stake_hash)
address_bytes-new_address_from_bytes_example =
    address_bytes-new_address_from_bytes toy [] 225 (omega arith) (omega arith) stake_hash
      (inr (inr (omega arith), refl))

new_address_from_bytes_base_example :
    (57 ≤ length ((0 ∷ stake_hash) ++ [])
      → (b : BaseAddress) × (new_address_from_bytes toy (0 ∷ stake_hash) [] ≡ ok (base b)))
    × (length ((0 ∷ stake_hash) ++ []) < 57
        → new_address_from_bytes toy (0 ∷ stake_hash) [] ≡ panic)
new_address_from_bytes_base_example = new_address_from_bytes_base toy 0 stake_hash [] (omega arith)

new_address_from_bytes_exact_example :
    (length stake_hash < 28 → new_address_from_bytes toy (225 ∷ stake_hash) [] ≡ err not_enough)
    × (28 < length stake_hash
        → new_address_from_bytes toy (225 ∷ stake_hash) [] ≡ err trailing_data)
    × (length stake_hash ≡ 28
        → (a : Address) × (new_address_from_bytes toy (225 ∷ stake_hash) [] ≡ ok a))
new_address_from_bytes_exact_example =
    new_address_from_bytes_exact toy 225 stake_hash [] (omega arith) (inr (omega arith))

variable_nat_decode-encode_example :
    variable_nat_decode (variable_nat_encode 300 ++ (7 ∷ []))
    ≡ ok (300, length (variable_nat_encode 300))
variable_nat_decode-encode_example = variable_nat_decode-encode 300 (7 ∷ []) (omega arith)

variable_nat_encode_shape_example :
    All IsByte (variable_nat_encode 300)
    × (1 ≤ length (variable_nat_encode 300))
    × (length (variable_nat_encode 300) ≤ 10)
    × (300 < 128 ^ length (variable_nat_encode 300))
    × ((length (variable_nat_encode 300) ≡ 1)
        ⊎ (128 ^ length (variable_nat_encode 300) ≤ 128 * 300))
variable_nat_encode_shape_example = variable_nat_encode_shape 300 (omega arith)

-- The text of the address.
abbrev stake_text : List ℕ
stake_text = codes "stake1u9w862n8jtje5fuc32l20mqqvwaslpveja6paugnnezz99shxsy55"

stake_text-read : decode stake_text ≡ ok (codes "stake", 225 ∷ stake_hash)
unfolding decode same_text lower_byte upper_byte last_index decode_at bad_character read_symbols
    index_rune verify_checksum convert_bits
stake_text-read = refl

stake_text-known :
    (has_prefix (codes "addr") stake_text || has_prefix (codes "stake") stake_text) ≡ true
unfolding has_prefix
stake_text-known = refl

encode-new_address_example :
    (a : Address) × (new_address toy_texts stake_text (9 ∷ []) ≡ ok a)
    × (t : List ℕ) × (encode (codes "stake") (address_bytes toy a) ≡ ok t)
    × (to_lower t ≡ to_lower stake_text)
encode-new_address_example =
    encode-new_address toy_texts (9 ∷ []) stake_text (codes "stake") 225 stake_hash stake_text-known
      stake_text-read (omega arith) (omega arith) (inr (inr (omega arith), refl))

-- A reward address of the main network under the prefix of a base address of the test network.
test_prefix-known :
    (has_prefix (codes "addr") (codes "addr_test")
      || has_prefix (codes "stake") (codes "addr_test"))
    ≡ true
unfolding has_prefix
test_prefix-known = refl

new_address-any_prefix_example :
    (s : List ℕ) × (encode (codes "addr_test") (address_bytes toy stake_address) ≡ ok s)
    × (new_address toy_texts s (9 ∷ []) ≡ ok stake_address)
new_address-any_prefix_example =
    new_address-any_prefix toy_texts (9 ∷ []) (codes "addr_test") (omega arith) test_prefix-known
      stake_address ((inr refl, stake_hash-IsCredential), omega arith)
