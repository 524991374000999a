-- ===== src/Address/Parse.antt =====
-- `NewAddressFromBytes` and `readAddrCred` of address/address.go. A Go slice is its elements and
-- the bytes that its array holds behind them, up to its capacity: slicing may reach into those.
pub mod Header
pub mod Pointer
pub mod RoundTrip
pub mod Sizes
pub mod Canonical
use go_cardano_serialization.Base.{
  ℕ, zero, suc, ◌+◌, ◌*◌, ◌^◌, Bool, true, false, List, [], ◌∷◌, ◌++◌, length, take, drop, leb, ltb,
  ◌==◌, if◌then◌else◌, bit_and, ◌<<<◌, ◌>>>◌, u8, Result, ok, err, panic, ◌>>=◌, ◌>>◌, guard,
  in_range, ◌||◌, not,
}
use go_cardano_serialization.Network.{NetworkInfo, test_net, main_net}
use go_cardano_serialization.Address.Types.{
  StakeCredential, new_key_stake_credential, new_script_stake_credential, Address, base, enterprise,
  reward, pointer, byron, new_enterprise_address, new_reward_address, new_pointer,
  new_pointer_address,
}
use go_cardano_serialization.Address.VariableNat.{VariableNatError, variable_nat_decode}
use go_cardano_serialization.Address.Byron.{
  ByronLibraries, AddressError, unsupported_address, not_enough, trailing_data, unexpected_data,
  unmarshal_byron,
}

-- The map `networks`; a missing key gives the zero value.
unfoldable pub networks : ℕ → NetworkInfo
networks net_id =
    if net_id == 1
    then main_net
    else if net_id == 0
    then test_net
    else record { network_id = 0; protocol_magic = 0 }

-- `data[pos : pos+28]` may go up to the capacity of `data`.
unfoldable pub read_addr_cred : List ℕ → List ℕ → ℕ → ℕ → ℕ → Result AddressError StakeCredential
read_addr_cred input spare header bit pos = do
  in_range (leb (pos + 28) (length (input ++ spare)))
  let hash_bytes = take 28 (drop pos (input ++ spare))
  ok (
      if bit_and header (u8 (1 <<< bit)) == 0
      then new_key_stake_credential hash_bytes
      else new_script_stake_credential hash_bytes)

abbrev pub of_variable_nat {ℓ} : {A : Type ℓ} → Result VariableNatError A → Result AddressError A
of_variable_nat (ok a) = ok a
of_variable_nat (err e) = err unexpected_data
of_variable_nat panic = panic

unfoldable pub read_base : List ℕ → List ℕ → ℕ → Result AddressError Address
read_base input spare header = do
  payment ← read_addr_cred input spare header 4 1
  stake ← read_addr_cred input spare header 5 (1 + 28)
  ok (base (record { network = networks (bit_and header 0x0f); payment = payment; stake = stake }))

-- `byteIndex` moves by the bytes that each number took, so it never passes the end.
unfoldable pub read_pointer : List ℕ → List ℕ → ℕ → Result AddressError Address
read_pointer input spare header = do
  guard (not (ltb (length input) (1 + 28 + 1 + 1 + 1))) not_enough
  payment_cred ← read_addr_cred input spare header 4 1
  (slot, slot_bytes) ← of_variable_nat (variable_nat_decode (drop 29 input))
  (tx_index, tx_bytes) ← of_variable_nat (variable_nat_decode (drop (29 + slot_bytes) input))
  (cert_index, cert_bytes) ←
      of_variable_nat (variable_nat_decode (drop (29 + slot_bytes + tx_bytes) input))
  guard (not (ltb (29 + slot_bytes + tx_bytes + cert_bytes) (length input))) trailing_data
  ok (
      pointer (
        new_pointer_address (networks (bit_and header 0x0f)) payment_cred
          (new_pointer slot tx_index cert_index)))

-- The length checks that enterprise and reward addresses share.
abbrev exact_size : List ℕ → Result AddressError (Unit {0})
exact_size input = do
  guard (not (ltb (length input) (1 + 28))) not_enough
  guard (not (ltb (1 + 28) (length input))) trailing_data

unfoldable pub read_enterprise : List ℕ → List ℕ → ℕ → Result AddressError Address
read_enterprise input spare header = do
  exact_size input
  payment ← read_addr_cred input spare header 4 1
  ok (enterprise (new_enterprise_address (networks (bit_and header 0x0f)) payment))

unfoldable pub read_reward : List ℕ → List ℕ → ℕ → Result AddressError Address
read_reward input spare header = do
  exact_size input
  stake ← read_addr_cred input spare header 4 1
  ok (reward (new_reward_address (networks (bit_and header 0x0f)) stake))

-- The `switch` on the high digit of the header.
unfoldable pub read_by_header : ByronLibraries → List ℕ → List ℕ → ℕ → Result AddressError Address
read_by_header lib input spare header =
    let kind = bit_and header 0xf0 >>> 4 in
    if kind == 0b1000
    then unmarshal_byron lib input >>= (λ b. ok (byron b))
    else if kind == 0b0000 || kind == 0b0001 || kind == 0b0010 || kind == 0b0011
    then read_base input spare header
    else if kind == 0b0100 || kind == 0b0101
    then read_pointer input spare header
    else if kind == 0b0110 || kind == 0b0111
    then read_enterprise input spare header
    else if kind == 0b1110 || kind == 0b1111
    then read_reward input spare header
    else err unsupported_address

-- `data[0]` panics on an empty slice.
unfoldable pub new_address_from_bytes :
    ByronLibraries → List ℕ → List ℕ → Result AddressError Address
new_address_from_bytes lib [] spare = panic
new_address_from_bytes lib (header ∷ rest) spare = read_by_header lib (header ∷ rest) spare header
