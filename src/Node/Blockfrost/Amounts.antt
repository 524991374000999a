-- ===== src/Node/Blockfrost/Amounts.antt =====
-- `UTXOs` of node/blockfrost.go on what the server sends: quantities in decimal.
use go_cardano_serialization.Base.{
  ℕ, ◌+◌, ◌-◌, ◌*◌, ◌^◌, ◌<◌, ◌≡◌, refl, ap, sym, ◌∙◌, arith, false, List, [], ◌∷◌, ◌++◌, map, All,
  some, u16, ok,
}
use mathlib.Core.List.{append-nil, append_assoc}
use go_cardano_serialization.Bech32.Text.{codes, same_text}
use go_cardano_serialization.Node.{atoi_uint, natural, digits_from}
use go_cardano_serialization.Node.Blockfrost.{
  AddressAmount, AddressUtxo, BlockfrostNode, blockfrost_utxos, lovelace_of, read_address_utxos,
}
use go_cardano_serialization.Tx.{TxInput, new_tx_input}

-- The number that digits write, behind the number n
unfoldable pub value : ℕ → List ℕ → ℕ
value n [] = n
value n (d ∷ ds) = value (n * 10 + d) ds

abbrev pub decimal_text : List ℕ → List ℕ
decimal_text = map (λ d. b'0' + d)

digits_from-decimal_text :
    (ds : List ℕ) (n : ℕ)
    → All (λ d. d < 10) ds
    → digits_from n (decimal_text ds) ≡ some (value n ds)
unfolding digits_from value
digits_from-decimal_text [] n h = refl
digits_from-decimal_text (d ∷ ds) n (h, hs) = ground (
  arith,
  digits_from-decimal_text ds (n * 10 + d) hs,
  ap (λ m. digits_from (n * 10 + m) (decimal_text ds)) same,
)
  where
    same : 48 + d - 48 ≡ d
    same = omega arith

atoi_uint-decimal_text :
    (d : ℕ) (ds : List ℕ)
    → All (λ c. c < 10) (d ∷ ds)
    → value 0 (d ∷ ds) < 2 ^ 63
    → atoi_uint (decimal_text (d ∷ ds)) ≡ some (value 0 (d ∷ ds))
unfolding atoi_uint natural
atoi_uint-decimal_text d ds h small = rw (digits_from-decimal_text (d ∷ ds) 0 h) (ground arith)

-- A utxo whose lovelace are the number of the digits, between amounts of other assets
pub record Holding : Type 0 where
  pub tx_hash : List ℕ
  pub output_index : ℕ
  pub front : List AddressAmount
  pub digit : ℕ
  pub digits : List ℕ
  pub back : List AddressAmount

abbrev pub IsOther : AddressAmount → Type 0
IsOther am = same_text am.unit (codes "lovelace") ≡ false

pub record IsHolding (u : Holding) : Type 0 where
  pub others_front : All IsOther u.front
  pub in_decimal : All (λ c. c < 10) (u.digit ∷ u.digits)
  pub in_range : value 0 (u.digit ∷ u.digits) < 2 ^ 63
  pub others_back : All IsOther u.back

-- What the server sends of it, and the input that it is
abbrev pub described : Holding → AddressUtxo
described u = record {
  tx_hash = u.tx_hash;
  output_index = u.output_index;
  amount =
      u.front
      ++ (record { unit = codes "lovelace"; quantity = decimal_text (u.digit ∷ u.digits) }
          ∷ u.back);
}

abbrev pub held : Holding → TxInput
held u = new_tx_input u.tx_hash (u16 u.output_index) (value 0 (u.digit ∷ u.digits))

lovelace_of-others :
    (front rest : List AddressAmount) (n : ℕ)
    → All IsOther front
    → lovelace_of n (front ++ rest) ≡ lovelace_of n rest
unfolding lovelace_of
lovelace_of-others [] rest n h = refl
lovelace_of-others (am ∷ front) rest n (h, hs) = rw h (lovelace_of-others front rest n hs)

lovelace_of-described :
    (u : Holding)
    → IsHolding u
    → lovelace_of 0 (described u).amount ≡ ok (value 0 (u.digit ∷ u.digits))
unfolding lovelace_of same_text
lovelace_of-described u h =
    let n = value 0 (u.digit ∷ u.digits) in
    let behind : lovelace_of n u.back ≡ ok n =
      ap (lovelace_of n) (sym (append-nil u.back)) ∙ lovelace_of-others u.back [] n h.others_back in
    lovelace_of-others u.front _ 0 h.others_front
    ∙ rw (atoi_uint-decimal_text u.digit u.digits h.in_decimal h.in_range, lovelace_of) behind

read_from :
    (us : List Holding) (tx_is : List TxInput)
    → All IsHolding us
    → read_address_utxos tx_is (map described us) ≡ ok (tx_is ++ map held us)
unfolding read_address_utxos
read_from [] tx_is h = ap ok (sym (append-nil tx_is))
read_from (u ∷ us) tx_is (h, hs) = rw (lovelace_of-described u h) (
    read_from us (tx_is ++ (held u ∷ [])) hs
    ∙ ap ok (append_assoc tx_is (held u ∷ []) (map held us)))

-- UTXOs of a blockfrost node returns an input for every utxo that the server lists, in the order
-- of the list, with the utxo's hash, the low 16 bits of its output index and its lovelace,
-- whatever other assets stand beside them. Each utxo has one amount of lovelace, in decimal and
-- below 2 ^ 63.
pub blockfrost_utxos-held :
    (b : BlockfrostNode) (addr : List ℕ) (us : List Holding)
    → b.client.address_utxos addr ≡ some (map described us)
    → All IsHolding us
    → blockfrost_utxos b (ok addr) ≡ ok (map held us)
unfolding blockfrost_utxos
blockfrost_utxos-held b addr us sent h = rw (sent, blockfrost_utxos) (read_from us [] h)
