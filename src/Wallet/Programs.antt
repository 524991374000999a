-- ===== src/Wallet/Programs.antt =====
-- The programs examples/address/generate, examples/address/restore, examples/address/simple_decode
-- and examples/node, with what they print as their result.
pub mod Restored
mod Examples
use go_cardano_serialization.Base.{
  ℕ, Bool, true, false, not, List, [], ◌∷◌, ◌++◌, Option, none, some, length, ◌==◌, if◌then◌else◌,
  Result, ok, err, panic, ◌>>=◌, ◌>>◌, guard,
}
use go_cardano_serialization.Base.Hex.{encode_to_string}
use go_cardano_serialization.Address.Types.{Address, base, enterprise, reward, pointer, byron}
use go_cardano_serialization.Address.Byron.{AddressError}
use go_cardano_serialization.Address.Text.{TextLibraries, to_string, new_address}
use go_cardano_serialization.Bech32.Text.{codes, same_text}
use go_cardano_serialization.Bip32.Arithmetic.{KeyError}
use go_cardano_serialization.Bip32.Keys.{KeyLibraries}
use go_cardano_serialization.Crypto.{HashLibraries}
use go_cardano_serialization.Fees.{Protocol}
use go_cardano_serialization.Network.{NetworkInfo, main_net, test_net}
use go_cardano_serialization.Node.Interface.{Node, NetworkTip}
use go_cardano_serialization.Tx.{TxInput, TxLibraries, Transaction}
use go_cardano_serialization.Wallet.Payment.{PaymentError, of_node, of_address, pay}
use go_cardano_serialization.Wallet.{restore_base_address, generate_enterprise, generate}

-- bip39: `NewEntropy`, `NewMnemonic` and `EntropyFromMnemonic`; `none` is an error.
pub record MnemonicLibraries : Type 0 where
  pub new_entropy : ℕ → Option (List ℕ)
  pub new_mnemonic : List ℕ → Option (List ℕ)
  pub entropy_from_mnemonic : List ℕ → Option (List ℕ)

-- `strings.Split(s, sep)` for a separator of one byte
unfoldable pub split : List ℕ → ℕ → List (List ℕ)
split [] sep = [] ∷ []
split (c ∷ s) sep =
    let rest = split s sep in
    if c == sep
    then [] ∷ rest
    else elim rest [ [] ↦ (c ∷ []) ∷ [] | word ∷ words ↦ (c ∷ word) ∷ words ]

-- The flags of restore
pub record Flags : Type 0 where
  pub mnemonic : List ℕ
  pub kind : ℕ
  pub network : List ℕ

abbrev pub enterprise_type : ℕ
enterprise_type = 0

abbrev pub base_type : ℕ
base_type = 1

-- What ends a program with `log.Fatal`
pub data ProgramError : Type 0 where
  empty_mnemonic : ProgramError
  wrong_words : ProgramError
  unsupported_network : List ℕ → ProgramError
  bad_mnemonic : ProgramError
  key_failure : KeyError → ProgramError
  address_failure : AddressError → ProgramError

abbrev pub of_keys {ℓ} : {A : Type ℓ} → Result KeyError A → Result ProgramError A
of_keys (ok a) = ok a
of_keys (err e) = err (key_failure e)
of_keys panic = panic

abbrev pub of_text {ℓ} : {A : Type ℓ} → Result AddressError A → Result ProgramError A
of_text (ok a) = ok a
of_text (err e) = err (address_failure e)
of_text panic = panic

-- `checkHandleErr` after `EntropyFromMnemonic`
abbrev pub of_mnemonic : Option (List ℕ) → Result ProgramError (List ℕ)
of_mnemonic none = err bad_mnemonic
of_mnemonic (some entropy) = ok entropy

-- `init` of restore, on flags that were parsed
unfoldable pub check_flags : Flags → Result ProgramError (Unit {0})
unfolding same_text split
check_flags flags =
    if same_text flags.mnemonic []
    then err empty_mnemonic
    else if not (length (split flags.mnemonic b' ') == 24)
    then err wrong_words
    else ok tt

-- The map of restore
unfoldable pub network_of : List ℕ → Option NetworkInfo
unfolding same_text
network_of name =
    if same_text name (codes "mainnet")
    then some main_net
    else if same_text name (codes "testnet")
    then some test_net
    else none

abbrev pub enterprise_label : List ℕ
enterprise_label = codes "Enterprise Address: "

abbrev pub base_label : List ℕ
base_label = codes "Base Address: "

-- `entropy, _ :=`: an error leaves an empty value.
abbrev pub or_empty : Option (List ℕ) → List ℕ
or_empty none = []
or_empty (some bytes) = bytes

-- What generate prints
pub record Generated : Type 0 where
  pub mnemonic : List ℕ
  pub address : List ℕ
  pub signature : List ℕ

module _ (keys : KeyLibraries) (hashes : HashLibraries) (text : TextLibraries)
    (words : MnemonicLibraries) where
  -- The two cases of `main` of restore; other types print nothing.
  unfoldable pub restore_kind : Flags → NetworkInfo → Result ProgramError (List ℕ)
  restore_kind flags net =
      if flags.kind == enterprise_type
      then (do
        entropy ← of_mnemonic (words.entropy_from_mnemonic flags.mnemonic)
        addr ← of_keys (generate_enterprise keys hashes net entropy)
        s ← of_text (to_string text (enterprise addr))
        ok (enterprise_label ++ s))
      else if flags.kind == base_type
      then (do
        entropy ← of_mnemonic (words.entropy_from_mnemonic flags.mnemonic)
        addr ← of_keys (restore_base_address keys hashes net entropy)
        s ← of_text (to_string text (base addr))
        ok (base_label ++ s))
      else ok []

  -- `init` and `main` of restore
  unfoldable pub restore_main : Flags → Result ProgramError (List ℕ)
  unfolding check_flags network_of restore_kind
  restore_main flags = check_flags flags >> elim (network_of flags.network) [
    | none ↦ err (unsupported_network flags.network)
    | some net ↦ restore_kind flags net
  ]

  -- `main` of generate
  unfoldable pub generate_main : Result ProgramError Generated
  generate_main = do
    let entropy = or_empty (words.new_entropy 256)
    let mnemonic = or_empty (words.new_mnemonic entropy)
    (addr, signature) ← of_keys (generate keys hashes entropy)
    s ← of_text (to_string text (base addr))
    ok (record { mnemonic = mnemonic; address = s; signature = encode_to_string signature })

-- `main` of simple_decode, on the text that the program holds
unfoldable pub simple_decode : TextLibraries → List ℕ → List ℕ → Result ProgramError (List ℕ)
simple_decode text raw spare = of_text (new_address text raw spare) >>= λ addr. elim addr [
  | base b ↦ of_text (to_string text (base b)) >>= λ s. ok (codes "Base Addr: " ++ s)
  | enterprise e ↦
      of_text (to_string text (enterprise e)) >>= λ s. ok (codes "Enterprise Address: " ++ s)
  | reward _ ↦ ok (codes "Not baseAddress")
  | pointer _ ↦ ok (codes "Not baseAddress")
  | byron _ ↦ ok (codes "Not baseAddress")
]

-- What the program of examples/node prints, as values
pub record Report : Type 0 where
  pub parameters : Protocol
  pub tip : NetworkTip
  pub utxos : List TxInput

-- `main` of examples/node, on its client and the text that the program holds
unfoldable pub query_node :
    {T Error : Type 0}
    → Node T Error
    → TextLibraries
    → (raw spare : List ℕ) → Result (PaymentError Error) Report
query_node cli text raw spare = do
  p ← of_node cli.protocol_parameters
  tip ← of_node cli.query_tip
  addr ← of_address (new_address text raw spare)
  utxos ← of_node (cli.utxos addr)
  ok (record { parameters = p; tip = tip; utxos = utxos })

-- What ends txbuilder
pub data TxbuilderError (Error : Type 0) : Type 0 where
  flag_error : ProgramError → TxbuilderError Error
  payment_error : PaymentError Error → TxbuilderError Error

abbrev of_flags {ℓ} :
    {Error : Type 0} {A : Type ℓ} → Result ProgramError A → Result (TxbuilderError Error) A
of_flags (ok a) = ok a
of_flags (err e) = err (flag_error e)
of_flags panic = panic

abbrev of_payment {ℓ} :
    {Error : Type 0} {A : Type ℓ} → Result (PaymentError Error) A → Result (TxbuilderError Error) A
of_payment (ok a) = ok a
of_payment (err e) = err (payment_error e)
of_payment panic = panic

-- `init` and `main` of txbuilder, with the flag `sendTo` apart; the other two flags are not used.
unfoldable pub txbuilder_main :
    {Error : Type 0} (txs : TxLibraries)
    → KeyLibraries
    → HashLibraries
    → TextLibraries
    → MnemonicLibraries
    → (spare : List ℕ) → Node (Transaction txs) Error
    → Flags
    → (receiver_addr : List ℕ) → Result (TxbuilderError Error) (List ℕ)
unfolding check_flags
txbuilder_main txs keys hashes text words spare cli flags receiver_addr =
    of_flags (check_flags flags)
    >> of_payment (
        pay txs keys hashes text spare cli (words.entropy_from_mnemonic flags.mnemonic)
          receiver_addr)
