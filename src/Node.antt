-- ===== src/Node.antt =====
-- node/cardano-cli.go. Running the command, files and JSON are parameters; the calls of strings and
-- strconv are those for ASCII.
pub mod Output
pub mod Interface
pub mod Blockfrost
mod Examples
use go_cardano_serialization.Base.{
  ℕ, zero, suc, ◌+◌, ◌-◌, ◌*◌, ◌/◌, ◌%◌, ◌^◌, Bool, true, false, ◌&&◌, ◌||◌, not, List, [], ◌∷◌,
  ◌++◌, length, take, drop, leb, ltb, ◌==◌, if◌then◌else◌, get_elem?, Option, none, some, u16,
  Result, ok, err, panic, ◌>>=◌, ◌>>◌, in_range, guard,
}
use go_cardano_serialization.Bech32.Text.{codes}
use go_cardano_serialization.Network.{NetworkInfo}
use go_cardano_serialization.Fees.{Protocol}
use go_cardano_serialization.Node.Interface.{NetworkTip, Node}
use go_cardano_serialization.Tx.{TxInput, new_tx_input, TxError, TxLibraries, Transaction, tx_hex}
use go_cardano_serialization.Address.Types.{Address}

-- An error with the inputs that were read in front of it, as `UTXOs` returns both.
pub data NodeError : Type 0 where
  command_failed : NodeError
  json_failed : NodeError
  file_failed : NodeError
  transaction_failed : TxError → NodeError
  parse_failed : List TxInput → NodeError

-- `strings.Split(s, "\n")`
unfoldable pub split_lines : List ℕ → List (List ℕ)
split_lines [] = [] ∷ []
split_lines (c ∷ s) =
    let rest = split_lines s in
    if c == 10
    then [] ∷ rest
    else elim rest [ [] ↦ (c ∷ []) ∷ [] | line ∷ lines ↦ (c ∷ line) ∷ lines ]

abbrev is_space : ℕ → Bool
is_space c = (leb 9 c && leb c 13) || c == 32

-- `strings.Fields`, with the field that has begun, if any
unfoldable pub fields_from : Option (List ℕ) → List ℕ → List (List ℕ)
fields_from none [] = []
fields_from (some begun) [] = begun ∷ []
fields_from none (c ∷ s) =
    let skip = fields_from none s in
    let begin = fields_from (some (c ∷ [])) s in if is_space c then skip else begin
fields_from (some begun) (c ∷ s) =
    let end = fields_from none s in
    let more = fields_from (some (begun ++ (c ∷ []))) s in if is_space c then begun ∷ end else more

unfoldable pub fields : List ℕ → List (List ℕ)
fields s = fields_from none s

-- The number of a text of digits, at least one
unfoldable pub digits_from : ℕ → List ℕ → Option ℕ
digits_from n [] = some n
digits_from n (c ∷ s) =
    let rest = digits_from (n * 10 + (c - b'0')) s in
    if leb b'0' c && leb c b'9' then rest else none

unfoldable pub natural : List ℕ → Option ℕ
natural [] = none
natural (c ∷ s) = digits_from 0 (c ∷ s)

-- `strconv.ParseUint(s, 10, 16)`
unfoldable pub parse_uint16 : List ℕ → Option ℕ
parse_uint16 s = elim (natural s) [ none ↦ none | some n ↦ if ltb n (2 ^ 16) then some n else none ]

-- `uint(amount)` of what `strconv.Atoi(s)` returns
unfoldable pub atoi_uint : List ℕ → Option ℕ
atoi_uint [] = none
atoi_uint (c ∷ s) =
    let positive : Option ℕ → Option ℕ =
      λ o. elim o [ none ↦ none | some n ↦ if ltb n (2 ^ 63) then some n else none ] in
    let negative : Option ℕ → Option ℕ = λ o. elim o [
      | none ↦ none
      | some n ↦ if leb n (2 ^ 63) then some ((2 ^ 64 - n) % 2 ^ 64) else none
    ] in
    if c == b'-'
    then negative (natural s)
    else if c == b'+'
    then positive (natural s)
    else positive (natural (c ∷ s))

-- `s[i]`
abbrev field : List (List ℕ) → ℕ → Result NodeError (List ℕ)
field s i = elim (get_elem? s i) [ none ↦ panic | some f ↦ ok f ]

abbrev or_failed : List TxInput → Option ℕ → Result NodeError ℕ
or_failed tx_is none = err (parse_failed tx_is)
or_failed tx_is (some n) = ok n

-- The loop over the lines
unfoldable pub read_lines : List TxInput → List (List ℕ) → Result NodeError (List TxInput)
read_lines tx_is [] = ok tx_is
read_lines tx_is (it ∷ lines) = do
  index_text ← field (fields it) 1
  tx_ix ← or_failed tx_is (parse_uint16 index_text)
  amount_text ← field (fields it) 2
  first ← field (fields amount_text) 0
  amount ← or_failed tx_is (atoi_uint first)
  hash ← field (fields it) 0
  read_lines (tx_is ++ (new_tx_input hash (u16 tx_ix) amount ∷ [])) lines

-- `ldata[2 : lenData-1]` may go up to the capacity of `ldata`, which for the result of
-- `strings.Split` is its length; `lenData` is the length of `data`.
unfoldable pub read_utxos : List ℕ → Result NodeError (List TxInput)
read_utxos output =
    if ltb (length output) 3
    then ok []
    else in_range (leb (length output - 1) (length (split_lines output)))
      >> read_lines [] (take (length output - 1 - 2) (drop 2 (split_lines output)))

-- What runs the command, on the temporary file that is open, its path and its arguments, with
-- `none` where it fails; `%d`; `json.Unmarshal` into a zero value and `json.MarshalIndent` of the
-- text in `cborHex`; and the name of a new temporary file, and whether writing and closing succeed.
pub record CliLibraries : Type 0 where
  pub run : Option (List ℕ × List ℕ) → List ℕ → List (List ℕ) → Option (List ℕ)
  pub decimal : ℕ → List ℕ
  pub unmarshal_protocol : List ℕ → Option Protocol
  pub unmarshal_tip : List ℕ → Option NetworkTip
  pub marshal_submission : List ℕ → Option (List ℕ)
  pub temp_file : Option (List ℕ)
  pub written : List ℕ → Bool
  pub closed : Bool

pub record CardanoCli : Type 0 where
  pub cli_path : List ℕ
  pub network : NetworkInfo

-- A path that is given is taken, the empty one too.
unfoldable pub new_cardano_cli_node : NetworkInfo → List (List ℕ) → CardanoCli
new_cardano_cli_node network [] = record { cli_path = codes "cardano-cli"; network = network }
new_cardano_cli_node network (path ∷ _) = record { cli_path = path; network = network }

module _ (lib : CliLibraries) (cli : CardanoCli) where
  unfoldable pub exec_command : Option (List ℕ × List ℕ) → List (List ℕ) → Result NodeError (List ℕ)
  exec_command file args =
      let cmd_suffix =
        if cli.network.network_id == 0
        then codes "--mainnet"
        else codes "--testnet-magic " ++ lib.decimal cli.network.protocol_magic in
      elim (lib.run file cli.cli_path (args ++ (cmd_suffix ∷ []))) [
        | none ↦ err command_failed
        | some output ↦ ok output
      ]

  -- `address` is what `%s` prints of the address.
  unfoldable pub utxos : List ℕ → Result NodeError (List TxInput)
  utxos address =
      exec_command none (codes "query" ∷ codes "utxos" ∷ (codes "--address " ++ address) ∷ [])
      >>= read_utxos

  -- The output is unmarshalled whether or not the command failed, and is empty if it did. An error
  -- of JSON is returned before that of the command.
  unfoldable pub query {ℓ} :
      {A : Type ℓ} → (List ℕ → Option A) → Result NodeError (List ℕ) → Result NodeError A
  query unmarshal (ok output) = elim (unmarshal output) [ none ↦ err json_failed | some a ↦ ok a ]
  query unmarshal (err e) = elim (unmarshal []) [ none ↦ err json_failed | some a ↦ err e ]
  query unmarshal panic = panic

  unfoldable pub protocol_parameters : Result NodeError Protocol
  protocol_parameters =
      query lib.unmarshal_protocol
        (exec_command none (codes "query" ∷ codes "protocol-parameters" ∷ []))

  unfoldable pub query_tip : Result NodeError NetworkTip
  query_tip = query lib.unmarshal_tip (exec_command none (codes "query" ∷ codes "tip" ∷ []))

  abbrev or_file_failed : Option (List ℕ) → Result NodeError (List ℕ)
  or_file_failed none = err file_failed
  or_file_failed (some s) = ok s

  -- The argument is what `Hex` returns of the transaction.
  unfoldable pub submit_hex : Result TxError (List ℕ) → Result NodeError (List ℕ)
  submit_hex panic = panic
  submit_hex (err e) = err (transaction_failed e)
  submit_hex (ok tx_hex) = do
    name ← or_file_failed lib.temp_file
    content ← elim (lib.marshal_submission tx_hex) [ none ↦ err json_failed | some c ↦ ok c ]
    guard (lib.written content) file_failed
    cli_data ←
        exec_command (some (name, content)) (codes "submit" ∷ (codes "--tx-file " ++ name) ∷ [])
    guard lib.closed file_failed
    ok cli_data

-- The node of the command line, with `%s` of an address
unfoldable pub cli_node :
    CliLibraries
    → (Address → List ℕ)
    → (txs : TxLibraries) → CardanoCli
    → Node (Transaction txs) NodeError
cli_node lib text txs cli = record {
  utxos = λ addr. utxos lib cli (text addr);
  submit_tx = λ tx_final. submit_hex lib cli (tx_hex txs tx_final).1;
  protocol_parameters = protocol_parameters lib cli;
  query_tip = query_tip lib cli;
}
