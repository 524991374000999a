-- ===== src/Node/Blockfrost.antt =====
-- node/blockfrost.go and node/local_tx_submission.go. The client of blockfrost-go and net/http are
-- parameters. An int of the API is its 64-bit word.
pub mod Amounts
mod Examples
use go_cardano_serialization.Base.{
  ℕ, ◌%◌, ◌^◌, List, [], ◌∷◌, ◌++◌, Option, none, some, u8, u16, ◌==◌, if◌then◌else◌, Result, ok,
  err, panic, ◌>>=◌, ◌⊎◌, inl, inr,
}
use go_cardano_serialization.Address.Types.{Address}
use go_cardano_serialization.Address.Byron.{AddressError}
use go_cardano_serialization.Bech32.Text.{codes, same_text}
use go_cardano_serialization.Fees.{Protocol}
use go_cardano_serialization.Network.{NetworkInfo}
use go_cardano_serialization.Node.{atoi_uint}
use go_cardano_serialization.Node.Interface.{NetworkTip, Node}
use go_cardano_serialization.Tx.{TxInput, new_tx_input, TxError, TxLibraries, Transaction, tx_bytes}

-- The types of blockfrost-go, with the fields that the file reads
pub record AddressAmount : Type 0 where
  pub unit : List ℕ
  pub quantity : List ℕ

pub record AddressUtxo : Type 0 where
  pub tx_hash : List ℕ
  pub output_index : ℕ
  pub amount : List AddressAmount

pub record EpochParameters : Type 0 where
  pub min_fee_a : ℕ
  pub min_fee_b : ℕ
  pub max_tx_size : ℕ
  pub protocol_major_ver : ℕ
  pub protocol_minor_ver : ℕ
  pub min_utxo : List ℕ

pub record Block : Type 0 where
  pub slot : ℕ
  pub epoch : ℕ
  pub height : ℕ

-- The client for a project and a server, with `none` for an error of its own
pub record ApiClient : Type 0 where
  pub address_utxos : List ℕ → Option (List AddressUtxo)
  pub latest_epoch_parameters : Option EpochParameters
  pub block_latest : Option Block

pub record Response : Type 0 where
  pub status_code : ℕ
  pub body : Option (List ℕ)

-- The servers of blockfrost-go, `NewAPIClient` of a project and a server, and a POST of net/http
-- with its URL, headers and body. What fails before there is a response gives the error's text.
pub record BlockfrostLibraries : Type 0 where
  pub cardano_main_net : List ℕ
  pub cardano_test_net : List ℕ
  pub cardano_preview : List ℕ
  pub new_api_client : List ℕ → List ℕ → ApiClient
  pub post : List ℕ → List (List ℕ × List ℕ) → List ℕ → List ℕ ⊎ Response
  pub read_error : List ℕ

-- `rejected` has the body of a response that is not 200.
pub data BlockfrostError : Type 0 where
  client_failed invalid_quantity invalid_min_utxo read_failed : BlockfrostError
  address_failed : AddressError → BlockfrostError
  transaction_failed : TxError → BlockfrostError
  request_failed : List ℕ → BlockfrostError
  rejected : List ℕ → BlockfrostError

pub record BlockfrostNode : Type 0 where
  pub network : NetworkInfo
  pub client : ApiClient
  pub project_id : List ℕ

-- The loop over the amounts of a utxo: the last of lovelace counts.
unfoldable pub lovelace_of : ℕ → List AddressAmount → Result BlockfrostError ℕ
lovelace_of amount [] = ok amount
lovelace_of amount (am ∷ rest) =
    if same_text am.unit (codes "lovelace")
    then elim (atoi_uint am.quantity) [
      | none ↦ err invalid_quantity
      | some amount_i ↦ lovelace_of amount_i rest
    ]
    else lovelace_of amount rest

-- The loop over the utxos
unfoldable pub read_address_utxos :
    List TxInput → List AddressUtxo → Result BlockfrostError (List TxInput)
read_address_utxos tx_is [] = ok tx_is
read_address_utxos tx_is (utxo ∷ rest) = do
  amount ← lovelace_of 0 utxo.amount
  read_address_utxos (tx_is ++ (new_tx_input utxo.tx_hash (u16 utxo.output_index) amount ∷ [])) rest

unfoldable pub protocol_of : EpochParameters → Result BlockfrostError Protocol
protocol_of params = elim (atoi_uint params.min_utxo) [
  | none ↦ err invalid_min_utxo
  | some min_u ↦ ok (record {
    tx_fee_per_byte = params.min_fee_a;
    tx_fee_fixed = params.min_fee_b;
    max_tx_size = params.max_tx_size;
    protocol_version = record {
      major = u8 params.protocol_major_ver;
      minor = u8 params.protocol_minor_ver;
    };
    min_utxo_value = min_u;
  })
]

abbrev or_client_failed {ℓ} : {A : Type ℓ} → Option A → Result BlockfrostError A
or_client_failed none = err client_failed
or_client_failed (some a) = ok a

abbrev or_read_failed : Option (List ℕ) → Result BlockfrostError (List ℕ)
or_read_failed none = err read_failed
or_read_failed (some s) = ok s

-- The argument is what `String` returns of the address.
unfoldable pub blockfrost_utxos :
    BlockfrostNode → Result AddressError (List ℕ) → Result BlockfrostError (List TxInput)
blockfrost_utxos b panic = panic
blockfrost_utxos b (err e) = err (address_failed e)
blockfrost_utxos b (ok s) = or_client_failed (b.client.address_utxos s) >>= read_address_utxos []

unfoldable pub blockfrost_protocol_parameters : BlockfrostNode → Result BlockfrostError Protocol
blockfrost_protocol_parameters b = or_client_failed b.client.latest_epoch_parameters >>= protocol_of

unfoldable pub blockfrost_query_tip : BlockfrostNode → Result BlockfrostError NetworkTip
blockfrost_query_tip b = or_client_failed b.client.block_latest >>= λ block.
    ok (record { slot = block.slot; epoch = block.epoch; block = block.height })

module _ (lib : BlockfrostLibraries) where
  unfoldable pub get_network : BlockfrostNode → List ℕ
  get_network b = if b.network.network_id == 0 then lib.cardano_test_net else lib.cardano_main_net

  unfoldable pub new_blockfrost_client : List ℕ → NetworkInfo → BlockfrostNode
  new_blockfrost_client project_id network =
      let server_url =
        if network.network_id == 0 then lib.cardano_preview else lib.cardano_main_net in
      record {
        network = network;
        client = lib.new_api_client project_id server_url;
        project_id = project_id;
      }

  -- What is left of `SubmitTx` when the bytes of the transaction are known
  unfoldable pub submit_bytes : BlockfrostNode → List ℕ → Result BlockfrostError (List ℕ)
  submit_bytes b tx_b =
      let url = get_network b ++ codes "/tx/submit" in
      let headers =
        (codes "project_id", b.project_id)
        ∷ (codes "Content-Type", codes "application/cbor")
        ∷ [] in
      elim (lib.post url headers tx_b) [
        | inl text ↦ err (request_failed text)
        | inr res ↦ or_read_failed res.body >>= λ resb.
            if res.status_code == 200 then ok resb else err (rejected resb)
      ]

  unfoldable pub blockfrost_submit_tx :
      (txs : TxLibraries) → BlockfrostNode → Transaction txs → Result BlockfrostError (List ℕ)
  blockfrost_submit_tx txs b tx_final = elim (tx_bytes txs tx_final).1 [
    | panic ↦ panic
    | err e ↦ err (transaction_failed e)
    | ok tx_b ↦ submit_bytes b tx_b
  ]

  -- The node of a client, with `String` of an address
  unfoldable pub blockfrost_node :
      (Address → Result AddressError (List ℕ))
      → (txs : TxLibraries) → BlockfrostNode
      → Node (Transaction txs) BlockfrostError
  blockfrost_node text txs b = record {
    utxos = λ addr. blockfrost_utxos b (text addr);
    submit_tx = blockfrost_submit_tx txs b;
    protocol_parameters = blockfrost_protocol_parameters b;
    query_tip = blockfrost_query_tip b;
  }

  -- `SubmitTx` of node/local_tx_submission.go: a status, or 0 and the text of an error
  unfoldable pub local_submit_tx : List ℕ → ℕ × List ℕ
  local_submit_tx transaction =
      let url = codes "http://localhost:8090/api/submit/tx" in
      let headers = (codes "Content-Type", codes "application/cbor") ∷ [] in
      elim (lib.post url headers transaction) [
        | inl text ↦ (0, text)
        | inr resp ↦ elim resp.body [
          | none ↦ (0, lib.read_error)
          | some body ↦ (resp.status_code, body)
        ]
      ]
