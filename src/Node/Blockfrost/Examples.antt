-- ===== src/Node/Blockfrost/Examples.antt =====
-- Runs of node/blockfrost.go against a server that lists two utxos.
use go_cardano_serialization.Base.{
  ◌≡◌, refl, arith, List, [], ◌∷◌, map, none, some, ok, err, inr, All,
}
use go_cardano_serialization.Bech32.Text.{codes, same_text}
use go_cardano_serialization.Network.{test_net}
use go_cardano_serialization.Node.Blockfrost.{
  AddressAmount, ApiClient, BlockfrostLibraries, BlockfrostNode, get_network, submit_bytes,
  blockfrost_utxos, rejected,
}
use go_cardano_serialization.Node.Blockfrost.Amounts.{
  Holding, IsHolding, described, held, value, blockfrost_utxos-held,
}

abbrev token : AddressAmount
token = record { unit = codes "token"; quantity = codes "3" }

-- 123 lovelace and a token, and 7 lovelace
abbrev holdings : List Holding
holdings =
    record {
      tx_hash = codes "0a0b";
      output_index = 1;
      front = [];
      digit = 1;
      digits = 2 ∷ 3 ∷ [];
      back = token ∷ [];
    }
    ∷ record {
      tx_hash = codes "0c";
      output_index = 65537;
      front = token ∷ [];
      digit = 7;
      digits = [];
      back = [];
    }
    ∷ []

abbrev client : ApiClient
client = record {
  address_utxos = λ a. some (map described holdings);
  latest_epoch_parameters = none;
  block_latest = none;
}

-- A server that refuses what it is sent, with a body that is the URL.
abbrev refusing : BlockfrostLibraries
refusing = record {
  cardano_main_net = codes "main";
  cardano_test_net = codes "test";
  cardano_preview = codes "preview";
  new_api_client = λ p s. client;
  post = λ url headers body. inr (record { status_code = 400; body = some url });
  read_error = [];
}

abbrev node : BlockfrostNode
node = record { network = test_net; client = client; project_id = [] }

holdings-IsHolding : All IsHolding holdings
unfolding same_text value
holdings-IsHolding = (
  record {
    others_front = tt;
    in_decimal = omega arith;
    in_range = omega arith;
    others_back = (refl, tt);
  },
  (
    record {
      others_front = (refl, tt);
      in_decimal = omega arith;
      in_range = omega arith;
      others_back = tt;
    },
    tt,
  ),
)

blockfrost_utxos-held_example : blockfrost_utxos node (ok (codes "addr")) ≡ ok (map held holdings)
blockfrost_utxos-held_example =
    blockfrost_utxos-held node (codes "addr") holdings refl holdings-IsHolding

refused : submit_bytes refusing node (1 ∷ []) ≡ err (rejected (codes "test/tx/submit"))
unfolding submit_bytes get_network
refused = refl
