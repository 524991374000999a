-- ===== src/Wallet/Witnesses.antt =====
-- The wallet's payment at a Blockfrost server that lists two utxos.
use go_cardano_serialization.Base.{ℕ, ◌≡◌, refl, arith, List, [], ◌∷◌, some, replicate}
use go_cardano_serialization.Address.Examples.{toy_texts}
use go_cardano_serialization.Address.Types.{base}
use go_cardano_serialization.Address.Text.{to_string}
use go_cardano_serialization.Bip32.Examples.{toy, toy-KeyLaws}
use go_cardano_serialization.Crypto.{public_key_hash}
use go_cardano_serialization.Network.{test_net}
use go_cardano_serialization.Base.{map, take, inr}
use go_cardano_serialization.Base.Hex.{decode_prefix}
use go_cardano_serialization.Bech32.Text.{codes}
use go_cardano_serialization.Node.{atoi_uint, natural, digits_from}
use go_cardano_serialization.Node.Blockfrost.{
  BlockfrostLibraries, BlockfrostNode, Block, protocol_of, blockfrost_submit_tx, blockfrost_node,
}
use go_cardano_serialization.Node.Blockfrost.Amounts.{Holding, described, held, value}
use go_cardano_serialization.Tx.{new_tx_input}
use go_cardano_serialization.Wallet.Payment.OnBlockfrost.{Serves, tip_of, pay-blockfrost}
use go_cardano_serialization.Tx.{TxInput, Tx}
use go_cardano_serialization.Tx.Examples.{toy_lib}
use go_cardano_serialization.Wallet.Payment.{pay, of_node}
use go_cardano_serialization.Wallet.Payment.Selection.{IsLast}
use go_cardano_serialization.Wallet.Payment.Submitted.{IsPayment}
use go_cardano_serialization.Wallet.Examples.{
  hashes, hashes-HashLaws, mnemonic_entropy, parameters, generated, changed, body_bytes,
}

-- 9 ADA, and 70 ADA with the digits that follow.
abbrev holdings : List Holding
holdings =
    record {
      tx_hash = [];
      output_index = 0;
      front = [];
      digit = 9;
      digits = replicate 6 0;
      back = [];
    }
    ∷ record {
      tx_hash = [];
      output_index = 1;
      front = [];
      digit = 7;
      digits = replicate 7 0;
      back = [];
    }
    ∷ []

abbrev block : Block
block = record { slot = 500; epoch = 2; height = 10 }

abbrev server : BlockfrostLibraries
server = record {
  cardano_main_net = [];
  cardano_test_net = [];
  cardano_preview = [];
  new_api_client = λ project url. record {
    address_utxos = λ a. some (map described holdings);
    latest_epoch_parameters = some (record {
      min_fee_a = 44;
      min_fee_b = 155381;
      max_tx_size = 16384;
      protocol_major_ver = 8;
      protocol_minor_ver = 0;
      min_utxo = codes "0";
    });
    block_latest = some block;
  };
  post = λ url headers body. inr (record { status_code = 200; body = some body });
  read_error = [];
}

abbrev api : BlockfrostNode
api = record { network = test_net; client = server.new_api_client [] []; project_id = [] }

api-Serves : Serves api.client generated.4 holdings parameters block
unfolding protocol_of atoi_uint natural digits_from value
api-Serves = record {
  parameters = record {
    min_fee_a = 44;
    min_fee_b = 155381;
    max_tx_size = 16384;
    protocol_major_ver = 8;
    protocol_minor_ver = 0;
    min_utxo = codes "0";
  };
  parameters_sent = refl;
  parameters_read = refl;
  utxos_sent = refl;
  utxos_IsHolding = (
    record {
      others_front = tt;
      in_decimal = omega arith;
      in_range = omega arith;
      others_back = tt;
    },
    (
      record {
        others_front = tt;
        in_decimal = omega arith;
        in_range = omega arith;
        others_back = tt;
      },
      tt,
    ),
  );
  block_sent = refl;
}

abbrev seventy : TxInput
seventy = record { tx_hash = []; index = 1; amount = 70000000 }

seventy-IsLast : IsLast (map held holdings) seventy
unfolding new_tx_input decode_prefix value
seventy-IsLast = record {
  front = map held (take 1 holdings);
  back = [];
  parts = refl;
  enough = omega arith;
  later = tt;
}

pay-blockfrost_example :
    (t : Tx ℕ ℕ) × (pay toy_lib toy hashes toy_texts []
        (blockfrost_node server (to_string toy_texts) toy_lib api)
        (some mnemonic_entropy)
        []
      ≡ of_node (blockfrost_submit_tx server toy_lib api t))
    × ((p : IsPayment toy_lib toy toy-KeyLaws
          (base generated.0)
          (base generated.0)
          generated.1
          seventy
          (tip_of block)
          t)
        × (generated.0.payment.payload ≡ public_key_hash hashes p.witness.vkey))
pay-blockfrost_example =
    pay-blockfrost server toy_texts toy_lib api toy toy-KeyLaws hashes hashes-HashLaws []
      (some mnemonic_entropy) generated.4 [] generated.0 generated.1 (base generated.0) parameters
      holdings seventy block (changed (map held holdings) (tip_of block)).0
      (body_bytes (changed (map held holdings) (tip_of block)).0) generated.2 generated.3
      generated.5 api-Serves seventy-IsLast (omega arith)
      (changed (map held holdings) (tip_of block)).1 refl
