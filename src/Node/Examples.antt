-- ===== src/Node/Examples.antt =====
-- Runs of node/cardano-cli.go.
use go_cardano_serialization.Base.{
  ℕ, ◌≡◌, ◌<◌, refl, List, [], ◌∷◌, ◌++◌, Option, none, some, length, ok, panic, true,
}
use go_cardano_serialization.Bech32.Text.{codes}
use go_cardano_serialization.Network.{test_net}
use go_cardano_serialization.Node.{
  fields, fields_from, parse_uint16, atoi_uint, natural, digits_from, read_lines, read_utxos,
  CliLibraries, exec_command, CardanoCli,
}
use go_cardano_serialization.Node.Output.{others, read_utxos-panic}
use go_cardano_serialization.Tx.{new_tx_input}
use go_cardano_serialization.Base.Hex.{decode_prefix, from_hex_char}

some_fields : fields (codes "ab  0  17 ") ≡ codes "ab" ∷ codes "0" ∷ codes "17" ∷ []
unfolding fields fields_from
some_fields = refl

too_large : parse_uint16 (codes "65536") ≡ none
unfolding parse_uint16 natural digits_from
too_large = refl

minus_one : atoi_uint (codes "-1") ≡ some 18446744073709551615
unfolding atoi_uint natural digits_from
minus_one = refl

one_line :
    read_lines [] (codes "0a0b 1 25" ∷ [])
    ≡ ok (record { tx_hash = 10 ∷ 11 ∷ []; index = 1; amount = 25 } ∷ [])
unfolding read_lines fields fields_from parse_uint16 atoi_uint natural digits_from new_tx_input
    decode_prefix from_hex_char
one_line = refl

abbrev last_of : List (List ℕ) → Option (List ℕ)
last_of [] = none
last_of (a ∷ []) = some a
last_of (a ∷ b ∷ rest) = last_of (b ∷ rest)

-- A command that prints its last argument.
abbrev echo : CliLibraries
echo = record {
  run = λ file path args. last_of args;
  decimal = λ n. [];
  unmarshal_protocol = λ s. none;
  unmarshal_tip = λ s. none;
  marshal_submission = λ s. some s;
  temp_file = some [];
  written = λ s. true;
  closed = true;
}

test_net_flag :
    exec_command echo (record { cli_path = []; network = test_net }) none []
    ≡ ok (codes "--mainnet")
unfolding exec_command
test_net_flag = refl

-- Two lines of a header and one of an output.
abbrev printed : List ℕ
printed = codes "TxHash" ++ (10 ∷ (codes "----" ++ (10 ∷ (codes "0a0b 1 25" ++ (10 ∷ [])))))

read_utxos-panic_example :
    (length printed < 3 → read_utxos printed ≡ ok [])
    × (2 < others printed → read_utxos printed ≡ panic)
read_utxos-panic_example = read_utxos-panic printed

-- A command that fails, with JSON that has no value.
abbrev missing : CliLibraries
missing = record {
  run = λ file path args. none;
  decimal = λ n. [];
  unmarshal_protocol = λ s. none;
  unmarshal_tip = λ s. none;
  marshal_submission = λ s. some s;
  temp_file = some (codes "tx");
  written = λ s. true;
  closed = true;
}

abbrev cli : CardanoCli
cli = record { cli_path = codes "cardano-cli"; network = test_net }
