-- ===== src/Network.antt =====
-- network/network.go: the two networks of Cardano.
use go_cardano_serialization.Base.{ℕ}

pub record NetworkInfo : Type 0 where
  pub network_id : ℕ
  pub protocol_magic : ℕ

abbrev pub test_net : NetworkInfo
test_net = record { network_id = 0; protocol_magic = 1097911063 }

abbrev pub main_net : NetworkInfo
main_net = record { network_id = 1; protocol_magic = 764824073 }
