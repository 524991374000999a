-- ===== src/Crypto/Examples.antt =====
-- The conversions of crypto/crypto.go at concrete slices.
use go_cardano_serialization.Base.{ℕ, ◌≡◌, refl, List, replicate, ok, err}
use go_cardano_serialization.Crypto.{unexpected_bytes, script_hash_from_bytes}
use go_cardano_serialization.Address.Bytes.{copy}
use go_cardano_serialization.Crypto.Sizes.{from_bytes, script_hash}

abbrev sevens : List ℕ
sevens = replicate 28 7

whole_hash : from_bytes script_hash sevens ≡ ok sevens
unfolding script_hash_from_bytes copy
whole_hash = refl

short_hash : from_bytes script_hash (replicate 27 7) ≡ err unexpected_bytes
unfolding script_hash_from_bytes copy
short_hash = refl
