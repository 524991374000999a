-- ===== src/Tx/Scripts/Witnesses.antt =====
-- The theorems about native scripts at nested scripts, with the encoding of `Examples`.
use go_cardano_serialization.Base.{ℕ, ◌≡◌, ◌≢◌, arith, List, [], ◌∷◌, err}
use go_cardano_serialization.Tx.Scripts.{out_of_fuel, zero_script, unmarshal_cbor, unmarshal_on}
use go_cardano_serialization.Tx.Scripts.Fuel.{unmarshal_cbor-enough_fuel}
use go_cardano_serialization.Tx.Scripts.RoundTrip.{
  Condition, signed_by, all_of, n_of, before, after, no_more, also,
}
use go_cardano_serialization.Tx.Scripts.Examples.{script_libraries, small_ShorterScripts}

-- Two of three: a key, another key, and a key within an interval.
abbrev two_of_three : Condition
two_of_three = n_of 2 (
    also (signed_by (7 ∷ 8 ∷ [])) (
      also (signed_by (9 ∷ []))
        (also (all_of (also (before 40) (also (after 90) no_more))) no_more)))

abbrev nested_bytes : List ℕ
nested_bytes = 0 ∷ 1 ∷ 3 ∷ 1 ∷ 5 ∷ 0 ∷ 0 ∷ 1 ∷ 1 ∷ 7 ∷ []

unmarshal_cbor-enough_fuel_example :
    (unmarshal_on script_libraries 20 nested_bytes zero_script
      ≡ unmarshal_cbor script_libraries nested_bytes zero_script)
    × (unmarshal_cbor script_libraries nested_bytes zero_script ≢ err out_of_fuel)
unmarshal_cbor-enough_fuel_example =
    unmarshal_cbor-enough_fuel script_libraries small_ShorterScripts 20 nested_bytes zero_script
      (omega arith)
