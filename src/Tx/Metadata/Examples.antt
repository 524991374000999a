-- ===== src/Tx/Metadata/Examples.antt =====
-- Runs of the metadata operations, and their theorems at concrete metadata.
use go_cardano_serialization.Base.{ℕ, ◌≡◌, refl, false, List, [], ◌∷◌, ◌++◌, map, some, ok}
use go_cardano_serialization.Bech32.Text.{codes, same_text}
use go_cardano_serialization.Tx.Metadata.{
  other, AuxiliaryData, labels, element, lookup, add_metadata_element,
}
use go_cardano_serialization.Tx.Metadata.Payments.{
  paid, entry, Kept, add_all, add_all-paid, add_metadata_element-entry,
}

abbrev fresh : AuxiliaryData ℕ
fresh = record {
  metadata = some [];
  native_scripts = other 0;
  plutus_scripts = other 0;
  prefer_alonzo_format = false;
}

no_payments : paid fresh ≡ some []
unfolding element labels lookup
no_payments = refl

abbrev two_payments : List (List ℕ × ℕ)
two_payments = (codes "addr1", 5) ∷ (codes "addr2", 7) ∷ []

add_all-paid_example :
    (d' : AuxiliaryData ℕ) × (add_all two_payments fresh ≡ ok d')
    × (paid d' ≡ some ([] ++ map (λ p. p ∷ []) two_payments))
    × ((k : List ℕ) → same_text k (codes "transactions") ≡ false → entry k d' ≡ entry k fresh)
    × Kept fresh d'
add_all-paid_example = add_all-paid two_payments fresh [] refl no_payments

add_metadata_element-entry_example :
    (d' : AuxiliaryData ℕ) × (add_metadata_element (codes "name") (other 3) fresh ≡ ok d')
    × (entry (codes "name") d' ≡ other 3)
    × ((k : List ℕ) → same_text k (codes "name") ≡ false → entry k d' ≡ entry k fresh)
add_metadata_element-entry_example = add_metadata_element-entry (codes "name") (other 3) fresh refl
