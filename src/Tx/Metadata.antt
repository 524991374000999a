-- ===== src/Tx/Metadata.antt =====
-- tx/auxiliary_data.go: the metadata of a transaction, a map of maps. A map is a list of its
-- entries, or `none` where it is nil; writing to a nil map panics.
pub mod Payments
mod Examples
use go_cardano_serialization.Base.{
  ℕ, Bool, false, List, [], ◌∷◌, ◌++◌, Option, none, some, if◌then◌else◌, ◌==◌, Result, ok, panic,
}
use go_cardano_serialization.Bech32.Text.{codes, same_text}
use go_cardano_serialization.Tx.{TxError}

module _ {ℓ κ} {K : Type ℓ} {V : Type κ} (same : K → K → Bool) where
  -- `m[k]`, with `none` for a missing key
  unfoldable pub lookup : K → List (K × V) → Option V
  lookup k [] = none
  lookup k ((j, v) ∷ m) = let rest = lookup k m in if same k j then some v else rest

  -- `m[k] = v`
  unfoldable pub insert : K → V → List (K × V) → List (K × V)
  insert k v [] = (k, v) ∷ []
  insert k v ((j, w) ∷ m) =
      let rest = insert k v m in if same k j then (j, v) ∷ m else (j, w) ∷ rest

-- What a `MetadataElement` can hold: nothing, a `[]map[string]uint`, or a value of another type.
pub data Element (A : Type 0) : Type 0 where
  nil_element : Element A
  payments : List (List (List ℕ × ℕ)) → Element A
  other : A → Element A

abbrev pub Labels : Type 0 → Type 0
Labels A = List (List ℕ × Element A)

pub record AuxiliaryData (A : Type 0) : Type 0 where
  pub metadata : Option (List (ℕ × Option (Labels A)))
  pub native_scripts : Element A
  pub plutus_scripts : Element A
  pub prefer_alonzo_format : Bool

module _ {A : Type 0} where
  unfoldable pub new_auxiliary_data : AuxiliaryData A
  new_auxiliary_data = record {
    metadata = some [];
    native_scripts = nil_element;
    plutus_scripts = nil_element;
    prefer_alonzo_format = false;
  }

  -- `d.Metadata[1]`, made where it is nil
  unfoldable pub labels : List (ℕ × Option (Labels A)) → Labels A
  labels m = elim (lookup ◌==◌ 1 m) [
    | none ↦ []
    | some inner ↦ elim inner [ none ↦ [] | some l ↦ l ]
  ]

  -- `d.Metadata[1][key]`, nil where it is missing
  unfoldable pub element : List ℕ → Labels A → Element A
  element key l = elim (lookup same_text key l) [ none ↦ nil_element | some e ↦ e ]

  -- `d.Metadata[1][key] = value`
  unfoldable pub write :
      List ℕ → Element A → List (ℕ × Option (Labels A)) → AuxiliaryData A → AuxiliaryData A
  write key value m d = record d {
    metadata = some (insert ◌==◌ 1 (some (insert same_text key value (labels m))) m);
  }

  unfoldable pub add_metadata_element :
      List ℕ → Element A → AuxiliaryData A → Result TxError (AuxiliaryData A)
  add_metadata_element key value d = elim d.metadata [
    | none ↦ panic
    | some m ↦ ok (write key value m d)
  ]

  unfoldable pub add_metadata_transaction :
      List ℕ → ℕ → AuxiliaryData A → Result TxError (AuxiliaryData A)
  add_metadata_transaction address amount d = elim d.metadata [
    | none ↦ panic
    | some m ↦ elim (element (codes "transactions") (labels m)) [
      | nil_element ↦
          ok (write (codes "transactions") (payments (((address, amount) ∷ []) ∷ [])) m d)
      | payments l ↦
          ok (write (codes "transactions") (payments (l ++ (((address, amount) ∷ []) ∷ []))) m d)
      | other a ↦ panic
    ]
  ]

-- `TagSet.Add` of a tag for the type in a new set, and the modes for such a set with their
-- `Marshal` and `Unmarshal`
pub record AuxiliaryLibraries (A : Type 0) : Type 1 where
  pub TagSet : Type 0
  pub new_tag_set : ℕ → Option TagSet
  pub enc_mode : TagSet → Option (AuxiliaryData A → Option (List ℕ))
  pub dec_mode : TagSet → Option (List ℕ → Option (AuxiliaryData A))

module _ {A : Type 0} (lib : AuxiliaryLibraries A) where
  unfoldable pub tag_set : Option lib.TagSet
  tag_set = lib.new_tag_set 259

  unfoldable pub auxiliary_marshal_cbor : AuxiliaryData A → Option (List ℕ)
  auxiliary_marshal_cbor d = elim tag_set [
    | none ↦ none
    | some tags ↦ elim (lib.enc_mode tags) [ none ↦ none | some marshal ↦ marshal d ]
  ]

  -- Of what is read, only the metadata are kept.
  unfoldable pub auxiliary_unmarshal_cbor : List ℕ → AuxiliaryData A → Option (AuxiliaryData A)
  auxiliary_unmarshal_cbor input d = elim tag_set [
    | none ↦ none
    | some tags ↦ elim (lib.dec_mode tags) [
      | none ↦ none
      | some unmarshal ↦ elim (unmarshal input) [
        | none ↦ none
        | some dd ↦ some (record d { metadata = dd.metadata })
      ]
    ]
  ]
