-- ===== src/Tx/Scripts/Laws.antt =====
-- What tx/script.go relies on of the CBOR library: an array is longer than its elements, and a
-- struct reads what its slice of interfaces wrote.
use go_cardano_serialization.Base.{
  ℕ, suc, ◌-◌, ◌^◌, ◌≤◌, IsU64, IsByte, ◌<◌, ◌≡◌, List, [], ◌∷◌, All, Option, some, length,
}
use go_cardano_serialization.Tx.Scripts.{
  ScriptLibraries, Value, script_type, key_hash, number, scripts,
}

-- The encoding of an element is shorter than that of the array.
pub record ShorterScripts (lib : ScriptLibraries) : Type 0 where
  pub of_scripts :
      (input : List ℕ) (t : ℕ) (raws : List (List ℕ))
      → lib.unmarshal_scripts input ≡ some (t, raws)
      → All (λ raw. length raw < length input) raws
  pub of_n_of_k :
      (input : List ℕ) (t n : ℕ) (raws : List (List ℕ))
      → lib.unmarshal_n_of_k input ≡ some (t, n, raws)
      → All (λ raw. length raw < length input) raws

-- What fits into an array that leaves d more levels of nesting: uint64s, bytes, and arrays of up
-- to 2 ^ 17 items, with P the items of a number of levels.
abbrev pub IsValue : (ℕ → List ℕ → Type 0) → ℕ → Value → Type 0
IsValue P d (script_type t) = IsU64 t
IsValue P d (key_hash h) = All IsByte h
IsValue P d (number n) = IsU64 n
IsValue P d (scripts raws) = (1 ≤ d) × (length raws ≤ 2 ^ 17) × All (P (d - 1)) raws

-- Slices of such values have an encoding, of which the first element and the fields are read back
-- where it is nested at most 32 levels deep, the bound that `DecOptions` have by default.
pub record ScriptLaws (lib : ScriptLibraries) : Type 1 where
  pub shorter : ShorterScripts lib
  pub encode : List Value → List ℕ
  pub IsItem : ℕ → List ℕ → Type 0
  pub item :
      (d : ℕ) (vs : List Value)
      → length vs ≤ 2 ^ 17
      → All (IsValue IsItem d) vs
      → IsItem (suc d) (encode vs)
  pub marshal_values :
      (d : ℕ) (vs : List Value) → All (IsValue IsItem d) vs → lib.marshal vs ≡ some (encode vs)
  pub elements : List Value → List (Option ℕ)
  pub reads_type :
      (d t : ℕ) (vs : List Value)
      → d < 32
      → All (IsValue IsItem d) (script_type t ∷ vs)
      → lib.unmarshal_array (encode (script_type t ∷ vs)) ≡ some (some t ∷ elements vs)
  pub reads_pub_key :
      (d t : ℕ) (h : List ℕ)
      → d < 32
      → All (IsValue IsItem d) (script_type t ∷ key_hash h ∷ [])
      → lib.unmarshal_pub_key (encode (script_type t ∷ key_hash h ∷ [])) ≡ some (t, h)
  pub reads_scripts :
      (d t : ℕ) (raws : List (List ℕ))
      → d < 32
      → All (IsValue IsItem d) (script_type t ∷ scripts raws ∷ [])
      → lib.unmarshal_scripts (encode (script_type t ∷ scripts raws ∷ [])) ≡ some (t, raws)
  pub reads_n_of_k :
      (d t n : ℕ) (raws : List (List ℕ))
      → d < 32
      → All (IsValue IsItem d) (script_type t ∷ number n ∷ scripts raws ∷ [])
      → lib.unmarshal_n_of_k (encode (script_type t ∷ number n ∷ scripts raws ∷ []))
        ≡ some (t, n, raws)
  pub reads_interval :
      (d t i : ℕ)
      → d < 32
      → All (IsValue IsItem d) (script_type t ∷ number i ∷ [])
      → lib.unmarshal_interval (encode (script_type t ∷ number i ∷ [])) ≡ some (t, i)
