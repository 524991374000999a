-- ===== src/Tx/Scripts.antt =====
-- tx/script.go: native scripts, which hold lists of themselves, and their CBOR. A nil slice and an
-- empty one are the same list here.
pub mod Laws
pub mod Fuel
pub mod RoundTrip
mod Examples
mod Witnesses
use go_cardano_serialization.Base.{
  ℕ, zero, suc, List, [], ◌∷◌, ◌++◌, Option, none, some, ◌==◌, if◌then◌else◌, ◌||◌, Result, ok, err,
  ◌>>=◌, length,
}

-- `NativeScript`: Type, KeyHash, N, Scripts and IntervalValue.
mutual
  pub data NativeScript : Type 0 where
    native_script : ℕ → List ℕ → ℕ → NativeScripts → ℕ → NativeScript

  pub data NativeScripts : Type 0 where
    no_scripts : NativeScripts
    script : NativeScript → NativeScripts → NativeScripts

abbrev pub script_pub_key : ℕ
script_pub_key = 0

abbrev pub script_all : ℕ
script_all = 1

abbrev pub script_any : ℕ
script_any = 2

abbrev pub script_n_of_k : ℕ
script_n_of_k = 3

abbrev pub script_invalid_before : ℕ
script_invalid_before = 4

abbrev pub script_invalid_after : ℕ
script_invalid_after = 5

abbrev pub native_script_namespace : ℕ
native_script_namespace = 0

-- `NativeScript{}`
abbrev pub zero_script : NativeScript
zero_script = native_script 0 [] 0 no_scripts 0

unfoldable pub new_script_pub_key : List ℕ → NativeScript
new_script_pub_key key_hash = native_script script_pub_key key_hash 0 no_scripts 0

-- What `MarshalCBOR` appends to its slice of interfaces. Of scripts it is their encodings, since
-- the library calls `MarshalCBOR` of each.
pub data Value : Type 0 where
  script_type : ℕ → Value
  key_hash : List ℕ → Value
  number : ℕ → Value
  scripts : List (List ℕ) → Value

pub data ScriptError : Type 0 where
  empty_array invalid_type cbor_error out_of_fuel : ScriptError

-- The structs that an array is read into: the type, and what else a script of that type has. A
-- script is the encoding of which the library calls `UnmarshalCBOR`.
abbrev pub ScriptPubKey : Type 0
ScriptPubKey = ℕ × List ℕ

abbrev pub ScriptAll : Type 0
ScriptAll = ℕ × List (List ℕ)

abbrev pub ScriptNOfK : Type 0
ScriptNOfK = ℕ × ℕ × List (List ℕ)

abbrev pub ScriptInvalidBefore : Type 0
ScriptInvalidBefore = ℕ × ℕ

-- The calls of the library, with `none` for an error: `Marshal` of the slice; `Unmarshal` into
-- a slice of interfaces, with what is a uint64 of it, and into the structs, of which those of
-- `all` and `any` have the same fields, and those of `before` and `after`; and blake2b.
pub record ScriptLibraries : Type 0 where
  pub marshal : List Value → Option (List ℕ)
  pub unmarshal_array : List ℕ → Option (List (Option ℕ))
  pub unmarshal_pub_key : List ℕ → Option ScriptPubKey
  pub unmarshal_scripts : List ℕ → Option ScriptAll
  pub unmarshal_n_of_k : List ℕ → Option ScriptNOfK
  pub unmarshal_interval : List ℕ → Option ScriptInvalidBefore
  pub blake2b224 : List ℕ → List ℕ

-- A slice of scripts, each read from its encoding into a zero value.
unfoldable pub read_all :
    (List ℕ → Result ScriptError NativeScript) → List (List ℕ) → Result ScriptError NativeScripts
read_all read [] = ok no_scripts
read_all read (raw ∷ raws) = do s ← read raw; ss ← read_all read raws; ok (script s ss)

module _ (lib : ScriptLibraries) where
  open lib use {
    marshal, unmarshal_array, unmarshal_pub_key, unmarshal_scripts, unmarshal_n_of_k,
    unmarshal_interval, blake2b224,
  }

  -- The `switch` of `MarshalCBOR`. The scripts are encoded only where the slice holds them.
  unfoldable pub marshal_fields : ℕ → List ℕ → ℕ → Option (List (List ℕ)) → ℕ → Option (List ℕ)
  marshal_fields ty hash n encoded interval =
      if ty == script_pub_key
      then marshal (script_type ty ∷ key_hash hash ∷ [])
      else if ty == script_all || ty == script_any
      then elim encoded [ none ↦ none | some raws ↦ marshal (script_type ty ∷ scripts raws ∷ []) ]
      else if ty == script_n_of_k
      then elim encoded [
        | none ↦ none
        | some raws ↦ marshal (script_type ty ∷ number n ∷ scripts raws ∷ [])
      ]
      else if ty == script_invalid_before || ty == script_invalid_after
      then marshal (script_type ty ∷ number interval ∷ [])
      else marshal []

  unfoldable mutual
    pub marshal_cbor : NativeScript → Option (List ℕ)
    marshal_cbor (native_script ty hash n ss interval) =
        marshal_fields ty hash n (marshal_all ss) interval

    pub marshal_all : NativeScripts → Option (List (List ℕ))
    marshal_all no_scripts = some []
    marshal_all (script s ss) = elim (marshal_cbor s) [
      | none ↦ none
      | some raw ↦ elim (marshal_all ss) [ none ↦ none | some raws ↦ some (raw ∷ raws) ]
    ]

  -- `Bytes`, which the library answers with `MarshalCBOR`, and `Hash`
  unfoldable pub script_bytes : NativeScript → Option (List ℕ)
  script_bytes ns = marshal_cbor ns

  unfoldable pub script_hash : NativeScript → Option (List ℕ)
  script_hash ns = elim (script_bytes ns) [
    | none ↦ none
    | some bytes ↦ some (blake2b224 (native_script_namespace ∷ bytes))
  ]

  -- `getTypeFromCBORArray` of tx/encoding.go
  unfoldable pub get_type_from_cbor_array : List ℕ → Result ScriptError ℕ
  get_type_from_cbor_array input = elim (unmarshal_array input) [
    | none ↦ err cbor_error
    | some raw ↦ elim raw [
      | [] ↦ err empty_array
      | first ∷ _ ↦ elim first [ none ↦ err invalid_type | some t ↦ ok t ]
    ]
  ]

  -- The cases of the `switch` of `UnmarshalCBOR`: fields that a case does not set stay as they are.
  unfoldable pub unmarshal_fields :
      ℕ
      → (List (List ℕ) → Result ScriptError NativeScripts)
      → List ℕ
      → NativeScript
      → Result ScriptError NativeScript
  unmarshal_fields ty read input (native_script ty0 hash n ss interval) =
      if ty == script_pub_key
      then elim (unmarshal_pub_key input) [
        | none ↦ err cbor_error
        | some (t, h) ↦ ok (native_script t h n ss interval)
      ]
      else if ty == script_all || ty == script_any
      then elim (unmarshal_scripts input) [
        | none ↦ err cbor_error
        | some (t, raws) ↦ read raws >>= λ ss'. ok (native_script t hash n ss' interval)
      ]
      else if ty == script_n_of_k
      then elim (unmarshal_n_of_k input) [
        | none ↦ err cbor_error
        | some (t, n', raws) ↦ read raws >>= λ ss'. ok (native_script t hash n' ss' interval)
      ]
      else if ty == script_invalid_before || ty == script_invalid_after
      then elim (unmarshal_interval input) [
        | none ↦ err cbor_error
        | some (t, i) ↦ ok (native_script t hash n ss i)
      ]
      else ok (native_script ty0 hash n ss interval)

  -- A script in a script is shorter than it, so fuel above the length of the input is enough.
  unfoldable pub unmarshal_on : ℕ → List ℕ → NativeScript → Result ScriptError NativeScript
  unmarshal_on zero input ns = err out_of_fuel
  unmarshal_on (suc fuel) input ns = get_type_from_cbor_array input >>= λ ty.
      unmarshal_fields ty (read_all (λ raw. unmarshal_on fuel raw zero_script)) input ns

  unfoldable pub unmarshal_cbor : List ℕ → NativeScript → Result ScriptError NativeScript
  unmarshal_cbor input ns = unmarshal_on (suc (length input)) input ns
