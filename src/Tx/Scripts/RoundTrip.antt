-- ===== src/Tx/Scripts/RoundTrip.antt =====
-- A native script that the constructors of its six types describe is read back from its bytes.
use mathlib.Core.Path.{subst}
use go_cardano_serialization.Base.{
  ◌-◌, ◌^◌, ◌≤◌, IsU64, IsByte, ap, ℕ, zero, suc, ◌<◌, ◌≡◌, refl, arith, List, [], ◌∷◌, All, some,
  length, ok,
}
use go_cardano_serialization.Tx.Scripts.{
  NativeScript, NativeScripts, ScriptLibraries, Value, zero_script, native_script, no_scripts,
  script, script_type, key_hash, number, scripts, read_all, marshal_fields, marshal_cbor,
  marshal_all, unmarshal_fields, unmarshal_on, get_type_from_cbor_array, script_pub_key, script_all,
  script_any, script_n_of_k, script_invalid_before, script_invalid_after,
}
use go_cardano_serialization.Tx.Scripts.Laws.{IsValue, ScriptLaws}

-- What a native script says, without the fields that its type does not use.
mutual
  pub data Condition : Type 0 where
    signed_by : List ℕ → Condition
    all_of : Conditions → Condition
    any_of : Conditions → Condition
    n_of : ℕ → Conditions → Condition
    before : ℕ → Condition
    after : ℕ → Condition

  pub data Conditions : Type 0 where
    no_more : Conditions
    also : Condition → Conditions → Conditions

unfoldable mutual
  pub represent : Condition → NativeScript
  represent (signed_by h) = native_script script_pub_key h 0 no_scripts 0
  represent (all_of cs) = native_script script_all [] 0 (represent_all cs) 0
  represent (any_of cs) = native_script script_any [] 0 (represent_all cs) 0
  represent (n_of n cs) = native_script script_n_of_k [] n (represent_all cs) 0
  represent (before i) = native_script script_invalid_before [] 0 no_scripts i
  represent (after i) = native_script script_invalid_after [] 0 no_scripts i

  pub represent_all : Conditions → NativeScripts
  represent_all no_more = no_scripts
  represent_all (also c cs) = script (represent c) (represent_all cs)

-- What the encoding of a condition can hold: uint64s, bytes, lists of up to 2 ^ 17 scripts, and in
-- its array d more levels, of which a script in a list takes two.
abbrev pub count : Conditions → ℕ
count no_more = 0
count (also c cs) = suc (count cs)

unfoldable mutual
  pub Fits : ℕ → Condition → Type 0
  Fits d (signed_by h) = All IsByte h
  Fits d (all_of cs) = (2 ≤ d) × (count cs ≤ 2 ^ 17) × FitsAll (d - 2) cs
  Fits d (any_of cs) = (2 ≤ d) × (count cs ≤ 2 ^ 17) × FitsAll (d - 2) cs
  Fits d (n_of n cs) = IsU64 n × (2 ≤ d) × (count cs ≤ 2 ^ 17) × FitsAll (d - 2) cs
  Fits d (before i) = IsU64 i
  Fits d (after i) = IsU64 i

  pub FitsAll : ℕ → Conditions → Type 0
  FitsAll d no_more = Unit
  FitsAll d (also c cs) = Fits d c × FitsAll d cs

module _ (lib : ScriptLibraries) (laws : ScriptLaws lib) where
  -- The bytes, by the encoding of the library.
  unfoldable mutual
    encoded : Condition → List ℕ
    encoded (signed_by h) = laws.encode (script_type script_pub_key ∷ key_hash h ∷ [])
    encoded (all_of cs) = laws.encode (script_type script_all ∷ scripts (encoded_all cs) ∷ [])
    encoded (any_of cs) = laws.encode (script_type script_any ∷ scripts (encoded_all cs) ∷ [])
    encoded (n_of n cs) =
        laws.encode (script_type script_n_of_k ∷ number n ∷ scripts (encoded_all cs) ∷ [])
    encoded (before i) = laws.encode (script_type script_invalid_before ∷ number i ∷ [])
    encoded (after i) = laws.encode (script_type script_invalid_after ∷ number i ∷ [])

    encoded_all : Conditions → List (List ℕ)
    encoded_all no_more = []
    encoded_all (also c cs) = encoded c ∷ encoded_all cs

  length-encoded_all : (cs : Conditions) → length (encoded_all cs) ≡ count cs
  unfolding encoded_all
  length-encoded_all no_more = refl
  length-encoded_all (also c cs) = ap suc (length-encoded_all cs)

  array-Ready :
      (d : ℕ) (cs : Conditions)
      → 2 ≤ d
      → count cs ≤ 2 ^ 17
      → All (laws.IsItem (suc (d - 2))) (encoded_all cs)
      → IsValue laws.IsItem d (scripts (encoded_all cs))
  array-Ready d cs deep few items = (
    omega (arith, deep),
    omega (arith, few, length-encoded_all cs),
    subst (λ (n : ℕ). All (laws.IsItem n) (encoded_all cs)) {x = suc (d - 2)} {y = d - 1}
        (omega (arith, deep)) items,
  )

  mutual
    unfolding Fits FitsAll encoded encoded_all

    encoded-IsItem : (d : ℕ) (c : Condition) → Fits d c → laws.IsItem (suc d) (encoded c)
    encoded-IsItem d (signed_by h) f = laws.item d _ (omega arith) (omega arith, (f, tt))
    encoded-IsItem d (all_of cs) (deep, few, f) =
        laws.item d _ (omega arith)
          (omega arith, (array-Ready d cs deep few (encoded_all-IsItem (d - 2) cs f), tt))
    encoded-IsItem d (any_of cs) (deep, few, f) =
        laws.item d _ (omega arith)
          (omega arith, (array-Ready d cs deep few (encoded_all-IsItem (d - 2) cs f), tt))
    encoded-IsItem d (n_of n cs) (hn, deep, few, f) =
        laws.item d _ (omega arith)
          (omega arith, (hn, (array-Ready d cs deep few (encoded_all-IsItem (d - 2) cs f), tt)))
    encoded-IsItem d (before i) f = laws.item d _ (omega arith) (omega arith, (f, tt))
    encoded-IsItem d (after i) f = laws.item d _ (omega arith) (omega arith, (f, tt))

    encoded_all-IsItem :
        (d : ℕ) (cs : Conditions) → FitsAll d cs → All (laws.IsItem (suc d)) (encoded_all cs)
    encoded_all-IsItem d no_more f = tt
    encoded_all-IsItem d (also c cs) (f, fs) = (encoded-IsItem d c f, encoded_all-IsItem d cs fs)

  list-Ready :
      (d : ℕ) (cs : Conditions)
      → (2 ≤ d) × (count cs ≤ 2 ^ 17) × FitsAll (d - 2) cs
      → IsValue laws.IsItem d (scripts (encoded_all cs))
  list-Ready d cs (deep, few, f) = array-Ready d cs deep few (encoded_all-IsItem (d - 2) cs f)

  mutual
    unfolding Fits FitsAll marshal_cbor marshal_all marshal_fields represent encoded encoded_all
        represent_all

    marshal_cbor-represent :
        (d : ℕ) (c : Condition) → Fits d c → marshal_cbor lib (represent c) ≡ some (encoded c)
    marshal_cbor-represent d (signed_by h) f = laws.marshal_values d _ (omega arith, (f, tt))
    marshal_cbor-represent d (all_of cs) f =
        rw (marshal_all-represent (d - 2) cs f.2)
          (laws.marshal_values d _ (omega arith, (list-Ready d cs f, tt)))
    marshal_cbor-represent d (any_of cs) f =
        rw (marshal_all-represent (d - 2) cs f.2)
          (laws.marshal_values d _ (omega arith, (list-Ready d cs f, tt)))
    marshal_cbor-represent d (n_of n cs) (hn, enough, few, f) =
        rw (marshal_all-represent (d - 2) cs f)
          (laws.marshal_values d _ (omega arith, (hn, (list-Ready d cs (enough, few, f), tt))))
    marshal_cbor-represent d (before i) f = laws.marshal_values d _ (omega arith, (f, tt))
    marshal_cbor-represent d (after i) f = laws.marshal_values d _ (omega arith, (f, tt))

    marshal_all-represent :
        (d : ℕ) (cs : Conditions)
        → FitsAll d cs
        → marshal_all lib (represent_all cs) ≡ some (encoded_all cs)
    marshal_all-represent d no_more f = refl
    marshal_all-represent d (also c cs) (f, fs) =
        rw (marshal_cbor-represent d c f) (rw (marshal_all-represent d cs fs) refl)

  get_type-encode :
      (d t : ℕ) (vs : List Value)
      → d < 32
      → All (IsValue laws.IsItem d) (script_type t ∷ vs)
      → get_type_from_cbor_array lib (laws.encode (script_type t ∷ vs)) ≡ ok t
  unfolding get_type_from_cbor_array
  get_type-encode d t vs deep ready =
      rw (laws.reads_type d t vs deep ready, get_type_from_cbor_array) refl

  mutual
    unfolding Fits FitsAll unmarshal_on unmarshal_fields read_all represent represent_all encoded
        encoded_all

    unmarshal_on-encoded :
        (d : ℕ) (c : Condition) (fuel : ℕ)
        → d < 32
        → Fits d c
        → length (encoded c) < fuel
        → unmarshal_on lib fuel (encoded c) zero_script ≡ ok (represent c)
    unmarshal_on-encoded d c zero deep f h = absurd (omega arith)
    unmarshal_on-encoded d (signed_by h) (suc fuel) deep f small =
        let ready : All (IsValue laws.IsItem d) (script_type script_pub_key ∷ key_hash h ∷ []) =
          (omega arith, (f, tt)) in
        rw (get_type-encode d script_pub_key _ deep ready)
          (rw (laws.reads_pub_key d script_pub_key h deep ready) refl)
    unmarshal_on-encoded d (all_of cs) (suc fuel) deep f small =
        let read =
          laws.reads_scripts d script_all (encoded_all cs) deep
            (omega arith, (list-Ready d cs f, tt)) in
        rw
          (get_type-encode d script_all (scripts (encoded_all cs) ∷ []) deep
            (omega arith, (list-Ready d cs f, tt)))
          (rw read (
            rw
              (read_all-encoded (d - 2) cs (length (encoded (all_of cs))) fuel (omega arith) f.2
                (laws.shorter.of_scripts (encoded (all_of cs)) script_all (encoded_all cs) read)
                small)
              refl))
    unmarshal_on-encoded d (any_of cs) (suc fuel) deep f small =
        let read =
          laws.reads_scripts d script_any (encoded_all cs) deep
            (omega arith, (list-Ready d cs f, tt)) in
        rw
          (get_type-encode d script_any (scripts (encoded_all cs) ∷ []) deep
            (omega arith, (list-Ready d cs f, tt)))
          (rw read (
            rw
              (read_all-encoded (d - 2) cs (length (encoded (any_of cs))) fuel (omega arith) f.2
                (laws.shorter.of_scripts (encoded (any_of cs)) script_any (encoded_all cs) read)
                small)
              refl))
    unmarshal_on-encoded d (n_of n cs) (suc fuel) deep (hn, enough, few, f) small =
        let read =
          laws.reads_n_of_k d script_n_of_k n (encoded_all cs) deep
            (omega arith, (hn, (list-Ready d cs (enough, few, f), tt))) in
        rw
          (get_type-encode d script_n_of_k (number n ∷ scripts (encoded_all cs) ∷ []) deep
            (omega arith, (hn, (list-Ready d cs (enough, few, f), tt))))
          (rw read (
            rw
              (read_all-encoded (d - 2) cs (length (encoded (n_of n cs))) fuel (omega arith) f
                (laws.shorter.of_n_of_k (encoded (n_of n cs)) script_n_of_k n (encoded_all cs) read)
                small)
              refl))
    unmarshal_on-encoded d (before i) (suc fuel) deep f small =
        rw (get_type-encode d script_invalid_before (number i ∷ []) deep (omega arith, (f, tt)))
          (rw (laws.reads_interval d script_invalid_before i deep (omega arith, (f, tt))) refl)
    unmarshal_on-encoded d (after i) (suc fuel) deep f small =
        rw (get_type-encode d script_invalid_after (number i ∷ []) deep (omega arith, (f, tt)))
          (rw (laws.reads_interval d script_invalid_after i deep (omega arith, (f, tt))) refl)

    read_all-encoded :
        (d : ℕ) (cs : Conditions) (n fuel : ℕ)
        → d < 32
        → FitsAll d cs
        → All (λ raw. length raw < n) (encoded_all cs)
        → n < suc fuel
        → read_all (λ raw. unmarshal_on lib fuel raw zero_script) (encoded_all cs)
          ≡ ok (represent_all cs)
    read_all-encoded d no_more n fuel deep f short h = refl
    read_all-encoded d (also c cs) n fuel deep (f, fs) (short, shorts) h =
        rw (unmarshal_on-encoded d c fuel deep f (omega arith))
          (rw (read_all-encoded d cs n fuel deep fs shorts h) refl)
