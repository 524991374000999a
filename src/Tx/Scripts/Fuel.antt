-- ===== src/Tx/Scripts/Fuel.antt =====
-- `UnmarshalCBOR` of a native script returns: the fuel of the model is never used up.
use go_cardano_serialization.Base.{
  ℕ, zero, suc, ◌<◌, ◌≡◌, ◌≢◌, refl, ap, ◌∙◌, arith, Bool, true, false, List, [], ◌∷◌, All, Option,
  none, some, length, ◌==◌, ◌||◌, if◌then◌else◌, Result, ok, err, panic, ◌>>=◌,
}
use go_cardano_serialization.Tx.Scripts.{
  NativeScript, NativeScripts, ScriptLibraries, ScriptError, out_of_fuel, cbor_error, empty_array,
  invalid_type, zero_script, native_script, read_all, unmarshal_fields, unmarshal_on,
  unmarshal_cbor, get_type_from_cbor_array, script_pub_key, script_all, script_any, script_n_of_k,
  script_invalid_before, script_invalid_after, script, no_scripts,
}
use go_cardano_serialization.Tx.Scripts.Laws.{ShorterScripts}

-- Two runs with the same outcome, which is not that of a run without fuel.
pub data Agree {A : Type 0} (x y : Result ScriptError A) : Type 0 where
  agree : x ≡ y → x ≢ err out_of_fuel → Agree x y

pub Agree-same : {A : Type 0} {x y : Result ScriptError A} → Agree x y → x ≡ y
Agree-same (agree e n) = e

pub Agree-returns : {A : Type 0} {x y : Result ScriptError A} → Agree x y → x ≢ err out_of_fuel
Agree-returns (agree e n) = n

if_Agree :
    {A : Type 0} (b : Bool) {x x' y y' : Result ScriptError A}
    → Agree x x'
    → Agree y y'
    → Agree (if b then x else y) (if b then x' else y')
if_Agree true p q = p
if_Agree false p q = q

bind-Agree :
    {A B : Type 0} (x y : Result ScriptError A) (f g : A → Result ScriptError B)
    → Agree x y
    → ((a : A) → Agree (f a) (g a))
    → Agree (x >>= f) (y >>= g)
bind-Agree (ok a) y f g (agree e n) h =
    agree (Agree-same (h a) ∙ ap (λ z. z >>= g) e) (Agree-returns (h a))
bind-Agree (err a) y f g (agree e n) h = agree (ap (λ z. z >>= g) e) (λ q. n (by_error q))
  where
    by_error :
        {B A : Type 0} {a b : ScriptError}
        → ◌≡◌ {A = Result ScriptError B} (err a) (err b)
        → ◌≡◌ {A = Result ScriptError A} (err a) (err b)
    by_error q = cc
bind-Agree panic y f g (agree e n) h = agree (ap (λ z. z >>= g) e) (λ q. cc)

ok-Agree : {A : Type 0} (a : A) → Agree (ok a) (ok a)
ok-Agree a = agree refl (λ q. cc)

option-Agree :
    {A B : Type 0} (o : Option A) (f g : A → Result ScriptError B)
    → ((a : A) → o ≡ some a → Agree (f a) (g a))
    → Agree
        (elim o [ none ↦ err cbor_error | some a ↦ f a ])
        (elim o [ none ↦ err cbor_error | some a ↦ g a ])
option-Agree none f g h = agree refl (λ q. cc)
option-Agree (some a) f g h = h a refl

abbrev Reader : Type 0
Reader = List (List ℕ) → Result ScriptError NativeScripts

-- Two readers that agree on an array whose elements are shorter than n.
abbrev AgreeBelow : ℕ → Reader → Reader → Type 0
AgreeBelow n r r' =
    (raws : List (List ℕ)) → All (λ raw. length raw < n) raws → Agree (r raws) (r' raws)

unmarshal_fields-Agree :
    (lib : ScriptLibraries) (laws : ShorterScripts lib) (ty : ℕ) (r r' : Reader) (input : List ℕ)
    (ns : NativeScript)
    → AgreeBelow (length input) r r'
    → Agree (unmarshal_fields lib ty r input ns) (unmarshal_fields lib ty r' input ns)
unfolding unmarshal_fields
unmarshal_fields-Agree lib laws ty r r' input (native_script ty0 hash n ss interval) same =
    if_Agree (ty == script_pub_key)
      (option-Agree (lib.unmarshal_pub_key input) _ _ (λ a e. ok-Agree _))
      (if_Agree (ty == script_all || ty == script_any)
        (option-Agree (lib.unmarshal_scripts input) _ _ (λ a e.
          bind-Agree _ _ _ _ (same a.1 (laws.of_scripts input a.0 a.1 e)) (λ ss'. ok-Agree _)))
        (if_Agree (ty == script_n_of_k)
          (option-Agree (lib.unmarshal_n_of_k input) _ _ (λ a e.
            bind-Agree _ _ _ _ (same a.2 (laws.of_n_of_k input a.0 a.1 a.2 e)) (λ ss'. ok-Agree _)))
          (if_Agree (ty == script_invalid_before || ty == script_invalid_after)
            (option-Agree (lib.unmarshal_interval input) _ _ (λ a e. ok-Agree _)) (ok-Agree _))))

read_all-Agree :
    (n : ℕ) (read read' : List ℕ → Result ScriptError NativeScript) (raws : List (List ℕ))
    → ((raw : List ℕ) → length raw < n → Agree (read raw) (read' raw))
    → All (λ raw. length raw < n) raws
    → Agree (read_all read raws) (read_all read' raws)
unfolding read_all
read_all-Agree n read read' [] h short = ok-Agree no_scripts
read_all-Agree n read read' (raw ∷ raws) h (short, shorts) = bind-Agree _ _ _ _ (h raw short) (λ s.
    bind-Agree _ _ _ _ (read_all-Agree n read read' raws h shorts) (λ ss. ok-Agree (script s ss)))

get_type-Agree :
    (lib : ScriptLibraries) (input : List ℕ)
    → Agree (get_type_from_cbor_array lib input) (get_type_from_cbor_array lib input)
unfolding get_type_from_cbor_array
get_type-Agree lib input = agree refl (by_raw (lib.unmarshal_array input))
  where
    by_raw :
        (o : Option (List (Option ℕ)))
        → elim o [
          | none ↦ err cbor_error
          | some raw ↦ elim raw [
            | [] ↦ err empty_array
            | first ∷ _ ↦ elim first [ none ↦ err invalid_type | some t ↦ ok t ]
          ]
        ]
          ≢ err out_of_fuel
    by_raw none = λ q. cc
    by_raw (some []) = λ q. cc
    by_raw (some (none ∷ _)) = λ q. cc
    by_raw (some (some t ∷ _)) = λ q. cc

-- Any two amounts of fuel above the length of the input.
unmarshal_on-Agree :
    (lib : ScriptLibraries) (laws : ShorterScripts lib) (fuel more : ℕ) (input : List ℕ)
    (ns : NativeScript)
    → length input < fuel
    → length input < more
    → Agree (unmarshal_on lib fuel input ns) (unmarshal_on lib more input ns)
unfolding unmarshal_on
unmarshal_on-Agree lib laws zero more input ns p q = absurd (omega arith)
unmarshal_on-Agree lib laws (suc fuel) zero input ns p q = absurd (omega arith)
unmarshal_on-Agree lib laws (suc fuel) (suc more) input ns p q =
    bind-Agree _ _ _ _ (get_type-Agree lib input) (λ ty.
      unmarshal_fields-Agree lib laws ty _ _ input ns (λ raws short.
        read_all-Agree (length input) _ _ raws
          (λ raw small.
            unmarshal_on-Agree lib laws fuel more raw zero_script (omega arith) (omega arith))
          short))

-- UnmarshalCBOR of a native script returns on every input, if the elements of an array are
-- shorter than the array: with any fuel above the length of the input its outcome is the same,
-- and it is never the outcome of a run without fuel.
pub unmarshal_cbor-enough_fuel :
    (lib : ScriptLibraries) (laws : ShorterScripts lib) (fuel : ℕ) (input : List ℕ)
    (ns : NativeScript)
    → length input < fuel
    → (unmarshal_on lib fuel input ns ≡ unmarshal_cbor lib input ns)
      × (unmarshal_cbor lib input ns ≢ err out_of_fuel)
unfolding unmarshal_cbor
unmarshal_cbor-enough_fuel lib laws fuel input ns h =
    let both = unmarshal_on-Agree lib laws fuel (suc (length input)) input ns h (omega arith) in
    let self = unmarshal_on-Agree lib laws (suc (length input)) fuel input ns (omega arith) h in
    (Agree-same both, Agree-returns self)
