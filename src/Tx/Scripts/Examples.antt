-- ===== src/Tx/Scripts/Examples.antt =====
-- A small encoding that keeps the laws of the CBOR library.
use go_cardano_serialization.Base.{
  ℕ, zero, suc, ◌<◌, ◌≤◌, ◌≡◌, refl, ap, ap₂, arith, List, [], ◌∷◌, ◌++◌, All, Option, none, some,
  length, take, drop, length-drop, take-append_length, drop-append_length, sym, ◌∙◌,
}
use mathlib.Core.Path.{subst}
use mathlib.Core.List.{append_assoc}
use mathlib.Core.Option.{some-injective}
use go_cardano_serialization.Tx.Scripts.{
  ScriptLibraries, Value, script_type, key_hash, number, scripts,
}
use go_cardano_serialization.Tx.Scripts.Laws.{ShorterScripts, ScriptLaws}

-- Each element in front of the number of its bytes.
unfoldable pub write_raws : List (List ℕ) → List ℕ
write_raws [] = []
write_raws (raw ∷ raws) = length raw ∷ (raw ++ write_raws raws)

unfoldable pub read_raws : ℕ → List ℕ → Option (List (List ℕ))
read_raws zero bytes = some []
read_raws (suc k) [] = none
read_raws (suc k) (n ∷ bytes) = elim (read_raws k (drop n bytes)) [
  | none ↦ none
  | some raws ↦ some (take n bytes ∷ raws)
]

unfoldable pub write : List Value → List ℕ
write [] = []
write (script_type t ∷ vs) = 0 ∷ t ∷ write vs
write (key_hash h ∷ vs) = 1 ∷ length h ∷ (h ++ write vs)
write (number n ∷ vs) = 2 ∷ n ∷ write vs
write (scripts raws ∷ vs) = 3 ∷ length raws ∷ (write_raws raws ++ write vs)

unfoldable pub first_type : List ℕ → Option (List (Option ℕ))
first_type (zero ∷ t ∷ bytes) = some (some t ∷ [])
first_type [] = some []
first_type _ = some (none ∷ [])

unfoldable pub hash_field : List ℕ → Option (ℕ × List ℕ)
hash_field (_ ∷ t ∷ _ ∷ n ∷ h) = some (t, take n h)
hash_field _ = none

unfoldable pub scripts_field : List ℕ → Option (ℕ × List (List ℕ))
scripts_field (_ ∷ t ∷ _ ∷ k ∷ bytes) = elim (read_raws k bytes) [
  | none ↦ none
  | some raws ↦ some (t, raws)
]
scripts_field _ = none

unfoldable pub n_of_k_fields : List ℕ → Option (ℕ × ℕ × List (List ℕ))
n_of_k_fields (_ ∷ t ∷ _ ∷ n ∷ _ ∷ k ∷ bytes) = elim (read_raws k bytes) [
  | none ↦ none
  | some raws ↦ some (t, n, raws)
]
n_of_k_fields _ = none

unfoldable pub interval_field : List ℕ → Option (ℕ × ℕ)
interval_field (_ ∷ t ∷ _ ∷ i ∷ []) = some (t, i)
interval_field _ = none

abbrev pub script_libraries : ScriptLibraries
script_libraries = record {
  marshal = λ vs. some (write vs);
  unmarshal_array = first_type;
  unmarshal_pub_key = hash_field;
  unmarshal_scripts = scripts_field;
  unmarshal_n_of_k = n_of_k_fields;
  unmarshal_interval = interval_field;
  blake2b224 = λ bytes. take 28 bytes;
}

read_raws-write_raws :
    (raws : List (List ℕ)) (rest : List ℕ)
    → read_raws (length raws) (write_raws raws ++ rest) ≡ some raws
unfolding read_raws write_raws
read_raws-write_raws [] rest = refl
read_raws-write_raws (raw ∷ raws) rest =
    let behind = write_raws raws ++ rest in
    let back : drop (length raw) ((raw ++ write_raws raws) ++ rest) ≡ behind =
      ap (drop (length raw)) (append_assoc raw (write_raws raws) rest)
      ∙ drop-append_length raw behind (length raw) refl in
    let front : take (length raw) ((raw ++ write_raws raws) ++ rest) ≡ raw =
      ap (take (length raw)) (append_assoc raw (write_raws raws) rest)
      ∙ take-append_length raw behind (length raw) refl in
    rw back (rw (read_raws-write_raws raws rest) (ap some (ap₂ ◌∷◌ front refl)))

length-take_at_most : (n : ℕ) (bytes : List ℕ) → length (take n bytes) ≤ length bytes
length-take_at_most zero bytes = omega arith
length-take_at_most (suc n) [] = omega arith
length-take_at_most (suc n) (b ∷ bytes) = omega (arith, length-take_at_most n bytes)

read_raws-shorter :
    (k m : ℕ) (bytes : List ℕ) (raws : List (List ℕ))
    → length bytes < m
    → read_raws k bytes ≡ some raws
    → All (λ raw. length raw < m) raws
unfolding read_raws
read_raws-shorter zero m bytes [] h e = tt
read_raws-shorter zero m bytes (raw ∷ raws) h e = cc
read_raws-shorter (suc k) m [] raws h e = cc
read_raws-shorter (suc k) m (n ∷ bytes) raws h e =
    by_rest (read_raws k (drop n bytes)) refl e
      (λ rest. read_raws-shorter k m (drop n bytes) rest (omega (arith, length-drop n bytes)))
  where
    by_rest :
        (o : Option (List (List ℕ)))
        → read_raws k (drop n bytes) ≡ o
        → elim o [ none ↦ none | some rest ↦ some (take n bytes ∷ rest) ] ≡ some raws
        → ((rest : List (List ℕ))
            → read_raws k (drop n bytes) ≡ some rest
            → All (λ raw. length raw < m) rest)
        → All (λ raw. length raw < m) raws
    by_rest none found made shorter = cc
    by_rest (some rest) found made shorter =
        subst (All (λ raw. length raw < m)) (some-injective _ _ made)
          (omega (arith, length-take_at_most n bytes), shorter rest found)

of_count :
    {A : Type 0} (k m : ℕ) (bytes : List ℕ) (raws : List (List ℕ)) (f : List (List ℕ) → A) (a : A)
    (second : A → List (List ℕ))
    → ((r : List (List ℕ)) → second (f r) ≡ r)
    → length bytes < m
    → elim (read_raws k bytes) [ none ↦ none | some r ↦ some (f r) ] ≡ some a
    → All (λ raw. length raw < m) (second a)
of_count k m bytes raws f a second inside h e = by_raws (read_raws k bytes) refl e
  where
    by_raws :
        (o : Option (List (List ℕ)))
        → read_raws k bytes ≡ o
        → elim o [ none ↦ none | some r ↦ some (f r) ] ≡ some a
        → All (λ raw. length raw < m) (second a)
    by_raws none found made = cc
    by_raws (some r) found made =
        subst (All (λ raw. length raw < m)) (sym (inside r) ∙ ap second (some-injective _ _ made))
          (read_raws-shorter k m bytes r h found)

scripts_field-shorter :
    (input : List ℕ) (t : ℕ) (raws : List (List ℕ))
    → scripts_field input ≡ some (t, raws)
    → All (λ raw. length raw < length input) raws
unfolding scripts_field
scripts_field-shorter [] t raws e = cc
scripts_field-shorter (_ ∷ []) t raws e = cc
scripts_field-shorter (_ ∷ _ ∷ []) t raws e = cc
scripts_field-shorter (_ ∷ _ ∷ _ ∷ []) t raws e = cc
scripts_field-shorter (a ∷ b ∷ c ∷ k ∷ bytes) t raws e =
    of_count k _ bytes raws (λ r. (b, r)) (t, raws) (λ p. p.1) (λ r. refl) (omega arith) e

n_of_k_fields-shorter :
    (input : List ℕ) (t n : ℕ) (raws : List (List ℕ))
    → n_of_k_fields input ≡ some (t, n, raws)
    → All (λ raw. length raw < length input) raws
unfolding n_of_k_fields
n_of_k_fields-shorter [] t n raws e = cc
n_of_k_fields-shorter (_ ∷ []) t n raws e = cc
n_of_k_fields-shorter (_ ∷ _ ∷ []) t n raws e = cc
n_of_k_fields-shorter (_ ∷ _ ∷ _ ∷ []) t n raws e = cc
n_of_k_fields-shorter (_ ∷ _ ∷ _ ∷ _ ∷ []) t n raws e = cc
n_of_k_fields-shorter (_ ∷ _ ∷ _ ∷ _ ∷ _ ∷ []) t n raws e = cc
n_of_k_fields-shorter (a ∷ b ∷ c ∷ d ∷ e' ∷ k ∷ bytes) t n raws e =
    of_count k _ bytes raws (λ r. (b, d, r)) (t, n, raws) (λ p. p.2) (λ r. refl) (omega arith) e

pub small_ShorterScripts : ShorterScripts script_libraries
small_ShorterScripts = record {
  of_scripts = scripts_field-shorter;
  of_n_of_k = n_of_k_fields-shorter;
}

reads_hash :
    (t : ℕ) (h : List ℕ) → hash_field (write (script_type t ∷ key_hash h ∷ [])) ≡ some (t, h)
unfolding hash_field write
reads_hash t h = rw (take-append_length h [] (length h) refl) refl

reads_raws :
    (t : ℕ) (raws : List (List ℕ))
    → scripts_field (write (script_type t ∷ scripts raws ∷ [])) ≡ some (t, raws)
unfolding scripts_field write
reads_raws t raws = rw (read_raws-write_raws raws [], scripts_field) refl

reads_count :
    (t n : ℕ) (raws : List (List ℕ))
    → n_of_k_fields (write (script_type t ∷ number n ∷ scripts raws ∷ [])) ≡ some (t, n, raws)
unfolding n_of_k_fields write
reads_count t n raws = rw (read_raws-write_raws raws [], n_of_k_fields) refl

reads_first :
    (t : ℕ) (vs : List Value) → first_type (write (script_type t ∷ vs)) ≡ some (some t ∷ [])
unfolding first_type write
reads_first t vs = refl

reads_last : (t i : ℕ) → interval_field (write (script_type t ∷ number i ∷ [])) ≡ some (t, i)
unfolding interval_field write
reads_last t i = refl

-- This encoding knows no bounds, so every item is one at every depth.
pub small_ScriptLaws : ScriptLaws script_libraries
small_ScriptLaws = record {
  shorter = small_ShorterScripts;
  encode = write;
  IsItem = λ d raw. Unit;
  item = λ d vs few ready. tt;
  marshal_values = λ d vs ready. refl;
  elements = λ vs. [];
  reads_type = λ d t vs deep ready. reads_first t vs;
  reads_pub_key = λ d t h deep ready. reads_hash t h;
  reads_scripts = λ d t raws deep ready. reads_raws t raws;
  reads_n_of_k = λ d t n raws deep ready. reads_count t n raws;
  reads_interval = λ d t i deep ready. reads_last t i;
}
