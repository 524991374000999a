-- ===== src/Tx/Metadata/Payments.antt =====
-- What the payments and the other entries of the metadata are after an operation.
use go_cardano_serialization.Base.{
  ℕ, ◌≡◌, refl, sym, ap, ap₂, ◌∙◌, Bool, true, false, List, [], ◌∷◌, ◌++◌, map, Option, none, some,
  ◌==◌, ==_iff, Result, ok, panic, ◌>>=◌, ◌&&◌, Bool-cases, inl, inr,
}
use mathlib.Core.List.{append_assoc, append-nil}
use go_cardano_serialization.Bech32.Text.{codes, same_text}
use go_cardano_serialization.Bech32.Codec.Symbols.{same_text_refl}
use go_cardano_serialization.Tx.{TxError}
use go_cardano_serialization.Tx.Metadata.{
  lookup, insert, Element, nil_element, payments, other, Labels, AuxiliaryData, labels, element,
  write, add_metadata_element, add_metadata_transaction,
}

and-true : (a b : Bool) → (a && b) ≡ true → (a ≡ true) × (b ≡ true)
and-true true b h = (refl, h)
and-true false b h = cc

same_text_sound : (s t : List ℕ) → same_text s t ≡ true → s ≡ t
unfolding same_text
same_text_sound [] [] h = refl
same_text_sound [] (y ∷ t) h = cc
same_text_sound (x ∷ s) [] h = cc
same_text_sound (x ∷ s) (y ∷ t) h =
    let (here, rest) = and-true (x == y) (same_text s t) h in
    ap₂ ◌∷◌ ((==_iff x y).0 here) (same_text_sound s t rest)

module _ {ℓ κ} {K : Type ℓ} {V : Type κ} (same : K → K → Bool) where
  lookup-insert :
      (k : K) (v : V) (m : List (K × V))
      → same k k ≡ true
      → lookup same k (insert same k v m) ≡ some v
  unfolding lookup insert
  lookup-insert k v [] h = rw h
  lookup-insert k v ((j, w) ∷ m) h = elim (Bool-cases (same k j)) [
    | inl e ↦ rw (e, insert) (rw e)
    | inr ne ↦ rw (ne, insert) (rw ne (lookup-insert k v m h))
  ]

  -- Another key, where `same` is equality
  lookup-insert_other :
      (j k : K) (v : V) (m : List (K × V))
      → ((a b : K) → same a b ≡ true → a ≡ b)
      → same j k ≡ false
      → lookup same j (insert same k v m) ≡ lookup same j m
  unfolding lookup insert
  lookup-insert_other j k v [] sound h = rw h
  lookup-insert_other j k v ((i, w) ∷ m) sound h = elim (Bool-cases (same k i)) [
    | inl e ↦
        let apart : same j i ≡ false = ap (same j) (sym (sound k i e)) ∙ h in
        rw (e, insert) (rw apart)
    | inr ne ↦ rw (ne, insert) (rw (lookup-insert_other j k v m sound h))
  ]

-- One payment more
abbrev appending :
    List ℕ → ℕ → Option (List (List (List ℕ × ℕ))) → Option (List (List (List ℕ × ℕ)))
appending address amount none = none
appending address amount (some l) = some (l ++ (((address, amount) ∷ []) ∷ []))

module _ {A : Type 0} where
  -- `d.Metadata[1]`, where the map of maps is not nil
  abbrev labels_of : AuxiliaryData A → Labels A
  labels_of d = elim d.metadata [ none ↦ [] | some m ↦ labels m ]

  -- The entry of a key under the label 1, nil where there is none.
  abbrev pub entry : List ℕ → AuxiliaryData A → Element A
  entry key d = element key (labels_of d)

  -- The entry of a label; `none` for a missing one, and where the map of maps is nil.
  abbrev pub label : ℕ → AuxiliaryData A → Option (Option (Labels A))
  label j d = elim d.metadata [ none ↦ none | some m ↦ lookup ◌==◌ j m ]

  -- What an operation on the label 1 keeps: every other label, and the three other fields.
  pub record Kept (d d' : AuxiliaryData A) : Type 0 where
    pub labels_kept : (j : ℕ) → (j == 1) ≡ false → label j d' ≡ label j d
    pub native_kept : d'.native_scripts ≡ d.native_scripts
    pub plutus_kept : d'.plutus_scripts ≡ d.plutus_scripts
    pub format_kept : d'.prefer_alonzo_format ≡ d.prefer_alonzo_format

  write-Kept :
      (key : List ℕ) (value : Element A) (m : List (ℕ × Option (Labels A))) (d : AuxiliaryData A)
      → d.metadata ≡ some m
      → Kept d (write key value m d)
  unfolding write
  write-Kept key value m d e = record {
    labels_kept =
        λ j apart. rw e (lookup-insert_other ◌==◌ j 1 _ m (λ a b h. (==_iff a b).0 h) apart);
    native_kept = refl;
    plutus_kept = refl;
    format_kept = refl;
  }

  labels-insert :
      (l : Labels A) (m : List (ℕ × Option (Labels A))) → labels (insert ◌==◌ 1 (some l) m) ≡ l
  unfolding labels
  labels-insert l m = rw (lookup-insert ◌==◌ 1 (some l) m refl, labels)

  write-entry :
      (key : List ℕ) (value : Element A) (m : List (ℕ × Option (Labels A))) (d : AuxiliaryData A)
      → (entry key (write key value m d) ≡ value)
        × ((k : List ℕ)
            → same_text k key ≡ false
            → entry k (write key value m d) ≡ element k (labels m))
  unfolding write element
  write-entry key value m d =
      let l = insert same_text key value (labels m) in
      (
        rw (labels-insert l m)
            (rw (lookup-insert same_text key value (labels m) (same_text_refl key), element)),
        λ k apart. rw (labels-insert l m) (
            rw (
              lookup-insert_other same_text k key value (labels m) same_text_sound apart,
              element,
            )),
      )

  abbrev as_payments : Element A → Option (List (List (List ℕ × ℕ)))
  as_payments nil_element = some []
  as_payments (payments l) = some l
  as_payments (other a) = none

  -- The payments that the metadata hold; `none` where the entry is of another type.
  abbrev pub paid : AuxiliaryData A → Option (List (List (List ℕ × ℕ)))
  paid d = as_payments (entry (codes "transactions") d)

  -- What one more payment leaves: the payments in front of it, and the other entries.
  pub record HasPaid (address : List ℕ) (amount : ℕ) (d d' : AuxiliaryData A) : Type 0 where
    not_nil : (m : List (ℕ × Option (Labels A))) × (d'.metadata ≡ some m)
    appended :
        (l : List (List (List ℕ × ℕ)))
        → paid d ≡ some l
        → paid d' ≡ some (l ++ (((address, amount) ∷ []) ∷ []))
    others_kept : (k : List ℕ) → same_text k (codes "transactions") ≡ false → entry k d' ≡ entry k d
    rest_kept : Kept d d'

  -- One payment
  pub add_metadata_transaction-HasPaid :
      (address : List ℕ) (amount : ℕ) (d : AuxiliaryData A) {m : List (ℕ × Option (Labels A))}
      → d.metadata ≡ some m
      → ((l : List (List (List ℕ × ℕ)))
          → paid d ≡ some l
          → (d' : AuxiliaryData A) × (add_metadata_transaction address amount d ≡ ok d')
            × HasPaid address amount d d')
        × (paid d ≡ none → add_metadata_transaction address amount d ≡ panic)
  unfolding add_metadata_transaction write
  add_metadata_transaction-HasPaid address amount d {m} e =
      by_entry (element (codes "transactions") (labels m)) refl
    where
      old : (k : List ℕ) → entry k d ≡ element k (labels m)
      old k = rw e

      appended :
          (l0 : List (List (List ℕ × ℕ)))
          → paid d ≡ some l0
          → HasPaid address amount d
              (write (codes "transactions") (payments (l0 ++ (((address, amount) ∷ []) ∷ []))) m d)
      appended l0 p =
          let w =
            write-entry (codes "transactions") (payments (l0 ++ (((address, amount) ∷ []) ∷ []))) m
              d in
          record {
            not_nil = (_, refl);
            appended = λ l h. ap as_payments w.0 ∙ ap (appending address amount) (sym p ∙ h);
            others_kept = λ k apart. w.1 k apart ∙ sym (old k);
            rest_kept =
                write-Kept (codes "transactions") (payments (l0 ++ (((address, amount) ∷ []) ∷ [])))
                  m d e;
          }

      by_entry :
          (x : Element A)
          → element (codes "transactions") (labels m) ≡ x
          → ((l : List (List (List ℕ × ℕ)))
              → paid d ≡ some l
              → (d' : AuxiliaryData A) × (add_metadata_transaction address amount d ≡ ok d')
                × HasPaid address amount d d')
            × (paid d ≡ none → add_metadata_transaction address amount d ≡ panic)
      by_entry nil_element f =
          let p : paid d ≡ some [] = ap as_payments (old (codes "transactions") ∙ f) in
          (λ l h. (_, rw e (rw (f, add_metadata_transaction)), appended [] p), λ h. cc (p, h))
      by_entry (payments l0) f =
          let p : paid d ≡ some l0 = ap as_payments (old (codes "transactions") ∙ f) in
          (λ l h. (_, rw e (rw (f, add_metadata_transaction)), appended l0 p), λ h. cc (p, h))
      by_entry (other a) f =
          let p : paid d ≡ none = ap as_payments (old (codes "transactions") ∙ f) in
          (λ l h. cc (p, h), λ h. rw e (rw (f, add_metadata_transaction)))

  -- `AddMetadataTransaction` for each of a list of payments
  abbrev pub add_all : List (List ℕ × ℕ) → AuxiliaryData A → Result TxError (AuxiliaryData A)
  add_all [] d = ok d
  add_all ((address, amount) ∷ ps) d = add_metadata_transaction address amount d >>= add_all ps

  -- Where the metadata are not nil and hold payments or nothing, AddMetadataTransaction called
  -- for each of a list of payments never panics, appends them in their order to the payments
  -- held, and changes no other entry of the label, no other label and no other field.
  pub add_all-paid :
      (ps : List (List ℕ × ℕ)) (d : AuxiliaryData A) {m : List (ℕ × Option (Labels A))}
      (l : List (List (List ℕ × ℕ)))
      → d.metadata ≡ some m
      → paid d ≡ some l
      → (d' : AuxiliaryData A) × (add_all ps d ≡ ok d')
        × (paid d' ≡ some (l ++ map (λ p. p ∷ []) ps))
        × ((k : List ℕ) → same_text k (codes "transactions") ≡ false → entry k d' ≡ entry k d)
        × Kept d d'
  add_all-paid [] d l e h = (
    d,
    refl,
    h ∙ ap some (sym (append-nil l)),
    λ k apart. refl,
    record {
      labels_kept = λ j apart. refl;
      native_kept = refl;
      plutus_kept = refl;
      format_kept = refl;
    },
  )
  add_all-paid ((address, amount) ∷ ps) d l e h =
      let (next, there, more) = (add_metadata_transaction-HasPaid address amount d e).0 l h in
      let (d', all, held, kept, rest) =
        add_all-paid ps next (l ++ (((address, amount) ∷ []) ∷ [])) more.not_nil.1
          (more.appended l h) in
      let first = more.rest_kept in
      (
        d',
        rw (there, add_all) all,
        held ∙ ap some (append_assoc l (((address, amount) ∷ []) ∷ []) (map (λ p. p ∷ []) ps)),
        λ k apart. kept k apart ∙ more.others_kept k apart,
        record {
          labels_kept = λ j apart. rest.labels_kept j apart ∙ first.labels_kept j apart;
          native_kept = rest.native_kept ∙ first.native_kept;
          plutus_kept = rest.plutus_kept ∙ first.plutus_kept;
          format_kept = rest.format_kept ∙ first.format_kept;
        },
      )

  -- Where the metadata are not nil, AddMetadataElement stores the value under the key and changes
  -- no other entry of the label.
  pub add_metadata_element-entry :
      (key : List ℕ) (value : Element A) (d : AuxiliaryData A) {m : List (ℕ × Option (Labels A))}
      → d.metadata ≡ some m
      → (d' : AuxiliaryData A) × (add_metadata_element key value d ≡ ok d')
        × (entry key d' ≡ value)
        × ((k : List ℕ) → same_text k key ≡ false → entry k d' ≡ entry k d)
  unfolding add_metadata_element
  add_metadata_element-entry key value d {m} e =
      let w = write-entry key value m d in
      let old : (k : List ℕ) → entry k d ≡ element k (labels m) = λ k. rw e in
      (write key value m d, rw e, w.0, λ k apart. w.1 k apart ∙ sym (old k))
