-- ===== src/Wallet/Payment/Selection.antt =====
-- Which utxo the loop of txbuilder takes.
use go_cardano_serialization.Base.{
  ℕ, ◌+◌, ◌≤◌, ◌<◌, ◌≡◌, refl, ap, ◌∙◌, arith, Bool-cases, leb, List, [], ◌∷◌, ◌++◌, All, ◌⊎◌, inl,
  inr, if◌then◌else◌,
}
use go_cardano_serialization.Tx.{TxInput}
use go_cardano_serialization.Wallet.Payment.{send_amount, select_input}

-- The amount that the loop asks for
abbrev pub needed : ℕ
needed = send_amount + 1000000 + 200000

abbrev pub IsSmall : TxInput → Type 0
IsSmall u = u.amount < needed

-- The last utxo of the list that is large enough
pub record IsLast (us : List TxInput) (u : TxInput) : Type 0 where
  pub front : List TxInput
  pub back : List TxInput
  pub parts : us ≡ front ++ (u ∷ back)
  pub enough : needed ≤ u.amount
  pub later : All IsSmall back

pub select_input-small :
    (first : TxInput) (us : List TxInput) → All IsSmall us → select_input first us ≡ first
unfolding select_input
select_input-small first [] h = refl
select_input-small first (u ∷ us) (h, hs) = ground (arith, select_input-small first us hs)

pub select_input-IsLast :
    (first : TxInput) (us : List TxInput) (u : TxInput) → IsLast us u → select_input first us ≡ u
unfolding select_input
select_input-IsLast first us u l = ap (select_input first) l.parts ∙ past l.front first
  where
    past : (front : List TxInput) (first : TxInput) → select_input first (front ++ (u ∷ l.back)) ≡ u
    past [] first = ground (
      arith,
      select_input-small (if leb (send_amount + 1000000 + 200000) u.amount then u else first) l.back
          l.later,
    )
    past (v ∷ front) first =
        past front (if leb (send_amount + 1000000 + 200000) v.amount then v else first)

cases_of : (us : List TxInput) → All IsSmall us ⊎ ((u : TxInput) × IsLast us u)
cases_of [] = inl tt
cases_of (u ∷ us) = elim (cases_of us) [
  | inr (v, l) ↦ inr (
    v,
    record {
      front = u ∷ l.front;
      back = l.back;
      parts = ap (◌∷◌ u) l.parts;
      enough = l.enough;
      later = l.later;
    },
  )
  | inl small ↦ elim (Bool-cases (leb needed u.amount)) [
    | inl e ↦
        inr
          (u, record { front = []; back = us; parts = refl; enough = ground arith; later = small })
    | inr e ↦ inl (ground arith, small)
  ]
]

-- The loop of txbuilder takes the last utxo of at least 6.2 ADA, and keeps the value it started
-- with where there is none.
pub select_input-cases :
    (first : TxInput) (us : List TxInput)
    → (All IsSmall us × (select_input first us ≡ first))
      ⊎ ((u : TxInput) × IsLast us u × (select_input first us ≡ u))
select_input-cases first us = elim (cases_of us) [
  | inl h ↦ inl (h, select_input-small first us h)
  | inr (u, l) ↦ inr (u, l, select_input-IsLast first us u l)
]
