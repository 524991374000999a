-- ===== src/Node/Output.antt =====
-- Which outputs of the command `UTXOs` survives.
use go_cardano_serialization.Base.{
  ℕ, ◌+◌, ◌<◌, ◌≡◌, refl, arith, List, [], ◌∷◌, length, suc, ◌==◌, ok, panic, if◌then◌else◌,
}
use go_cardano_serialization.Node.{split_lines, read_utxos}

-- How many bytes are line ends, and how many are not.
unfoldable pub line_ends : List ℕ → ℕ
line_ends [] = 0
line_ends (c ∷ s) = let n = line_ends s in if c == 10 then suc n else n

unfoldable pub others : List ℕ → ℕ
others [] = 0
others (c ∷ s) = let n = others s in if c == 10 then n else suc n

length-line_ends : (s : List ℕ) → length s ≡ line_ends s + others s
unfolding line_ends others
length-line_ends [] = omega arith
length-line_ends (c ∷ s) = ground (arith, length-line_ends s)

length-split_lines : (s : List ℕ) → length (split_lines s) ≡ suc (line_ends s)
unfolding split_lines line_ends
length-split_lines [] = refl
length-split_lines (c ∷ s) = by_lines (split_lines s) (length-split_lines s)
  where
    by_lines :
        (rest : List (List ℕ))
        → length rest ≡ suc (line_ends s)
        → length (
            if c == 10
            then [] ∷ rest
            else elim rest [ [] ↦ (c ∷ []) ∷ [] | line ∷ lines ↦ (c ∷ line) ∷ lines ])
          ≡ suc (line_ends (c ∷ s))
    by_lines [] e = absurd (omega arith)
    by_lines (line ∷ lines) e = ground arith

-- UTXOs reads no inputs from an output of the command of less than three bytes, and panics on
-- every output that has more than two bytes besides its line ends.
pub read_utxos-panic :
    (output : List ℕ)
    → (length output < 3 → read_utxos output ≡ ok [])
      × (2 < others output → read_utxos output ≡ panic)
unfolding read_utxos
read_utxos-panic output = (
  λ short. ground arith,
  λ text. ground (arith, length-line_ends output, length-split_lines output),
)
