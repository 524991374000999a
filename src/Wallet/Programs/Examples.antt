-- ===== src/Wallet/Programs/Examples.antt =====
-- The programs with small hashes and with mnemonics that show their entropy.
use go_cardano_serialization.Base.{
  ℕ, ◌+◌, ◌-◌, ◌≤◌, ◌≡◌, ◌≢◌, refl, ap, ap₂, ◌∙◌, arith, List, [], ◌∷◌, ◌++◌, none, some, ok, err,
  length, take, map, replicate, length-map, take-append_length, ◌==◌, if◌then◌else◌,
}
use go_cardano_serialization.Address.Examples.{toy_texts}
use go_cardano_serialization.Address.Types.{BaseAddress, base, enterprise, to_enterprise}
use go_cardano_serialization.Address.Text.{new_address, has_prefix}
use go_cardano_serialization.Bip32.Examples.{toy, toy-KeyLaws}
use go_cardano_serialization.Wallet.Examples.{hashes, hashes-HashLaws}
use go_cardano_serialization.Bech32.Text.{
  codes, same_text, lower_byte, upper_byte, last_index, invalid_separator,
}
use go_cardano_serialization.Bech32.Codec.{decode}
use go_cardano_serialization.Address.Byron.{invalid_bech32}
use go_cardano_serialization.Fees.{zero_protocol}
use go_cardano_serialization.Node.Interface.{Node}
use go_cardano_serialization.Wallet.Payment.{node_error}
use go_cardano_serialization.Wallet.Programs.{
  MnemonicLibraries, split, enterprise_type, base_type, enterprise_label, base_label, Generated,
  restore_main, generate_main, check_flags, wrong_words, address_failure, simple_decode, query_node,
}
use go_cardano_serialization.Wallet.Programs.Restored.{
  MnemonicLaws, main_flags, restore_main-generate_main,
}

abbrev spaces : List ℕ
spaces = replicate 23 b' '

abbrev shown : List ℕ → List ℕ
shown entropy = map (λ n. n + 33) entropy ++ spaces

abbrev hidden : List ℕ → List ℕ
hidden m = map (λ n. n - 33) (take 32 m)

abbrev toy_words : MnemonicLibraries
toy_words = record {
  new_entropy = λ bits. some (replicate 32 bits);
  new_mnemonic = λ entropy. some (shown entropy);
  entropy_from_mnemonic = λ m. some (hidden m);
}

-- A letter makes the first word longer.
length-split_letter :
    (c : ℕ) (words : List (List ℕ))
    → c ≢ b' '
    → 1 ≤ length words
    → length (
        if c == b' '
        then [] ∷ words
        else elim words [ [] ↦ (c ∷ []) ∷ [] | word ∷ more ↦ (c ∷ word) ∷ more ])
      ≡ length words
length-split_letter c [] ne h = absurd (omega arith)
length-split_letter c (word ∷ more) ne h = ground (arith, ne)

shown_words : (entropy : List ℕ) → length (split (shown entropy) b' ') ≡ 24
unfolding split
shown_words [] = refl
shown_words (n ∷ entropy) =
    let rest = shown_words entropy in
    length-split_letter (n + 33) (split (shown entropy) b' ') (λ e. omega arith)
      (omega (arith, rest))
    ∙ rest

unshift : (xs : List ℕ) → map (λ (n : ℕ). n - 33) (map (λ (n : ℕ). n + 33) xs) ≡ xs
unshift [] = refl
unshift (x ∷ xs) = ap₂ ◌∷◌ (omega arith) (unshift xs)

toy_words-MnemonicLaws : MnemonicLaws toy_words
toy_words-MnemonicLaws = record {
  mnemonic_of = λ entropy size. (
    shown entropy,
    refl,
    shown_words entropy,
    ap some (
        ap (map (λ n. n - 33))
          (take-append_length (map (λ n. n + 33) entropy) spaces 32 (length-map _ entropy ∙ size))
        ∙ unshift entropy),
  );
}

one_word : check_flags (main_flags (codes "abandon") base_type) ≡ err wrong_words
unfolding check_flags
one_word = refl

restore_main-generate_main_example :
    (g : Generated) × (generate_main toy hashes toy_texts toy_words ≡ ok g)
    × (restore_main toy hashes toy_texts toy_words (main_flags g.mnemonic base_type)
        ≡ ok (base_label ++ g.address))
    × (b : BaseAddress) × (new_address toy_texts g.address [] ≡ ok (base b))
    × (e : List ℕ) × (restore_main toy hashes toy_texts toy_words
          (main_flags g.mnemonic enterprise_type)
        ≡ ok (enterprise_label ++ e))
    × (new_address toy_texts e [] ≡ ok (enterprise (to_enterprise b)))
restore_main-generate_main_example =
    restore_main-generate_main toy toy-KeyLaws hashes hashes-HashLaws toy_texts toy_words
      toy_words-MnemonicLaws [] (replicate 32 256) refl refl

-- A Byron address is no case of simple_decode; a text that is no address ends the program.
not_bech32 :
    simple_decode toy_texts (codes "addr") []
    ≡ err (address_failure (invalid_bech32 (invalid_separator none 4)))
unfolding simple_decode new_address has_prefix decode same_text lower_byte upper_byte last_index
not_bech32 = refl

-- A node whose answers are seen in the report
abbrev quiet_node : Node (List ℕ) (List ℕ)
quiet_node = record {
  utxos = λ _. ok [];
  submit_tx = λ _. err [];
  protocol_parameters = ok zero_protocol;
  query_tip = err (codes "no tip");
}

no_tip : query_node quiet_node toy_texts [] [] ≡ err (node_error (codes "no tip"))
unfolding query_node
no_tip = refl
