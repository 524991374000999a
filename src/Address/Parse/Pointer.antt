-- ===== src/Address/Parse/Pointer.antt =====
-- The three numbers of a pointer address are read one after the other.
use mathlib.Core.List.{append_assoc, append-nil}
use go_cardano_serialization.Base.{
  ℕ, ◌+◌, ◌≡◌, refl, sym, ap, ◌∙◌, arith, false, List, [], ◌∷◌, ◌++◌, length, drop, ltb, bit_and,
  ok, length-append, drop-append_length, IsU64,
}
use go_cardano_serialization.Address.Types.{pointer, new_pointer, new_pointer_address}
use go_cardano_serialization.Address.VariableNat.{variable_nat_encode}
use go_cardano_serialization.Address.VariableNat.RoundTrip.{
  variable_nat_decode-encode, length-variable_nat_encode,
}
use go_cardano_serialization.Address.Parse.{networks, read_addr_cred, read_pointer}
use go_cardano_serialization.Address.Parse.Header.{credential, read_addr_cred-parts}

module _ (spare : List ℕ) (h : ℕ) (p : List ℕ) (a b c : ℕ) (hp : length p ≡ 28) (ha : IsU64 a)
    (hb : IsU64 b) (hc : IsU64 c) where
  unfoldable pub written : List ℕ
  written = h ∷ (p ++ (variable_nat_encode a ++ (variable_nat_encode b ++ variable_nat_encode c)))

  slot_size : ℕ
  slot_size = length (variable_nat_encode a)

  tx_size : ℕ
  tx_size = length (variable_nat_encode b)

  cert_size : ℕ
  cert_size = length (variable_nat_encode c)

  length-written : length written ≡ 29 + slot_size + tx_size + cert_size
  unfolding written slot_size tx_size cert_size
  length-written = omega (
    arith,
    hp,
    length-append p (variable_nat_encode a ++ (variable_nat_encode b ++ variable_nat_encode c)),
    length-append (variable_nat_encode a) (variable_nat_encode b ++ variable_nat_encode c),
    length-append (variable_nat_encode b) (variable_nat_encode c),
  )

  drop_slot :
      drop 29 written ≡ variable_nat_encode a ++ (variable_nat_encode b ++ variable_nat_encode c)
  unfolding written
  drop_slot = drop-append_length p _ 28 hp

  drop_tx : drop (29 + slot_size) written ≡ variable_nat_encode b ++ variable_nat_encode c
  unfolding written slot_size
  drop_tx =
      ap (λ (t : List ℕ). drop (29 + slot_size) (h ∷ t))
        (sym
          (append_assoc p (variable_nat_encode a) (variable_nat_encode b ++ variable_nat_encode c)))
      ∙ drop-append_length (h ∷ (p ++ variable_nat_encode a)) _ (29 + slot_size)
          (omega (arith, hp, length-append p (variable_nat_encode a)))

  drop_cert : drop (29 + slot_size + tx_size) written ≡ variable_nat_encode c ++ []
  unfolding written slot_size tx_size
  drop_cert =
      ap (λ (t : List ℕ). drop (29 + slot_size + tx_size) (h ∷ t))
        (ap (◌++◌ p) (
            sym (
              append_assoc (variable_nat_encode a) (variable_nat_encode b) (variable_nat_encode c)))
          ∙ sym (
              append_assoc p (variable_nat_encode a ++ variable_nat_encode b)
                (variable_nat_encode c)))
      ∙ drop-append_length (h ∷ (p ++ (variable_nat_encode a ++ variable_nat_encode b))) _
          (29 + slot_size + tx_size)
          (omega (
            arith,
            hp,
            length-append p (variable_nat_encode a ++ variable_nat_encode b),
            length-append (variable_nat_encode a) (variable_nat_encode b),
          ))
      ∙ sym (append-nil (variable_nat_encode c))

  long_enough : ltb (length written) (1 + 28 + 1 + 1 + 1) ≡ false
  unfolding slot_size tx_size cert_size
  long_enough = ground (
    arith,
    length-written,
    length-variable_nat_encode a,
    length-variable_nat_encode b,
    length-variable_nat_encode c,
  )

  nothing_left : ltb (29 + slot_size + tx_size + cert_size) (length written) ≡ false
  nothing_left = ground (arith, length-written)

  payment_read : read_addr_cred written spare h 4 1 ≡ ok (credential h 4 p)
  unfolding written
  payment_read =
      read_addr_cred-parts written spare (h ∷ []) p
        ((variable_nat_encode a ++ (variable_nat_encode b ++ variable_nat_encode c)) ++ spare) h 4 1
        (ap (◌∷◌ h) (append_assoc p _ spare)) refl hp

  pub read_pointer-parts :
      read_pointer written spare h
      ≡ ok (
          pointer (
            new_pointer_address (networks (bit_and h 0x0f)) (credential h 4 p) (new_pointer a b c)))
  unfolding read_pointer slot_size tx_size cert_size
  read_pointer-parts =
      rw (long_enough, payment_read)
        (rw (drop_slot, variable_nat_decode-encode a _ ha)
          (rw (drop_tx, variable_nat_decode-encode b _ hb)
            (rw (drop_cert, variable_nat_decode-encode c [] hc) (rw nothing_left))))
