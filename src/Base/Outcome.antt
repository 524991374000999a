-- ===== src/Base/Outcome.antt =====
-- Go's (value, error) pair with the error's type as a parameter, and a run-time panic apart.
use mathlib.Core.Path.{◌≡◌, refl}
use mathlib.Core.Bool.{Bool, true, false}
use go_cardano_serialization.Base.Tests.{if◌then◌else◌}

pub data Result {ℓ} (E : Type 0) (A : Type ℓ) : Type ℓ where
  ok : A → Result E A
  err : E → Result E A
  panic : Result E A

infixl 5 ◌>>=◌
abbrev pub ◌>>=◌ {ℓ κ} :
    {E : Type 0} {A : Type ℓ} {B : Type κ} → Result E A → (A → Result E B) → Result E B
ok a >>= f = f a
err e >>= f = err e
panic >>= f = panic

pub bind_assoc {ℓ κ ι} :
    {E : Type 0} {A : Type ℓ} {B : Type κ} {C : Type ι} (m : Result E A) (f : A → Result E B)
    (g : B → Result E C)
    → ((m >>= f) >>= g) ≡ (m >>= λ a. f a >>= g)
bind_assoc (ok a) f g = refl
bind_assoc (err e) f g = refl
bind_assoc panic f g = refl

infixl 5 ◌>>◌
abbrev pub ◌>>◌ {ℓ} : {E : Type 0} {B : Type ℓ} → Result E (Unit {0}) → Result E B → Result E B
m >> k = m >>= λ _. k

-- An early return of an error, unless the test holds.
abbrev pub guard : {E : Type 0} → Bool → E → Result E (Unit {0})
guard true e = ok tt
guard false e = err e

-- An index or a slice bound that Go checks at run time.
abbrev pub in_range : {E : Type 0} → Bool → Result E (Unit {0})
in_range true = ok tt
in_range false = panic

pub ok-injective {ℓ} :
    {E : Type 0} {A : Type ℓ} {a b : A} → ◌≡◌ {A = Result E A} (ok a) (ok b) → a ≡ b
ok-injective h = cc

-- What a chain that succeeds has passed: the first step has, and the rest from its value.
pub bind_ok {ℓ κ} :
    {E : Type 0} {A : Type ℓ} {B : Type κ} (m : Result E A) (f : A → Result E B) (b : B)
    → (m >>= f) ≡ ok b
    → (a : A) × (m ≡ ok a) × (f a ≡ ok b)
bind_ok (ok a) f b e = (a, refl, e)
bind_ok (err x) f b e = cc
bind_ok panic f b e = cc

pub guard_ok {ℓ} :
    {E : Type 0} {B : Type ℓ} (t : Bool) (x : E) (k : Result E B) (b : B)
    → (guard t x >> k) ≡ ok b
    → (t ≡ true) × (k ≡ ok b)
guard_ok true x k b e = (refl, e)
guard_ok false x k b e = cc

pub in_range_ok {ℓ} :
    {E : Type 0} {B : Type ℓ} (t : Bool) (k : Result E B) (b : B)
    → (in_range t >> k) ≡ ok b
    → (t ≡ true) × (k ≡ ok b)
in_range_ok true k b e = (refl, e)
in_range_ok false k b e = cc

pub if_err_ok {ℓ} :
    {E : Type 0} {B : Type ℓ} (t : Bool) (x : E) (k : Result E B) (b : B)
    → (if t then err x else k) ≡ ok b
    → (t ≡ false) × (k ≡ ok b)
if_err_ok true x k b e = cc
if_err_ok false x k b e = (refl, e)
