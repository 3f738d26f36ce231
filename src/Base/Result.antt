-- ===== src/Base/Result.antt =====
-- `std::expected<A, E>`: a value or an error.
use mathlib.Core.Path.{◌≡◌, refl}
use mathlib.Core.Bool.{Bool, true, false}

pub data Result {ℓ κ} (E : Type κ) (A : Type ℓ) : Type (ℓ ⊔ κ) where
  ok : A → Result E A
  err : E → Result E A

infixl 5 ◌>>=◌ ◌>>◌
abbrev pub ◌>>=◌ {ℓ κ μ} :
    {E : Type κ} {A : Type ℓ} {B : Type μ} → Result E A → (A → Result E B) → Result E B
ok a >>= f = f a
err e >>= f = err e

abbrev pub ◌>>◌ {κ μ} : {E : Type κ} {B : Type μ} → Result E (Unit {0}) → Result E B → Result E B
m >> k = m >>= λ _. k

-- `if (bad) return std::unexpected(e);`
abbrev pub reject_if {κ} : {E : Type κ} → Bool → E → Result E (Unit {0})
reject_if true e = err e
reject_if false e = ok tt

abbrev pub accept {κ} : {E : Type κ} → Result E (Unit {0})
accept = ok tt

-- Inversion of a successful step.
pub >>=-eq_ok {ℓ κ μ} :
    {E : Type κ} {A : Type ℓ} {B : Type μ} (m : Result E A) (f : A → Result E B) {b : B}
    → (m >>= f) ≡ ok b
    → (a : A) × (m ≡ ok a) × (f a ≡ ok b)
>>=-eq_ok (ok a) f h = (a, refl, h)
>>=-eq_ok (err e) f h = cc

pub reject_if-eq_ok {ℓ κ} :
    {E : Type κ} {B : Type ℓ} (t : Bool) (e : E) (k : Result E B) {b : B}
    → (reject_if t e >>= λ _. k) ≡ ok b
    → (t ≡ false) × (k ≡ ok b)
reject_if-eq_ok true e k h = cc
reject_if-eq_ok false e k h = (refl, h)

pub reject_if-eq_tt {κ} : {E : Type κ} (t : Bool) (e : E) → reject_if t e ≡ accept → t ≡ false
reject_if-eq_tt true e h = cc
reject_if-eq_tt false e h = refl
