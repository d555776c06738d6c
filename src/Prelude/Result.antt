-- ===== src/Prelude/Result.antt =====
-- `Result<A, E>` and the `?` operator.
use mathlib.Core.Path.{◌≡◌, ap}

pub data Result {ℓ} (E : Type 0) (A : Type ℓ) : Type ℓ where
  ok : A → Result E A
  err : E → Result E A

infixl 5 ◌>>=◌
abbrev pub ◌>>=◌ {ℓ κ} :
    {E : Type 0} {A : Type ℓ} {B : Type κ} → Result E A → (A → Result E B) → Result E B
ok a >>= f = f a
err e >>= f = err e

abbrev ok_or {ℓ} : {E : Type 0} {A : Type ℓ} → A → Result E A → A
ok_or d (ok a) = a
ok_or d (err e) = d

pub ok-injective {ℓ} :
    {E : Type 0} {A : Type ℓ} {a b : A} → ◌≡◌ {A = Result E A} (ok a) (ok b) → a ≡ b
ok-injective {a = a} e = ap (ok_or a) e

abbrev err_or {ℓ} : {E : Type 0} {A : Type ℓ} → E → Result E A → E
err_or d (ok a) = d
err_or d (err e) = e

pub err-injective {ℓ} :
    {E : Type 0} {A : Type ℓ} (d : E) {e f : E} → ◌≡◌ {A = Result E A} (err e) (err f) → e ≡ f
err-injective d p = ap (err_or d) p
