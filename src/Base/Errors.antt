-- ===== src/Base/Errors.antt =====
-- Go's `(value, error)` results, with the error types of each component as a parameter.
use mathlib.Core.Path.{◌≡◌, refl, ap}
use mathlib.Core.Logic.{◌⊎◌, inl, inr}
use mathlib.Core.Option.{Option, none, some}

pub data Result {ℓ} (E : Type 0) (A : Type ℓ) : Type ℓ where
  err : E → Result E A
  ok : A → Result E A

infixl 5 ◌>>=◌
abbrev pub ◌>>=◌ {ℓ κ} :
    {E : Type 0} {A : Type ℓ} {B : Type κ} → Result E A → (A → Result E B) → Result E B
err bad >>= next = err bad
ok value >>= next = next value

-- `if err != nil { return …, e }` behind a standard-library call.
abbrev pub or_err {ℓ} : {E : Type 0} {A : Type ℓ} → Option A → E → Result E A
or_err (some a) e = ok a
or_err none e = err e

-- An action and what follows it.
module _ {ℓ κ} {E : Type 0} {A : Type ℓ} {B : Type κ} where
  pub >>=-eq-ok :
      (action : Result E A) (next : A → Result E B) {value : B}
      → (action >>= next) ≡ ok value
      → (mid : A) × (action ≡ ok mid) × (next mid ≡ ok value)
  >>=-eq-ok (err e) next whole = cc
  >>=-eq-ok (ok mid) next whole = (mid, refl, whole)

  pub >>=-eq-err :
      (action : Result E A) (next : A → Result E B) {bad : E}
      → (action >>= next) ≡ err bad
      → (action ≡ err bad) ⊎ ((mid : A) × (action ≡ ok mid) × (next mid ≡ err bad))
  >>=-eq-err (err e) next whole = inl cc
  >>=-eq-err (ok mid) next whole = inr (mid, refl, whole)

pub or_err-eq-ok {ℓ} :
    {E : Type 0} {A : Type ℓ} (o : Option A) (e : E) {a : A} → or_err o e ≡ ok a → o ≡ some a
or_err-eq-ok (some a) e h = cc
or_err-eq-ok none e h = cc

pub ok_injective {ℓ} :
    {E : Type 0} {A : Type ℓ} {a b : A} → ◌≡◌ {A = Result E A} (ok a) (ok b) → a ≡ b
ok_injective {a} h = ap (λ r. elim r [ ok x ↦ x | err e ↦ a ]) h

pub Result-cases {ℓ} :
    {E : Type 0} {A : Type ℓ} (r : Result E A) → ((a : A) × (r ≡ ok a)) ⊎ ((e : E) × (r ≡ err e))
Result-cases (ok a) = inl (a, refl)
Result-cases (err e) = inr (e, refl)
