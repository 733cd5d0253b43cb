-- ===== src/Base/Outcome.antt =====
-- The result of a Go function that may return an error or panic (a nil dereference or an index
-- out of range). `E` is the type of the errors.
use mathlib.Core.Path.{◌≡◌, refl, ap}
use mathlib.Core.Logic.{◌⊎◌, inl, inr}
use mathlib.Core.Bool.{Bool, true, false}

pub data Outcome {ℓ κ} (E : Type ℓ) (A : Type κ) : Type (ℓ ⊔ κ) where
  ok : A → Outcome E A
  err : E → Outcome E A
  panic : Outcome E A

-- The next statement runs only on a result; an error or a panic ends the function.
infixl 5 ◌>>◌ ◌>>=◌
abbrev pub ◌>>=◌ {ℓ κ ι} :
    {E : Type ℓ} {A : Type κ} {B : Type ι} → Outcome E A → (A → Outcome E B) → Outcome E B
panic >>= next = panic
err reason >>= next = err reason
ok value >>= next = next value

abbrev pub ◌>>◌ {ℓ κ} : {E : Type ℓ} {B : Type κ} → Outcome E (Unit {0}) → Outcome E B → Outcome E B
first >> rest = first >>= λ _. rest

-- `if !test { return err }`
abbrev pub check {ℓ} : {E : Type ℓ} → Bool → E → Outcome E (Unit {0})
check false reason = err reason
check true reason = ok tt

-- Every outcome is a result, an error or a panic.
pub Outcome-cases {ℓ κ} :
    {E : Type ℓ} {A : Type κ} (m : Outcome E A)
    → ((a : A) × (m ≡ ok a)) ⊎ ((((e : E) × (m ≡ err e))) ⊎ (m ≡ panic))
Outcome-cases (ok a) = inl (a, refl)
Outcome-cases (err e) = inr (inl (e, refl))
Outcome-cases panic = inr (inr refl)

-- A result determines what it holds.
pub ok-injective {ℓ κ} :
    {E : Type ℓ} {A : Type κ} {a b : A} → Path (Outcome E A) (ok a) (ok b) → a ≡ b
ok-injective {a = a} h = ap (λ m. elim m [ ok x ↦ x | _ ↦ a ]) h
