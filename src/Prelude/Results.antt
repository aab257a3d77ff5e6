-- ===== src/Prelude/Results.antt =====
-- What a Go call comes to: a value, an error value that is returned, or a panic, which unwinds.
use mathlib.Core.Path.{◌≡◌, refl}
use mathlib.Core.Logic.{◌⊎◌, inl, inr}
use mathlib.Core.Option.{Option, none, some}
use native.Mathlib.Omega.{arith}

pub data Outcome {ℓ κ} (E : Type ℓ) (A : Type κ) : Type (ℓ ⊔ κ) where
  ok : A → Outcome E A
  err : E → Outcome E A
  panic : Outcome E A

module _ {ℓ κ ι} {E : Type ℓ} {A : Type κ} {B : Type ι} where
  infixl 5 ◌>>=◌
  abbrev pub ◌>>=◌ : Outcome E A → (A → Outcome E B) → Outcome E B
  panic >>= next = panic
  err fault >>= next = err fault
  ok value >>= next = next value

  -- A chain that succeeds has two steps that succeed.
  pub >>=-ok_inv :
      (first : Outcome E A) {next : A → Outcome E B} {result : B}
      → (first >>= next) ≡ ok result
      → (value : A) × ((next value ≡ ok result) × (first ≡ ok value))
  >>=-ok_inv panic same = ground arith
  >>=-ok_inv (err fault) same = ground arith
  >>=-ok_inv (ok value) same = (value, (same, refl))

module _ {ℓ κ} {E : Type ℓ} {A : Type κ} where
  -- A read through a pointer that may be nil.
  abbrev pub deref : Option A → Outcome E A
  deref none = panic
  deref (some a) = ok a

  pub Outcome-cases :
      (o : Outcome E A) → ((a : A) × (o ≡ ok a)) ⊎ (((e : E) × (o ≡ err e)) ⊎ (o ≡ panic))
  Outcome-cases (ok a) = inl (a, refl)
  Outcome-cases (err e) = inr (inl (e, refl))
  Outcome-cases panic = inr (inr refl)
