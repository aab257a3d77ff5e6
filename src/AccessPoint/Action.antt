-- ===== src/AccessPoint/Action.antt =====
-- A call of the access point: it writes to the log and to the publisher's streams, and returns a
-- value, a status or a panic.
use au10_service.Prelude.{◌≡◌, ap, Outcome, ok, err, panic, ap}
use au10_service.Au10.Log.{Journal}
use au10_service.Au10.Publisher.{Inputs}
use au10_service.AccessPoint.Status.{Status}

pub record World : Type 0 where
  pub journal : Journal
  pub inputs : Inputs

abbrev pub Action {ℓ} : Type ℓ → Type ℓ
Action A = World → World × Outcome Status A

module _ {ℓ κ} {A : Type ℓ} {B : Type κ} where
  abbrev pub continue : World × Outcome Status A → (A → Action B) → World × Outcome Status B
  continue (w, ok a) f = f a w
  continue (w, err e) f = (w, err e)
  continue (w, panic) f = (w, panic)

  infixl 5 ◌>>=◌
  abbrev pub ◌>>=◌ : Action A → (A → Action B) → Action B
  ◌>>=◌ m f w = continue (m w) f

module _ {ℓ} {B : Type ℓ} where
  infixl 5 ◌>>◌
  abbrev pub ◌>>◌ : Action (Unit {0}) → Action B → Action B
  ◌>>◌ m k w = continue (m w) (λ _. k)

module _ {ℓ} {A : Type ℓ} where
  abbrev pub return : A → Action A
  return a w = (w, ok a)

  abbrev pub fail : Status → Action A
  fail s w = (w, err s)

  -- A call of something that writes to the log only.
  abbrev pub give_up : Action A
  give_up w = (w, panic)

abbrev pub write_log : (Journal → Journal) → Action (Unit {0})
write_log f w = (record w { journal = f w.journal }, ok tt)

-- A call after one that returned a value.
pub >>=-ok {ℓ κ} :
    {A : Type ℓ} {B : Type κ} (m : Action A) (f : A → Action B) (w w' : World) (a : A)
    → m w ≡ (w', ok a)
    → (m >>= f) w ≡ f a w'
>>=-ok m f w w' a e = ap (λ r. continue r f) e
