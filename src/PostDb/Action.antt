-- ===== src/PostDb/Action.antt =====
-- A step of a program that uses the database: it extends the record of what was asked of the driver
-- and returns a value, an error or a panic. `defer` is a function of its own.
use au10_service.Prelude.{ℕ, Bool, Option, List, Outcome, ok, err, panic}
use au10_service.Text.{Bytes}
use au10_service.Text.Errors.{Error}
use au10_service.Au10.Log.{Journal}

-- The SQL statements of a transaction, with their arguments in order.
pub data Statement : Type 0 where
  insert_post : (id author latitude longitude : ℕ) → Statement
  insert_message : (id post kind size : ℕ) → Statement
  append_message : (id post : ℕ) (chunk : Bytes) → Statement

pub data DbEvent : Type 0 where
  begin commit rollback : DbEvent
  exec : Statement → DbEvent

-- What was asked of the driver, each call with its error, the last one first.
abbrev pub History : Type 0
History = List (DbEvent × Option Error)

-- `open` is whether the field `tx` of the transaction is set.
pub record Store : Type 0 where
  pub history : History
  pub is_open : Bool
  pub journal : Journal

abbrev pub DbAction {ℓ} : Type ℓ → Type ℓ
DbAction A = Store → Store × Outcome Error A

module _ {ℓ κ} {A : Type ℓ} {B : Type κ} where
  abbrev pub continue : Store × Outcome Error A → (A → DbAction B) → Store × Outcome Error B
  continue (s, ok a) f = f a s
  continue (s, err e) f = (s, err e)
  continue (s, panic) f = (s, panic)

  infixl 5 ◌>>=◌
  abbrev pub ◌>>=◌ : DbAction A → (A → DbAction B) → DbAction B
  ◌>>=◌ m f s = continue (m s) f

module _ {ℓ} {B : Type ℓ} where
  infixl 5 ◌>>◌
  abbrev pub ◌>>◌ : DbAction (Unit {0}) → DbAction B → DbAction B
  ◌>>◌ m k s = continue (m s) (λ _. k)

-- A value that is computed without the database.
abbrev pub lift {ℓ} : {A : Type ℓ} → Outcome Error A → DbAction A
lift o s = (s, o)

-- A panic of the deferred call takes the place of the result.
abbrev pub keep_result {ℓ} :
    {A : Type ℓ} → Outcome Error A → Store × Outcome Error (Unit {0}) → Store × Outcome Error A
keep_result result (s, ok u) = (s, result)
keep_result result (s, err e) = (s, result)
keep_result result (s, panic) = (s, panic)

-- `defer last` before `body`.
abbrev pub deferring {ℓ} : {A : Type ℓ} → DbAction (Unit {0}) → DbAction A → DbAction A
deferring last body s = keep_result (body s).1 (last (body s).0)
