-- ===== src/Au10/Failing.antt =====
-- au10/streamreader.go and subscription.go: how `serve` tells its subscriptions of an error. Each
-- has a channel of errors without a place, so `serve` waits until the subscription's owner takes the
-- error; whoever closes a subscription waits for `serve`.
pub mod Telling
use au10_service.Prelude.{
  ℕ, ◌≡◌, Bool, true, false, Option, List, [], ◌∷◌, ◌++◌, ◌==◌, if◌then◌else◌,
}
use au10_service.Text.Errors.{Error}
use au10_service.Au10.Reader.{remove, member}

-- Where the owner of a subscription is: it reads the channels; it closes the subscription while a
-- goroutine of it still reads, as when a caller cancels; it closes the subscription and nothing reads
-- any more, as when it was told of an error, a `Send` failed or the node's loop ended; or the
-- subscription is closed.
pub data Owner : Type 0 where
  reading cancelling leaving departed : Owner

abbrev pub reads : Owner → Bool
reads reading = true
reads cancelling = true
reads leaving = false
reads departed = false

abbrev pub asks : Owner → Bool
asks reading = false
asks cancelling = true
asks leaving = true
asks departed = false

-- Where `serve` is: at its select, or in its loop over the subscriptions, with those that are left.
pub data Teller : Type 0 where
  choosing : Teller
  telling : Option Error → List ℕ → Teller

pub record Failing : Type 0 where
  pub serving : Teller
  pub subscriptions : List ℕ
  pub owners : ℕ → Owner
  pub told : List (ℕ × Option Error)

abbrev pub moved_to : Owner → ℕ → (ℕ → Owner) → ℕ → Owner
moved_to place id owners other = if other == id then place else owners other

-- Go visits the subscriptions in any order.
pub data Move (s : Failing) : Failing → Type 0 where
  fails :
      (e : Option Error) (ids : List ℕ)
      → s.serving ≡ choosing
      → ((id : ℕ) → member id ids ≡ member id s.subscriptions)
      → Move s (record s { serving = telling e ids })
  tells :
      (e : Option Error) (id : ℕ) (ids : List ℕ)
      → s.serving ≡ telling e (id ∷ ids)
      → reads (s.owners id) ≡ true
      → Move s (record s {
        serving = telling e ids;
        owners = moved_to leaving id s.owners;
        told = s.told ++ (id, e) ∷ [];
      })
  all_told :
      (e : Option Error) → s.serving ≡ telling e [] → Move s (record s { serving = choosing })
  cancels :
      (id : ℕ)
      → s.owners id ≡ reading
      → Move s (record s { owners = moved_to cancelling id s.owners })
  closes :
      (id : ℕ)
      → reads (s.owners id) ≡ true
      → Move s (record s { owners = moved_to leaving id s.owners })
  unsubscribes :
      (id : ℕ)
      → s.serving ≡ choosing
      → asks (s.owners id) ≡ true
      → Move s (record s {
        subscriptions = remove id s.subscriptions;
        owners = moved_to departed id s.owners;
      })

pub data Moves (s : Failing) : Failing → Type 0 where
  none_yet : Moves s s
  after : {t u : Failing} → Moves s t → Move t u → Moves s u
