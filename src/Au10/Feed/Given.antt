-- ===== src/Au10/Feed/Given.antt =====
-- au10/streamreader.go: the records that `serve` hands to one of its subscriptions.
use au10_service.Prelude.{
  ℕ, ◌≡◌, refl, sym, inl, inr, Bool, true, false, not, Option, none, some, List, [], ◌∷◌, ◌++◌, map,
  arith, ◌==◌, if◌then◌else◌, Bool-cases, append-nil, sym,
}
use au10_service.Au10.Reader.Sending.{reached-open}
use au10_service.Au10.Reader.{
  Answers, reached, ServeTurn, waiting, returned, crashed, member, remove, add, serve_turn,
  subscribe, unsubscribe, start, stop, close,
}
use au10_service.Au10.Feed.Order.{member-remove_self, member-remove_other}
use au10_service.Au10.Feed.{serves, requested, served, reader_close}

-- A number that occurs at most once.
abbrev pub once : ℕ → List ℕ → Bool
once id [] = true
once id (other ∷ ids) = if id == other then not (member id ids) else once id ids

pub absent-once : (id : ℕ) (ids : List ℕ) → member id ids ≡ false → once id ids ≡ true
unfolding member
absent-once id [] absent = refl
absent-once id (other ∷ ids) absent = ground (arith, absent-once id ids)

once-remove : (id other : ℕ) (ids : List ℕ) → once id ids ≡ true → once id (remove other ids) ≡ true
unfolding remove member
once-remove id other [] v = refl
once-remove id other (next ∷ ids) v = elim (Bool-cases (other == id)) [
  | inl same ↦
      ground (arith, absent-once id (remove other (next ∷ ids)), member-remove_self id (next ∷ ids))
  | inr differ ↦ ground (arith, once-remove id other ids, member-remove_other id other ids differ)
]

once-add : (id other : ℕ) (ids : List ℕ) → once id ids ≡ true → once id (add other ids) ≡ true
unfolding add
once-add id other ids v = ground (arith, once-remove id other ids v, member-remove_self id ids)

module _ {A : Type 0} where
  -- The records that the handler of a subscription was called with.
  abbrev pub given_to : ℕ → List (ℕ × A) → List A
  given_to id [] = []
  given_to id ((other, m) ∷ rest) = if id == other then m ∷ given_to id rest else given_to id rest

  abbrev pub handled_of : ServeTurn A → List (ℕ × A)
  handled_of (waiting stream) = stream.handled
  handled_of (returned stream) = stream.handled
  handled_of (crashed stream) = stream.handled

  abbrev pub subscriptions_of : ServeTurn A → List ℕ
  subscriptions_of (waiting stream) = stream.subscriptions
  subscriptions_of (returned stream) = stream.subscriptions
  subscriptions_of (crashed stream) = stream.subscriptions

  abbrev pub pending : Option A → List A
  pending none = []
  pending (some m) = m ∷ []

  given_to-append :
      (id : ℕ) (xs ys : List (ℕ × A)) → given_to id (xs ++ ys) ≡ given_to id xs ++ given_to id ys
  given_to-append id [] ys = refl
  given_to-append id ((other, m) ∷ rest) ys = ground (arith, given_to-append id rest ys)

  given_to-absent :
      (id : ℕ) (m : A) (ids : List ℕ)
      → member id ids ≡ false
      → given_to id (map (λ other. (other, m)) ids) ≡ []
  unfolding member
  given_to-absent id m [] absent = refl
  given_to-absent id m (other ∷ ids) absent = ground (arith, given_to-absent id m ids)

  given_to-present :
      (id : ℕ) (m : A) (ids : List ℕ)
      → once id ids ≡ true
      → member id ids ≡ true
      → given_to id (map (λ other. (other, m)) ids) ≡ m ∷ []
  unfolding member
  given_to-present id m [] v present = absurd (ground arith)
  given_to-present id m (other ∷ ids) v present =
      ground (arith, given_to-absent id m ids, given_to-present id m ids)

  pub requested-kept :
      (id : ℕ) (other : Option ℕ) (answers : Answers) (turn : ServeTurn A)
      → once id (subscriptions_of turn) ≡ true
      → (once id (subscriptions_of (requested other answers turn)) ≡ true)
        × (handled_of (requested other answers turn) ≡ handled_of turn)
  unfolding serve_turn subscribe unsubscribe start stop close
  requested-kept id (some other) answers (waiting stream) v =
      ground
        (arith, once-add id other stream.subscriptions, once-remove id other stream.subscriptions)
  requested-kept id none answers (waiting stream) v = ground arith
  requested-kept id other answers (returned stream) v = (v, refl)
  requested-kept id other answers (crashed stream) v = (v, refl)

  pub reader_close-kept :
      (id : ℕ) (answers : Answers) (turn : ServeTurn A)
      → once id (subscriptions_of turn) ≡ true
      → (once id (subscriptions_of (reader_close answers turn)) ≡ true)
        × (handled_of (reader_close answers turn) ≡ handled_of turn)
  unfolding reader_close serve_turn close stop
  reader_close-kept id answers (waiting stream) v = ground arith
  reader_close-kept id answers (returned stream) v = ground arith
  reader_close-kept id answers (crashed stream) v = (v, refl)

  -- `serve` reaches a subscription with a closed channel too.
  given_to-reached :
      (id : ℕ) (m : A) (ids : List ℕ)
      → once id ids ≡ true
      → given_to id (map (λ other. (other, m)) (reached (id ∷ []) ids))
        ≡ (if member id ids then m ∷ [] else [])
  unfolding reached member
  given_to-reached id m [] v = refl
  given_to-reached id m (other ∷ ids) v = ground (arith, given_to-reached id m ids)

  -- With this subscription's own channel closed, it is still called.
  pub served-shut :
      (id : ℕ) (m : A) (turn : ServeTurn A)
      → once id (subscriptions_of turn) ≡ true
      → (subscriptions_of (served m (id ∷ []) turn) ≡ subscriptions_of turn)
        × (given_to id (handled_of (served m (id ∷ []) turn))
            ≡ given_to id (handled_of turn) ++ (if serves id turn then m ∷ [] else []))
  unfolding serve_turn
  served-shut id m (waiting stream) v = (
    ground arith,
    ground (
      arith,
      given_to-append id stream.handled
          (map (λ other. (other, m)) (reached (id ∷ []) stream.subscriptions)),
      given_to-reached id m stream.subscriptions v,
    ),
  )
  served-shut id m (returned stream) v = (refl, sym (append-nil _))
  served-shut id m (crashed stream) v = (refl, sym (append-nil _))

  pub served-given :
      (id : ℕ) (m : A) (turn : ServeTurn A)
      → once id (subscriptions_of turn) ≡ true
      → (subscriptions_of (served m [] turn) ≡ subscriptions_of turn)
        × (given_to id (handled_of (served m [] turn))
            ≡ given_to id (handled_of turn) ++ (if serves id turn then m ∷ [] else []))
  unfolding serve_turn
  served-given id m (waiting stream) v = (
    ground (arith, reached-open stream.subscriptions),
    ground (
      arith,
      given_to-append id stream.handled (map (λ other. (other, m)) stream.subscriptions),
      given_to-absent id m stream.subscriptions,
      given_to-present id m stream.subscriptions v,
      reached-open stream.subscriptions,
    ),
  )
  served-given id m (returned stream) v = (refl, sym (append-nil _))
  served-given id m (crashed stream) v = (refl, sym (append-nil _))
