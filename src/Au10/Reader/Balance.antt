-- ===== src/Au10/Reader/Balance.antt =====
-- au10/streamreader.go: when the field `consumer` is set, and what is fatal to `serve`.
use au10_service.Prelude.{
  ℕ, ◌≡◌, refl, ◌↔◌, ◌⊎◌, inl, inr, Bool, true, false, Option, none, some, List, [], ◌∷◌, ◌++◌, map,
  arith, Bool-cases, Any,
}
use au10_service.Au10.Reader.Sending.{MeetsShut, any_shut_iff}
use au10_service.Au10.Reader.{
  Answers, ReaderEvent, request, message, failure, Reader, ServeTurn, waiting, returned, crashed,
  member, remove, add, is_empty, serve_turn, serve, serve_on, subscribe, unsubscribe, start, stop,
  close, after_sending, any_shut, reached, delivered_to,
}

is_empty-remove : (id : ℕ) (ids : List ℕ) → is_empty ids ≡ true → is_empty (remove id ids) ≡ true
unfolding remove
is_empty-remove id [] none_left = refl
is_empty-remove id (other ∷ ids) none_left = ground arith

module _ {A : Type 0} where
  -- The field `consumer` is set exactly while there is a subscription.
  abbrev pub IsBalanced : Reader A → Type 0
  IsBalanced stream = (stream.running ≡ false) ↔ (is_empty stream.subscriptions ≡ true)

  -- A record or an error that is handed over while one of these subscriptions has a closed channel.
  abbrev pub IsShutOut : List ℕ → ReaderEvent A → Type 0
  IsShutOut ids (message m shut) = MeetsShut shut ids
  IsShutOut ids (failure e shut) = MeetsShut shut ids
  IsShutOut ids (request id answers) = ⊥

  -- The consumer and the subscriptions stay in balance, even where `serve` panics; once it returned,
  -- the consumer is gone. A panic comes when no subscription is left, or over a closed channel.
  abbrev pub Keeps : List (ReaderEvent A) → ServeTurn A → Type 0
  Keeps events (waiting stream) = IsBalanced stream
  Keeps events (returned stream) = stream.running ≡ false
  Keeps events (crashed stream) =
      IsBalanced stream
      × ((is_empty stream.subscriptions ≡ true) ⊎ Any (IsShutOut stream.subscriptions) events)

  sent-Keeps :
      (event : ReaderEvent A) (events : List (ReaderEvent A)) (shut : List ℕ) (stream : Reader A)
      → (MeetsShut shut stream.subscriptions → IsShutOut stream.subscriptions event)
      → IsBalanced stream
      → Keeps (event ∷ events) (after_sending shut stream.subscriptions stream)
  sent-Keeps event events shut stream meets balance =
      elim (Bool-cases (any_shut shut stream.subscriptions)) [
        | inl met ↦
            rw met
              (balance, inr (Any.head (meets ((any_shut_iff shut stream.subscriptions).0 met))))
        | inr free ↦ rw free balance
      ]

  request-Keeps :
      (id : Option ℕ) (answers : Answers) (events : List (ReaderEvent A)) (stream : Reader A)
      → IsBalanced stream
      → Keeps (request id answers ∷ events) (serve_turn (request id answers) stream)
  unfolding serve_turn subscribe unsubscribe start stop close add
  request-Keeps none answers events stream balance = ground arith
  request-Keeps (some id) answers events stream balance =
      ground (arith, is_empty-remove id stream.subscriptions)

  serve_turn-Keeps :
      (event : ReaderEvent A) (events : List (ReaderEvent A)) (stream : Reader A)
      → IsBalanced stream
      → Keeps (event ∷ events) (serve_turn event stream)
  unfolding serve_turn
  serve_turn-Keeps (request id answers) events stream balance =
      request-Keeps id answers events stream balance
  serve_turn-Keeps (message m shut) events stream balance =
      sent-Keeps (message m shut) events shut _ (λ met. met) balance
  serve_turn-Keeps (failure e shut) events stream balance =
      sent-Keeps (failure e shut) events shut _ (λ met. met) balance

  later-Keeps :
      (event : ReaderEvent A) (events : List (ReaderEvent A)) (turn : ServeTurn A)
      → Keeps events turn
      → Keeps (event ∷ events) turn
  later-Keeps event events (waiting stream) keeps = keeps
  later-Keeps event events (returned stream) keeps = keeps
  later-Keeps event events (crashed stream) (balance, inl left) = (balance, inl left)
  later-Keeps event events (crashed stream) (balance, inr met) = (balance, inr (Any.tail met))

  go_on-Keeps :
      (event : ReaderEvent A) (events : List (ReaderEvent A)) (turn : ServeTurn A)
      → Keeps (event ∷ events) turn
      → ((stream : Reader A) → IsBalanced stream → Keeps events (serve events stream))
      → Keeps (event ∷ events) (serve_on turn (serve events))
  go_on-Keeps event events (waiting stream) keeps run =
      later-Keeps event events (serve events stream) (run stream keeps)
  go_on-Keeps event events (returned stream) keeps run = keeps
  go_on-Keeps event events (crashed stream) keeps run = keeps

  -- From a stream whose field `consumer` is set exactly while there are subscriptions, any run of
  -- `serve` keeps it so, up to the panic if there is one; once `serve` has returned, the field is not
  -- set. If it panics, then no subscription is left, or a record or an error of the run was handed
  -- over while the channel of one of the subscriptions was closed.
  pub serve-Keeps :
      (events : List (ReaderEvent A)) (stream : Reader A)
      → IsBalanced stream
      → Keeps events (serve events stream)
  unfolding serve
  serve-Keeps [] stream balance = balance
  serve-Keeps (event ∷ events) stream balance =
      go_on-Keeps event events (serve_turn event stream)
        (serve_turn-Keeps event events stream balance) (serve-Keeps events)

  abbrev pub is_crashed : ServeTurn A → Bool
  is_crashed (crashed stream) = true
  is_crashed (waiting stream) = false
  is_crashed (returned stream) = false

  -- What is fatal: to close a subscription that was subscribed before when no subscription is left, or
  -- to hand something over while the channel of a subscription is closed.
  abbrev pub IsFatal : ReaderEvent A → Reader A → Type 0
  IsFatal (request (some id) answers) stream =
      (member id stream.attached ≡ true) × (is_empty stream.subscriptions ≡ true)
  IsFatal (request none answers) stream = ⊥
  IsFatal (message m shut) stream = MeetsShut shut stream.subscriptions
  IsFatal (failure e shut) stream = MeetsShut shut stream.subscriptions

  sent-crashes_iff :
      (shut : List ℕ) (stream : Reader A)
      → (is_crashed (after_sending shut stream.subscriptions stream) ≡ true)
        ↔ (any_shut shut stream.subscriptions ≡ true)
  sent-crashes_iff shut stream = ground arith

  -- In a stream whose field `consumer` is set exactly while there are subscriptions, a turn of `serve`
  -- panics on exactly this: a subscription that was subscribed before is closed when no subscription
  -- is left, as on a second `Close` of the last one; or a record or an error is handed over while the
  -- channel of one of the subscriptions is closed.
  pub serve_turn-crashes_iff :
      (event : ReaderEvent A) (stream : Reader A)
      → IsBalanced stream
      → (is_crashed (serve_turn event stream) ≡ true) ↔ IsFatal event stream
  unfolding serve_turn subscribe unsubscribe start stop close add
  serve_turn-crashes_iff (request none answers) stream balance = ground arith
  serve_turn-crashes_iff (request (some id) answers) stream balance =
      ground (arith, is_empty-remove id stream.subscriptions)
  serve_turn-crashes_iff (message m shut) stream balance =
      let sent = sent-crashes_iff shut (record stream {
        handled = stream.handled ++ map (λ id. (id, m)) (reached shut stream.subscriptions);
      }) in
      let met = any_shut_iff shut stream.subscriptions in
      (λ h. met.0 (sent.0 h), λ h. sent.1 (met.1 h))
  serve_turn-crashes_iff (failure e shut) stream balance =
      let sent = sent-crashes_iff shut (record stream {
        failures = stream.failures ++ map (λ id. (id, e)) (delivered_to shut stream.subscriptions);
      }) in
      let met = any_shut_iff shut stream.subscriptions in
      (λ h. met.0 (sent.0 h), λ h. sent.1 (met.1 h))
