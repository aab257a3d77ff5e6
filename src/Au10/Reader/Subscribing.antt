-- ===== src/Au10/Reader/Subscribing.antt =====
-- au10/streamreader.go: `NewSubscription` and the `Close` of a subscription, as their callers see
-- them: a request to `serve` and its response.
use au10_service.Prelude.{
  ℕ, ◌≡◌, refl, inl, inr, true, false, not, Option, none, some, List, [], ◌∷◌, ◌++◌, arith,
  if◌then◌else◌, Bool-cases, Outcome, ok, err, panic,
}
use au10_service.Text.Errors.{Error}
use au10_service.Au10.Reader.{
  last_response, Answers, Reader, ServeTurn, waiting, returned, crashed, request, member, remove,
  add, is_empty, serve_turn, subscribe, unsubscribe, start, stop,
}
use au10_service.Au10.Reader.Balance.{IsBalanced}

pub last_response-append :
    (responses : List (Option Error)) (response : Option Error)
    → last_response (responses ++ response ∷ []) ≡ response
last_response-append [] response = refl
last_response-append (first ∷ []) response = refl
last_response-append (first ∷ second ∷ responses) response =
    last_response-append (second ∷ responses) response

remove-missing : (id : ℕ) (ids : List ℕ) → member id ids ≡ false → remove id ids ≡ ids
unfolding member remove
remove-missing id [] missing = refl
remove-missing id (other ∷ ids) missing = ground (arith, remove-missing id ids)

remove-add : (id : ℕ) (ids : List ℕ) → member id ids ≡ false → remove id (add id ids) ≡ ids
unfolding remove add
remove-add id ids missing = ground (arith, remove-missing id ids missing)

member-add : (id : ℕ) (ids : List ℕ) → member id (id ∷ ids) ≡ true
unfolding member
member-add id ids = ground arith

module _ {A : Type 0} where
  -- `Close`; a subscription that was never subscribed is not attached. Without `serve`, the request
  -- is a write to a closed channel.
  unfoldable pub close_subscription : ℕ → Answers → ServeTurn A → ServeTurn A
  close_subscription id answers (waiting stream) =
      if member id stream.attached
      then serve_turn (request (some id) answers) stream
      else waiting stream
  close_subscription id answers (returned stream) = crashed stream
  close_subscription id answers (crashed stream) = crashed stream

  abbrev given : ℕ → Answers → ServeTurn A → Option Error → ServeTurn A × Outcome Error ℕ
  given id answers turn none = (turn, ok id)
  given id answers turn (some e) = (close_subscription id answers turn, err e)

  abbrev responded : ℕ → Answers → ServeTurn A → ServeTurn A × Outcome Error ℕ
  responded id answers (waiting stream) =
      given id answers (waiting stream) (last_response stream.responses)
  responded id answers (returned stream) = (returned stream, panic)
  responded id answers (crashed stream) = (crashed stream, panic)

  -- `NewSubscription`, for a new subscription `id`.
  unfoldable pub new_subscription : ℕ → Answers → ServeTurn A → ServeTurn A × Outcome Error ℕ
  new_subscription id answers (waiting stream) =
      responded id answers (serve_turn (request (some id) answers) stream)
  new_subscription id answers (returned stream) = (crashed stream, panic)
  new_subscription id answers (crashed stream) = (crashed stream, panic)

  -- The state of a reader that a new subscription was added to.
  abbrev joined : ℕ → Reader A → Reader A
  joined id stream = record stream {
    subscriptions = add id stream.subscriptions;
    attached = id ∷ stream.attached;
    responses = stream.responses ++ none ∷ [];
  }

  new_subscription_running :
      (stream : Reader A) (id : ℕ) (answers : Answers)
      → member id stream.attached ≡ false
      → stream.running ≡ true
      → new_subscription id answers (waiting stream) ≡ (waiting (joined id stream), ok id)
  unfolding new_subscription serve_turn subscribe
  new_subscription_running stream id answers fresh runs =
      rw (fresh, runs) (rw (last_response-append stream.responses none) refl)

  new_subscription_stopped :
      (stream : Reader A) (id : ℕ) (answers : Answers)
      → member id stream.attached ≡ false
      → stream.running ≡ false
      → answers.opening ≡ none
      → new_subscription id answers (waiting stream)
        ≡ (waiting (joined id (start none stream).0), ok id)
  unfolding new_subscription serve_turn subscribe start
  new_subscription_stopped stream id answers fresh stopped opens =
      rw (fresh, stopped, opens) (rw (last_response-append stream.responses none) refl)

  -- What is left of a reader of which `id` was subscribed and closed again.
  abbrev pub LeftAs : Reader A → ServeTurn A → Type 0
  LeftAs stream turn =
      (left : Reader A) × (turn ≡ waiting left)
      × (left.subscriptions ≡ stream.subscriptions)
      × (left.running ≡ not (is_empty stream.subscriptions))

  close_joined :
      (stream : Reader A) (id : ℕ) (answers : Answers)
      → stream.running ≡ true
      → member id stream.subscriptions ≡ false
      → LeftAs stream (close_subscription id answers (waiting (joined id stream)))
  unfolding close_subscription serve_turn unsubscribe stop
  close_joined stream id answers runs fresh =
      rw (member-add id stream.attached, remove-add id stream.subscriptions fresh, runs)
        (elim (Bool-cases (is_empty stream.subscriptions)) [
          | inl last ↦ rw last (_, refl, refl, refl)
          | inr others ↦ rw others (_, refl, refl, refl)
        ])

  -- A balanced reader is what a reader with its subscriptions is left as.
  running_left :
      (stream : Reader A) → IsBalanced stream → stream.running ≡ not (is_empty stream.subscriptions)
  running_left stream balance = ground (arith, balance)

  -- In a reader whose consumer runs exactly while there are subscriptions, and with a consumer that
  -- opens without an error if it must, a new subscription succeeds; when it is closed again, the
  -- reader has the subscriptions that it had, and its consumer runs exactly if it did, whatever
  -- closing the consumer returns.
  pub new_subscription-closed :
      (stream : Reader A) (id : ℕ) (answers answers' : Answers)
      → IsBalanced stream
      → member id stream.attached ≡ false
      → member id stream.subscriptions ≡ false
      → answers.opening ≡ none
      → ((new_subscription id answers (waiting stream)).1 ≡ ok id)
        × LeftAs stream
            (close_subscription id answers' (new_subscription id answers (waiting stream)).0)
        × (stream.running ≡ not (is_empty stream.subscriptions))
  unfolding start
  new_subscription-closed stream id answers answers' balance fresh new opens =
      elim (Bool-cases stream.running) [
        | inl runs ↦
            rw (new_subscription_running stream id answers fresh runs)
              (refl, close_joined stream id answers' runs new, running_left stream balance)
        | inr idle ↦ rw (new_subscription_stopped stream id answers fresh idle opens) (
          refl,
          close_joined (start none stream).0 id answers' refl new,
          running_left stream balance,
        )
      ]
