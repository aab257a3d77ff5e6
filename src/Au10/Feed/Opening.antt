-- ===== src/Au10/Feed/Opening.antt =====
-- au10/log.go, posts.go and publisher.go: what `Subscribe` and the singletons' constructors return.
use au10_service.Prelude.{
  ℕ, ◌≡◌, refl, ◌≢◌, inl, inr, Bool, true, false, Option, none, some, List, [], ◌∷◌, ◌++◌, arith,
  Bool-cases, Option-cases,
}
use au10_service.Text.Errors.{Error}
use au10_service.Au10.Reader.{
  Answers, Reader, ServeTurn, waiting, returned, crashed, member, add, serve_turn, subscribe, start,
}
use au10_service.Au10.Reader.{last_response}
use au10_service.Au10.Reader.Subscribing.{last_response-append}
use au10_service.Au10.Feed.{
  Feed, CloseStep, new_feed, requested, serves, is_served, response_of, answered,
}

last_response-ne-none :
    (responses : List (Option Error)) (e : Error) → last_response (responses ++ some e ∷ []) ≢ none
last_response-ne-none responses e = ground (arith, last_response-append responses (some e))

module _ {A : Type 0} where
  -- Whether a subscription's field `stream` is set, so that its next request closes it.
  abbrev pub knows : ℕ → ServeTurn A → Bool
  knows id (waiting stream) = member id stream.attached
  knows id (returned stream) = true
  knows id (crashed stream) = true

  -- An open subscription that `serve` hands records to, with no record on the way.
  pub record IsOpen (f : Feed A) : Type 0 where
    pub made : f.subscribed ≡ true
    pub known : knows f.id f.stream ≡ true
    pub served : is_served f ≡ true
    pub empty : f.records ≡ none
    pub free : f.held ≡ none
    pub open_records : f.records_closed ≡ false
    pub whole : f.broken ≡ false

  requested-served :
      (id : ℕ) (answers : Answers) (stream : Reader A)
      → member id stream.attached ≡ false
      → response_of (requested (some id) answers (waiting stream)) ≡ none
      → (serves id (requested (some id) answers (waiting stream)) ≡ true)
        × (knows id (requested (some id) answers (waiting stream)) ≡ true)
  unfolding serve_turn subscribe start add member
  requested-served id answers stream fresh accepted = elim (Bool-cases stream.running) [
    | inl runs ↦ ground arith
    | inr idle ↦ elim (Option-cases answers.opening) [
      | inl opens ↦ ground arith
      | inr (e, fails) ↦
          absurd (last_response-ne-none stream.responses _ (rw (fresh, idle, fails) at accepted))
    ]
  ]

  pub answered-IsOpen :
      (response : Option Error) (closing : List CloseStep) (answers : Answers) (f : Feed A)
      → (answered response closing answers f).1 ≡ none
      → (response ≡ none)
        × ((answered response closing answers f).0 ≡ record f { subscribed = true })
  answered-IsOpen none closing answers f accepted = (refl, refl)
  answered-IsOpen (some e) closing answers f accepted = absurd (ground arith)

  -- A subscription that was returned is open.
  pub new_feed-IsOpen :
      (closing : List CloseStep) (answers : Answers) (id : ℕ) (stream : Reader A)
      → member id stream.attached ≡ false
      → (new_feed closing answers id (waiting stream)).1 ≡ none
      → IsOpen (new_feed closing answers id (waiting stream)).0
  unfolding new_feed
  new_feed-IsOpen closing answers id stream fresh made =
      let (accepted, same) = answered-IsOpen _ closing answers _ made in
      let (served, known) = requested-served id answers stream fresh accepted in
      rw same (record {
        made = refl;
        known = known;
        served = served;
        empty = refl;
        free = refl;
        open_records = refl;
        whole = refl;
      })
