-- ===== src/Au10/Feed/Delivery.antt =====
-- au10/streamreader.go with log.go, posts.go and publisher.go: what becomes of the records that
-- `serve` hands to a subscription.
use au10_service.Prelude.{
  ℕ, ◌≡◌, refl, sym, ap, subst, ◌∙◌, inl, inr, Bool, true, false, Option, none, some, List, [], ◌∷◌,
  ◌++◌, arith, if◌then◌else◌, Bool-cases, append_assoc, append-nil, sym, subst, ◌∙◌, ap,
}
use au10_service.Au10.Reader.{Answers, Reader, waiting, member}
use au10_service.Au10.Feed.Opening.{answered-IsOpen}
use au10_service.Au10.Feed.{
  Feed, CloseStep, FeedTurn, arrives, takes, stops, another, closes, feed_turn, live_turn,
  feed_turns, arrive, take, close_step, close_records, close_stream, close_reader, close_errors,
  is_served, served, put, taken_from, is_free, Closing, new_feed,
}
use au10_service.Au10.Feed.Order.{feed_turn_live, feed_turn_over}
use au10_service.Au10.Feed.Given.{
  once, absent-once, given_to, handled_of, subscriptions_of, pending, requested-kept,
  reader_close-kept, served-given, served-shut,
}

module _ {A : Type 0} where
  -- Every record that the handler was called with was read, or waits in the channel, or is the one
  -- that `serve` holds, waiting or in its panic: in this order, and each once.
  abbrev pub IsAccounted : Feed A → Type 0
  IsAccounted f =
      given_to f.id (handled_of f.stream) ≡ f.received ++ (pending f.records ++ pending f.held)

  record IsTracked (f : Feed A) : Type 0 where
    pub unique : once f.id (subscriptions_of f.stream) ≡ true
    pub accounted : IsAccounted f

  close_step-IsTracked :
      (step : CloseStep) (answers : Answers) (f : Feed A)
      → IsTracked f
      → IsTracked (close_step step answers f)
  unfolding close_step
  close_step-IsTracked close_records answers f v = record {
    unique = v.unique;
    accounted = v.accounted;
  }
  close_step-IsTracked close_stream answers f v =
      ground (arith, requested-kept f.id (some f.id) answers f.stream v.unique)
  close_step-IsTracked close_reader answers f v =
      ground (arith, reader_close-kept f.id answers f.stream v.unique)
  close_step-IsTracked close_errors answers f v = record {
    unique = v.unique;
    accounted = v.accounted;
  }

  put-IsTracked :
      (m : A) (records : Option A) (f : Feed A)
      → once f.id (subscriptions_of f.stream) ≡ true
      → f.records ≡ records
      → f.held ≡ none
      → given_to f.id (handled_of f.stream)
        ≡ (f.received ++ (pending records ++ pending f.held)) ++ m ∷ []
      → IsTracked (put m records f)
  put-IsTracked m none f unique same free accounted = record {
    unique = unique;
    accounted = ground (arith, append-nil f.received);
  }
  put-IsTracked m (some full) f unique same free accounted = record {
    unique = unique;
    accounted = ground (arith, append_assoc f.received (full ∷ []) (m ∷ []));
  }

  held_last :
      (received records : List A) (held : Option A) (m : A)
      → is_free held ≡ true
      → (received ++ (records ++ pending held)) ++ m ∷ [] ≡ received ++ (records ++ m ∷ [])
  held_last received records none m free =
      rw (append-nil records) (append_assoc received records (m ∷ []))
  held_last received records (some held) m free = absurd (ground arith)

  taken_from-IsTracked :
      (records : Option A) (f : Feed A)
      → f.records ≡ records
      → IsTracked f
      → IsTracked (taken_from records f)
  taken_from-IsTracked none f same v = v
  taken_from-IsTracked (some m) f same v = record {
    unique = v.unique;
    accounted =
        v.accounted
        ∙ (ap (λ records. f.received ++ (pending records ++ pending f.held)) same
            ∙ (sym (append_assoc f.received (m ∷ []) (pending f.held))
                ∙ ap (λ rest. (f.received ++ m ∷ []) ++ rest) (sym (append-nil (pending f.held)))));
  }

  take-IsTracked : (f : Feed A) → IsTracked f → IsTracked (take f)
  unfolding take
  take-IsTracked f v = elim (Bool-cases f.receiving) [
    | inl reads ↦ simp reads (taken_from-IsTracked f.records f refl v)
    | inr idle ↦ simp idle v
  ]

  handed-IsTracked :
      (m : A) (f : Feed A)
      → is_free f.held ≡ true
      → is_served f ≡ true
      → IsTracked f
      → IsTracked (put m f.records (record f { stream = served m [] f.stream }))
  handed-IsTracked m f free serving v =
      let (same, given) = served-given f.id m f.stream v.unique in
      put-IsTracked m f.records (record f { stream = served m [] f.stream })
        (ap (once f.id) same ∙ v.unique) refl (ground (arith, free))
        (given ∙ (rw serving (ap (λ items. items ++ m ∷ []) v.accounted)))

  -- The record that the handler was called with stays in hand when its channel is closed.
  refused-IsTracked :
      (m : A) (f : Feed A)
      → is_free f.held ≡ true
      → is_served f ≡ true
      → IsTracked f
      → IsTracked
          (record f { broken = true; held = some m; stream = served m (f.id ∷ []) f.stream })
  refused-IsTracked m f free serving v =
      let (same, given) = served-shut f.id m f.stream v.unique in
      record {
        unique = ap (once f.id) same ∙ v.unique;
        accounted =
            given
            ∙ (rw serving (
                ap (λ items. items ++ m ∷ []) v.accounted
                ∙ held_last f.received (pending f.records) f.held m free));
      }

  sent-IsTracked :
      (m : A) (f : Feed A) (closed : Bool)
      → is_free f.held ≡ true
      → is_served f ≡ true
      → IsTracked f
      → IsTracked (
          if closed
          then record f { broken = true; held = some m; stream = served m (f.id ∷ []) f.stream }
          else put m f.records (record f { stream = served m [] f.stream }))
  sent-IsTracked m f true free serving v = refused-IsTracked m f free serving v
  sent-IsTracked m f false free serving v = handed-IsTracked m f free serving v

  unserved-IsTracked :
      (m : A) (f : Feed A)
      → is_served f ≡ false
      → IsTracked f
      → IsTracked (record f { stream = served m [] f.stream })
  unserved-IsTracked m f unserved v =
      let (same, given) = served-given f.id m f.stream v.unique in
      record {
        unique = ap (once f.id) same ∙ v.unique;
        accounted = given ∙ (rw unserved (append-nil _ ∙ v.accounted));
      }

  arrive-IsTracked : (m : A) (f : Feed A) → IsTracked f → IsTracked (arrive m f)
  unfolding arrive
  arrive-IsTracked m f v = elim (Bool-cases (is_free f.held)) [
    | inl free ↦ elim (Bool-cases (is_served f)) [
      | inl serving ↦ simp (free, serving) (sent-IsTracked m f f.records_closed free serving v)
      | inr unserved ↦ simp (free, unserved) (unserved-IsTracked m f unserved v)
    ]
    | inr waits ↦ ground (arith, v.unique, v.accounted)
  ]

  live_turn-IsTracked :
      (turn : FeedTurn A) (c : Closing A) → IsTracked c.1 → IsTracked (live_turn turn c).1
  live_turn-IsTracked (arrives m) (steps, f) v = arrive-IsTracked m f v
  live_turn-IsTracked takes (steps, f) v = take-IsTracked f v
  live_turn-IsTracked stops (steps, f) v = record { unique = v.unique; accounted = v.accounted }
  live_turn-IsTracked (another id answers) (steps, f) v =
      ground (arith, v.unique, v.accounted, requested-kept f.id (some id) answers f.stream v.unique)
  live_turn-IsTracked (closes answers) ([], f) v = v
  live_turn-IsTracked (closes answers) (step ∷ steps, f) v =
      ground (arith, v, close_step-IsTracked step answers f v)

  feed_turn-IsTracked :
      (turn : FeedTurn A) (c : Closing A) → IsTracked c.1 → IsTracked (feed_turn turn c).1
  feed_turn-IsTracked turn c v = elim (Bool-cases c.1.broken) [
    | inl over ↦ subst (λ c'. IsTracked c'.1) (sym (feed_turn_over turn c over)) v
    | inr whole ↦
        subst (λ c'. IsTracked c'.1) (sym (feed_turn_live turn c whole))
          (live_turn-IsTracked turn c v)
  ]

  feed_turns-IsTracked :
      (turns : List (FeedTurn A)) (c : Closing A) → IsTracked c.1 → IsTracked (feed_turns turns c).1
  unfolding feed_turns
  feed_turns-IsTracked [] c v = v
  feed_turns-IsTracked (turn ∷ turns) c v =
      feed_turns-IsTracked turns (feed_turn turn c) (feed_turn-IsTracked turn c v)

  -- A subscription, new to its reader, that `Subscribe` or the constructor of a node's stream
  -- returned: in every
  -- interleaving of its `Close` with `serve`, the reader and the requests of others, the records that
  -- `serve` called its handler with are those that were read, then the one in the channel and the one
  -- that `serve` waits with, or at whose sending to the closed channel it panicked, each once and in
  -- their order.
  pub new_feed-IsAccounted :
      (closing : List CloseStep) (answers : Answers) (id : ℕ) (stream : Reader A)
      (turns : List (FeedTurn A))
      → member id stream.attached ≡ false
      → member id stream.subscriptions ≡ false
      → given_to id stream.handled ≡ []
      → (new_feed closing answers id (waiting stream)).1 ≡ none
      → IsAccounted (feed_turns turns (closing, (new_feed closing answers id (waiting stream)).0)).1
  unfolding new_feed
  new_feed-IsAccounted closing answers id stream turns fresh absent unread made =
      let (unique, handled) =
        requested-kept id (some id) answers (waiting stream)
          (absent-once id stream.subscriptions absent) in
      let (accepted, same) = answered-IsOpen _ closing answers _ made in
      (feed_turns-IsTracked turns (closing, (new_feed closing answers id (waiting stream)).0)
        (rw same
          (record { unique = unique; accounted = ap (given_to id) handled ∙ unread }))).accounted
