-- ===== src/Au10/Feed/Order.antt =====
-- au10/posts.go: closing the stream's subscription first keeps `serve` from a closed channel.
use au10_service.Prelude.{
  ℕ, ◌≡◌, refl, sym, ap, subst, ◌⊎◌, inl, inr, true, false, some, List, [], ◌∷◌, arith, ◌==◌,
  if◌then◌else◌, Bool-cases, sym, subst, ap,
}
use au10_service.Au10.Reader.Sending.{reached-open}
use au10_service.Au10.Reader.{
  Answers, ServeTurn, waiting, returned, crashed, member, remove, add, serve_turn, subscribe,
  unsubscribe, start, stop, close,
}
use au10_service.Au10.Feed.Opening.{knows, IsOpen}
use au10_service.Au10.Feed.{
  Feed, CloseStep, posts_close, FeedTurn, arrives, takes, stops, another, closes, feed_turn,
  live_turn, feed_turns, arrive, take, close_step, close_records, close_stream, close_reader,
  close_errors, serves, is_served, requested, served, is_free, Closing, reader_close,
}

pub member-remove_self : (id : ℕ) (ids : List ℕ) → member id (remove id ids) ≡ false
unfolding member remove
member-remove_self id [] = refl
member-remove_self id (other ∷ ids) = ground (arith, member-remove_self id ids)

pub member-remove_other :
    (id other : ℕ) (ids : List ℕ)
    → (other == id) ≡ false
    → member id (remove other ids) ≡ member id ids
unfolding member remove
member-remove_other id other [] differ = refl
member-remove_other id other (next ∷ ids) differ =
    ground (arith, member-remove_other id other ids differ)

module _ {A : Type 0} where
  -- A turn before any panic, and behind one.
  pub feed_turn_live :
      (turn : FeedTurn A) (c : Closing A) → c.1.broken ≡ false → feed_turn turn c ≡ live_turn turn c
  unfolding feed_turn
  feed_turn_live turn c whole = ap (λ broken. if broken then c else live_turn turn c) whole

  pub feed_turn_over :
      (turn : FeedTurn A) (c : Closing A) → c.1.broken ≡ true → feed_turn turn c ≡ c
  unfolding feed_turn
  feed_turn_over turn c over = ap (λ broken. if broken then c else live_turn turn c) over

  requested_self :
      (id : ℕ) (answers : Answers) (turn : ServeTurn A)
      → knows id turn ≡ true
      → (serves id (requested (some id) answers turn) ≡ false)
        × (knows id (requested (some id) answers turn) ≡ true)
  unfolding serve_turn unsubscribe stop
  requested_self id answers (waiting stream) known =
      ground (arith, member-remove_self id stream.subscriptions)
  requested_self id answers (returned stream) known = (refl, refl)
  requested_self id answers (crashed stream) known = (refl, refl)

  requested_other :
      (id other : ℕ) (answers : Answers) (turn : ServeTurn A)
      → (other == id) ≡ false
      → knows id turn ≡ true
      → (serves id turn ≡ false → serves id (requested (some other) answers turn) ≡ false)
        × (knows id (requested (some other) answers turn) ≡ true)
  unfolding serve_turn subscribe unsubscribe start stop add member
  requested_other id other answers (waiting stream) differ known =
      ground (arith, member-remove_other id other stream.subscriptions differ)
  requested_other id other answers (returned stream) differ known = (λ same. refl, refl)
  requested_other id other answers (crashed stream) differ known = (λ same. refl, refl)

  reader_close_lem :
      (id : ℕ) (answers : Answers) (turn : ServeTurn A)
      → (serves id (reader_close answers turn) ≡ false)
        × (knows id (reader_close answers turn) ≡ true)
  unfolding reader_close serve_turn close stop
  reader_close_lem id answers (waiting stream) = ground arith
  reader_close_lem id answers (returned stream) = (refl, refl)
  reader_close_lem id answers (crashed stream) = (refl, refl)

  pub served-same :
      (id : ℕ) (m : A) (turn : ServeTurn A)
      → (serves id (served m [] turn) ≡ serves id turn)
        × (knows id (served m [] turn) ≡ knows id turn)
  unfolding serve_turn
  served-same id m (waiting stream) = ground (arith, reached-open stream.subscriptions)
  served-same id m (returned stream) = (refl, refl)
  served-same id m (crashed stream) = (refl, refl)

  -- Either `Close` has not begun, or `serve` hands this subscription nothing any more.
  record IsSafe (c : Closing A) : Type 0 where
    pub whole : c.1.broken ≡ false
    pub made : c.1.subscribed ≡ true
    pub known : knows c.1.id c.1.stream ≡ true
    pub ordered :
        ((c.0 ≡ posts_close) × (c.1.records_closed ≡ false))
        ⊎ ((is_free c.1.held ≡ true) × (is_served c.1 ≡ false))

  close_step-IsSafe :
      (step : CloseStep) (steps : List CloseStep) (answers : Answers) (f : Feed A)
      → is_free f.held ≡ true
      → IsSafe (step ∷ steps, f)
      → IsSafe (steps, close_step step answers f)
  unfolding close_step
  close_step-IsSafe close_records steps answers f free v = ground arith
  close_step-IsSafe close_stream steps answers f free v =
      ground (arith, requested_self f.id answers f.stream)
  close_step-IsSafe close_reader steps answers f free v =
      ground (arith, reader_close_lem f.id answers f.stream)
  close_step-IsSafe close_errors steps answers f free v = ground arith

  live_turn-IsSafe : (turn : FeedTurn A) (c : Closing A) → IsSafe c → IsSafe (live_turn turn c)
  unfolding arrive take
  live_turn-IsSafe (arrives m) (steps, f) v = ground (arith, served-same f.id m f.stream)
  live_turn-IsSafe takes (steps, f) v = ground arith
  live_turn-IsSafe stops (steps, f) v = ground arith
  live_turn-IsSafe (another id answers) (steps, f) v =
      ground (arith, requested_other f.id id answers f.stream)
  live_turn-IsSafe (closes answers) ([], f) v = ground arith
  live_turn-IsSafe (closes answers) (step ∷ steps, f) v = elim (Bool-cases (is_free f.held)) [
    | inl free ↦ let next = close_step-IsSafe step steps answers f free v in ground arith
    | inr waits ↦ ground arith
  ]

  feed_turn-IsSafe : (turn : FeedTurn A) (c : Closing A) → IsSafe c → IsSafe (feed_turn turn c)
  feed_turn-IsSafe turn c v =
      subst IsSafe (sym (feed_turn_live turn c v.whole)) (live_turn-IsSafe turn c v)

  feed_turns-IsSafe :
      (turns : List (FeedTurn A)) (c : Closing A) → IsSafe c → IsSafe (feed_turns turns c)
  unfolding feed_turns
  feed_turns-IsSafe [] c v = v
  feed_turns-IsSafe (turn ∷ turns) c v =
      feed_turns-IsSafe turns (feed_turn turn c) (feed_turn-IsSafe turn c v)

  -- An open subscription to the posts: in every interleaving of its `Close` with `serve`, the reader and the requests of other
  -- subscriptions, no record is sent to the closed channel.
  pub posts_close-whole :
      (turns : List (FeedTurn A)) (f : Feed A)
      → IsOpen f
      → (feed_turns turns (posts_close, f)).1.broken ≡ false
  posts_close-whole turns f v =
      (feed_turns-IsSafe turns (posts_close, f)
        (record {
          whole = v.whole;
          made = v.made;
          known = v.known;
          ordered = inl (refl, v.open_records);
        })).whole
