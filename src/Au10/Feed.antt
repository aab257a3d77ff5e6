-- ===== src/Au10/Feed.antt =====
-- au10/log.go, posts.go and publisher.go: a subscription to a stream's records (`Subscribe` of the
-- log reader and of the posts, and the two stream singletons of the publishing node), and its
-- `Close`, which runs beside the goroutine of the stream reader. Records go through a channel with
-- room for one; errors of the stream, which go through another, are left out here.
pub mod Opening
pub mod Closing
pub mod Order
pub mod Given
pub mod Delivery
pub mod Streams
use au10_service.Prelude.{
  ℕ, Bool, true, false, not, ◌&&◌, ◌||◌, Option, none, some, List, [], ◌∷◌, ◌++◌, ◌==◌,
  if◌then◌else◌, length,
}
use au10_service.Text.{codes}
use au10_service.Text.Errors.{Error}
use au10_service.Text.Format.{str, num}
use au10_service.Au10.Log
use au10_service.Au10.Reader.{
  Answers, request, message, ServeTurn, waiting, returned, crashed, member, serve_turn,
  last_response,
}

-- `id` stands for the pointer of the stream's subscription. `records` is the channel's buffer and
-- `held` the record that `serve` waits to put there, or over whose sending it panicked; `receiving` is
-- whether someone still reads the
-- channel, and `received` what was read. `broken` is a panic: a record was sent to, or waited for, a
-- channel that is closed.
pub record Feed (A : Type 0) : Type 0 where
  pub id : ℕ
  pub stream : ServeTurn A
  pub subscribed : Bool
  pub records : Option A
  pub held : Option A
  pub records_closed : Bool
  pub errors_closed : Bool
  pub receiving : Bool
  pub received : List A
  pub broken : Bool

-- The steps of a `Close`.
pub data CloseStep : Type 0 where
  close_records close_stream close_reader close_errors : CloseStep

-- `logSubscription.Close`.
abbrev pub log_close : List CloseStep
log_close = close_records ∷ close_stream ∷ close_errors ∷ []

-- `postsSubscription.Close`.
abbrev pub posts_close : List CloseStep
posts_close = close_stream ∷ close_records ∷ close_errors ∷ []

-- `Close` of both stream singletons.
abbrev pub singleton_close : List CloseStep
singleton_close = close_records ∷ close_stream ∷ close_reader ∷ close_errors ∷ []

abbrev pub is_free {ℓ} : {A : Type ℓ} → Option A → Bool
is_free none = true
is_free (some a) = false

-- Whether the goroutine that closes has to wait for `serve` at this step.
abbrev pub is_request : CloseStep → Bool
is_request close_stream = true
is_request close_reader = true
is_request close_records = false
is_request close_errors = false

module _ {A : Type 0} where
  -- A request to a stream whose `serve` still runs.
  abbrev pub requested : Option ℕ → Answers → ServeTurn A → ServeTurn A
  requested id answers (waiting stream) = serve_turn (request id answers) stream
  requested id answers (returned stream) = returned stream
  requested id answers (crashed stream) = crashed stream

  -- `Close` of the stream reader, after its request.
  abbrev closed_reader : ServeTurn A → ServeTurn A
  closed_reader (returned stream) = returned (elim stream.subscriptions [
    | [] ↦ stream
    | id ∷ ids ↦ record stream {
      journal =
          Log.error stream.log (codes "Not all (%d) subscribes of stream reading \"%s\" closed.")
            (num (length stream.subscriptions) ∷ str stream.topic ∷ []) stream.journal;
    }
  ])
  closed_reader (waiting stream) = waiting stream
  closed_reader (crashed stream) = crashed stream

  unfoldable pub reader_close : Answers → ServeTurn A → ServeTurn A
  reader_close answers stream = closed_reader (requested none answers stream)

  -- One step of a `Close`. While `serve` waits to hand over a record, it takes no request; if the
  -- channel is closed meanwhile, it panics.
  unfoldable pub close_step : CloseStep → Answers → Feed A → Feed A
  close_step close_records answers f = record f {
    records_closed = true;
    broken = f.broken || not (is_free f.held);
  }
  close_step close_stream answers f =
      if f.subscribed then record f { stream = requested (some f.id) answers f.stream } else f
  close_step close_reader answers f = record f { stream = reader_close answers f.stream }
  close_step close_errors answers f = record f { errors_closed = true }

  abbrev close_all : List CloseStep → Answers → Feed A → Feed A
  close_all [] answers f = f
  close_all (step ∷ steps) answers f = close_all steps answers (close_step step answers f)

  abbrev pub answered : Option Error → List CloseStep → Answers → Feed A → Feed A × Option Error
  answered none closing answers f = (record f { subscribed = true }, none)
  answered (some e) closing answers f = (close_all closing answers f, some e)

  abbrev pub response_of : ServeTurn A → Option Error
  response_of (waiting stream) = last_response stream.responses
  response_of (returned stream) = last_response stream.responses
  response_of (crashed stream) = last_response stream.responses

  -- `Subscribe`, or the constructor of a singleton: a failed one closes what it has made.
  unfoldable pub new_feed : List CloseStep → Answers → ℕ → ServeTurn A → Feed A × Option Error
  new_feed closing answers id stream =
      let made : Feed A = record {
        id = id;
        stream = requested (some id) answers stream;
        subscribed = false;
        records = none;
        held = none;
        records_closed = false;
        errors_closed = false;
        receiving = true;
        received = [];
        broken = false;
      } in
      answered (response_of made.stream) closing answers made

-- The steps of `Close` that are left, with the feed.
abbrev pub Closing : Type 0 → Type 0
Closing A = List CloseStep × Feed A

-- What may happen next: a message of the stream comes to `serve`, the reader of the channel takes a
-- record or stops reading, another subscription asks for something, or `Close` goes on.
pub data FeedTurn (A : Type 0) : Type 0 where
  arrives : A → FeedTurn A
  takes stops : FeedTurn A
  another : ℕ → Answers → FeedTurn A
  closes : Answers → FeedTurn A

module _ {A : Type 0} where
  -- Whether `serve` hands records to a subscription.
  abbrev pub serves : ℕ → ServeTurn A → Bool
  serves id (waiting stream) = member id stream.subscriptions
  serves id (returned stream) = false
  serves id (crashed stream) = false

  abbrev pub is_served : Feed A → Bool
  is_served f = serves f.id f.stream

  -- `serve` takes a record while the channels of the subscriptions `shut` are closed.
  abbrev pub served : A → List ℕ → ServeTurn A → ServeTurn A
  served m shut (waiting stream) = serve_turn (message m shut) stream
  served m shut (returned stream) = returned stream
  served m shut (crashed stream) = crashed stream

  -- `recordsChan <- record`: it waits while the buffer is full.
  abbrev pub put : A → Option A → Feed A → Feed A
  put m none f = record f { records = some m }
  put m (some full) f = record f { held = some m }

  -- `serve` hands a message over, if it does not wait yet. The handler sends to the channel: if that is
  -- closed, the call panics with the record in hand.
  unfoldable pub arrive : A → Feed A → Feed A
  arrive m f =
      if not (is_free f.held)
      then f
      else if not (is_served f)
      then record f { stream = served m [] f.stream }
      else if f.records_closed
      then record f { broken = true; held = some m; stream = served m (f.id ∷ []) f.stream }
      else put m f.records (record f { stream = served m [] f.stream })

  abbrev pub taken_from : Option A → Feed A → Feed A
  taken_from none f = f
  taken_from (some m) f = record f {
    records = f.held;
    held = none;
    received = f.received ++ m ∷ [];
  }

  unfoldable pub take : Feed A → Feed A
  take f = if f.receiving then taken_from f.records f else f

  abbrev pub next_step : Answers → List CloseStep → Feed A → Closing A
  next_step answers [] f = ([], f)
  next_step answers (step ∷ steps) f =
      if is_request step && not (is_free f.held)
      then (step ∷ steps, f)
      else (steps, close_step step answers f)

  abbrev pub live_turn : FeedTurn A → Closing A → Closing A
  live_turn (arrives m) (steps, f) = (steps, arrive m f)
  live_turn takes (steps, f) = (steps, take f)
  live_turn stops (steps, f) = (steps, record f { receiving = false })
  live_turn (another id answers) (steps, f) =
      if id == f.id || not (is_free f.held)
      then (steps, f)
      else (steps, record f { stream = requested (some id) answers f.stream })
  live_turn (closes answers) (steps, f) = next_step answers steps f

  -- A panic ends the process: nothing happens behind it.
  unfoldable pub feed_turn : FeedTurn A → Closing A → Closing A
  feed_turn turn (steps, f) = if f.broken then (steps, f) else live_turn turn (steps, f)

  unfoldable pub feed_turns : List (FeedTurn A) → Closing A → Closing A
  feed_turns [] c = c
  feed_turns (next ∷ rest) c = feed_turns rest (feed_turn next c)
