-- ===== src/Au10/Reader.antt =====
-- au10/streamreader.go: the goroutine `serve` that owns the subscriptions of a stream, as a
-- function on what it receives. A subscription is a number, which stands for its pointer; what
-- opening and closing Sarama's consumer return comes with each request.
pub mod Sending
pub mod Balance
pub mod Subscribing
use au10_service.Prelude.{
  ℕ, Bool, true, false, Option, none, some, List, [], ◌∷◌, ◌++◌, map, ◌==◌, if◌then◌else◌,
}
use au10_service.Text.{Bytes, codes}
use au10_service.Text.Errors.{Error, errorf, error_text}
use au10_service.Text.Format.{str}
use au10_service.Au10.Log.{LogService, Journal}
use au10_service.Au10.Log

-- What Sarama answers if the request opens or closes the consumer.
pub record Answers : Type 0 where
  pub opening : Option Error
  pub closing : Option Error

-- What the select receives. A request without a subscription closes the stream. The list beside a
-- record or an error names the subscriptions whose channel for it is closed meanwhile: to send there
-- is a panic, of the handler for a record.
pub data ReaderEvent (A : Type 0) : Type 0 where
  request : Option ℕ → Answers → ReaderEvent A
  message : A → List ℕ → ReaderEvent A
  failure : Option Error → List ℕ → ReaderEvent A

-- `running` is whether the field `consumer` is set, `attached` are the subscriptions whose field
-- `stream` is set; then the calls of the handlers, the errors that subscriptions were given, and what
-- the requests were answered.
pub record Reader (A : Type 0) : Type 0 where
  pub topic : Bytes
  pub log : LogService
  pub running : Bool
  pub subscriptions : List ℕ
  pub attached : List ℕ
  pub handled : List (ℕ × A)
  pub failures : List (ℕ × Option Error)
  pub responses : List (Option Error)
  pub journal : Journal

pub data ServeTurn (A : Type 0) : Type 0 where
  waiting returned crashed : Reader A → ServeTurn A

unfoldable pub member : ℕ → List ℕ → Bool
member id [] = false
member id (other ∷ ids) = if id == other then true else member id ids

-- `delete` and the assignment of a map.
unfoldable pub remove : ℕ → List ℕ → List ℕ
remove id [] = []
remove id (other ∷ ids) = if id == other then remove id ids else other ∷ remove id ids

unfoldable pub add : ℕ → List ℕ → List ℕ
add id ids = id ∷ remove id ids

abbrev pub is_empty : List ℕ → Bool
is_empty [] = true
is_empty (id ∷ ids) = false

-- Who is reached when a value is handed to each subscription, up to the first closed channel: `range`
-- visits them in the order of the list.
unfoldable pub reached : List ℕ → List ℕ → List ℕ
reached shut [] = []
reached shut (id ∷ ids) = id ∷ (if member id shut then [] else reached shut ids)

-- The subscriptions whose channel was open, up to the first that was not.
unfoldable pub delivered_to : List ℕ → List ℕ → List ℕ
delivered_to shut [] = []
delivered_to shut (id ∷ ids) = if member id shut then [] else id ∷ delivered_to shut ids

unfoldable pub any_shut : List ℕ → List ℕ → Bool
any_shut shut [] = false
any_shut shut (id ∷ ids) = if member id shut then true else any_shut shut ids

-- What `stop` logs.
abbrev closing_line : LogService → Bytes → Option Error → Journal → Journal
closing_line log topic none = Log.debug log (codes "Stream reading \"%s\" closed.") (str topic ∷ [])
closing_line log topic (some e) =
    Log.error log (codes "Failed to close stream reading \"%s\": \"%s\".")
      (str topic ∷ str (error_text e) ∷ [])

-- The response to the last request.
abbrev pub last_response : List (Option Error) → Option Error
last_response [] = none
last_response (response ∷ []) = response
last_response (response ∷ next ∷ rest) = last_response (next ∷ rest)

module _ {A : Type 0} where
  -- The response to a request.
  abbrev pub respond : Option Error → Reader A → Reader A
  respond response stream = record stream { responses = stream.responses ++ response ∷ [] }

  -- `start`.
  unfoldable pub start : Option Error → Reader A → Reader A × Option Error
  start none stream = (
    record stream {
      running = true;
      journal =
          Log.debug stream.log (codes "Stream reading \"%s\" opened.") (str stream.topic ∷ [])
            stream.journal;
    },
    none,
  )
  start (some e) stream = (
    stream,
    some (
        errorf (codes "failed to open stream reading \"%s\": \"%s\"")
          (str stream.topic ∷ str (error_text e) ∷ [])),
  )

  -- `stop`; without a consumer its `Close` is a call on a nil interface.
  unfoldable pub stop : Option Error → Reader A → ServeTurn A
  stop closing stream =
      if stream.running
      then waiting (record stream {
        running = false;
        journal = closing_line stream.log stream.topic closing stream.journal;
      })
      else crashed stream

  abbrev enter : ℕ → Reader A × Option Error → Reader A × Option Error
  enter id (stream, none) = (record stream { subscriptions = add id stream.subscriptions }, none)
  enter id (stream, some e) = (
    stream,
    some (
        errorf (codes "failed to start steam reading \"%s\" to subscribe: \"%s\"")
          (str stream.topic ∷ str (error_text e) ∷ [])),
  )

  -- `subscribe`.
  unfoldable pub subscribe : ℕ → Answers → Reader A → Reader A × Option Error
  subscribe id answers stream =
      if stream.running then enter id (stream, none) else enter id (start answers.opening stream)

  -- `unsubscribe`.
  unfoldable pub unsubscribe : ℕ → Answers → Reader A → ServeTurn A
  unsubscribe id answers stream =
      let left = record stream { subscriptions = remove id stream.subscriptions } in
      if is_empty left.subscriptions then stop answers.closing left else waiting left

  abbrev subscribed : ℕ → Reader A × Option Error → ServeTurn A
  subscribed id (stream, none) =
      waiting (respond none (record stream { attached = id ∷ stream.attached }))
  subscribed id (stream, some e) = waiting (respond (some e) stream)

  abbrev acknowledge : ServeTurn A → ServeTurn A
  acknowledge (waiting stream) = waiting (respond none stream)
  acknowledge (returned stream) = returned stream
  acknowledge (crashed stream) = crashed stream

  abbrev leave : ServeTurn A → ServeTurn A
  leave (waiting stream) = returned (respond none stream)
  leave (returned stream) = returned stream
  leave (crashed stream) = crashed stream

  -- `close`.
  unfoldable pub close : Answers → Reader A → ServeTurn A
  close answers stream = if stream.running then stop answers.closing stream else waiting stream

  -- The end of a turn that sent to each of these subscriptions.
  abbrev pub after_sending : List ℕ → List ℕ → Reader A → ServeTurn A
  after_sending shut ids stream = if any_shut shut ids then crashed stream else waiting stream

  -- One turn of `serve`.
  unfoldable pub serve_turn : ReaderEvent A → Reader A → ServeTurn A
  serve_turn (request none answers) stream = leave (close answers stream)
  serve_turn (request (some id) answers) stream =
      if member id stream.attached
      then acknowledge (unsubscribe id answers stream)
      else subscribed id (subscribe id answers stream)
  serve_turn (message m shut) stream = after_sending shut stream.subscriptions (record stream {
    handled = stream.handled ++ map (λ id. (id, m)) (reached shut stream.subscriptions);
  })
  serve_turn (failure e shut) stream = after_sending shut stream.subscriptions (record stream {
    failures = stream.failures ++ map (λ id. (id, e)) (delivered_to shut stream.subscriptions);
  })

  abbrev serve_on : ServeTurn A → (Reader A → ServeTurn A) → ServeTurn A
  serve_on (waiting stream) loop = loop stream
  serve_on (returned stream) loop = returned stream
  serve_on (crashed stream) loop = crashed stream

  -- `serve`, over the events that come.
  unfoldable pub serve : List (ReaderEvent A) → Reader A → ServeTurn A
  serve [] stream = waiting stream
  serve (event ∷ events) stream = serve_on (serve_turn event stream) (serve events)
