-- ===== src/Au10/Writer.antt =====
-- au10/streamwriter.go. The Kafka producer is Sarama's: what it does with a message, whether
-- closing it fails, and which of its two channels answers are arguments. What the writer hands to
-- `producer.Input()` is recorded. `json.Marshal` is an argument too.
pub mod Delivery
use au10_service.Prelude.{
  ℕ, Option, none, some, List, [], ◌∷◌, ◌++◌, if◌then◌else◌, Outcome, ok, err, panic, ◌>>=◌,
}
use au10_service.Text.{Bytes, codes, bytes_eq}
use au10_service.Text.Errors.{Error, text, errorf, error_text}
use au10_service.Text.Format.{str, sprintf}
use au10_service.Au10.Log.{LogService, Journal}
use au10_service.Au10.Log
use au10_service.Au10.Post.{Time, u32}

pub record ProducerMessage : Type 0 where
  pub topic : Bytes
  pub key : Bytes
  pub value : Bytes

-- The writer of one topic: its log, its topic and the key, which is the node's type.
pub record StreamWriter : Type 0 where
  pub log : LogService
  pub topic : Bytes
  pub key : Bytes

abbrev pub log_stream_topic : Bytes
log_stream_topic = codes "log"

-- `newStreamWriter`: the argument is what `NewSaramaProducer` returns.
unfoldable pub new_stream_writer :
    Bytes → LogService → Bytes → Outcome Error (Unit {0}) → Outcome Error StreamWriter
new_stream_writer topic log node_type opened = do
  _ ← opened
  ok (record { log = log; topic = topic; key = node_type })

-- A complaint of a stream: through the log, but for the log's own stream, which would call itself.
unfoldable pub complain : StreamWriter → Bytes → Error → Journal → Journal
complain stream format e j =
    let line = sprintf format (str stream.topic ∷ str (error_text e) ∷ []) in
    if bytes_eq stream.topic log_stream_topic
    then record j { printed = j.printed ++ line ∷ [] }
    else Log.error stream.log line [] j

-- The goroutine of `NewStreamAsyncWriter`, over the errors that come before the channel closes.
unfoldable pub report_errors : StreamWriter → List Error → Journal → Journal
report_errors stream [] j = j
report_errors stream (e ∷ es) j =
    report_errors stream es (complain stream (codes "Stream \"%s\" writing error: \"%s\".") e j)

-- `Close`: `failure` is what closing the producer returns.
unfoldable pub close : StreamWriter → Option Error → Journal → Journal
close stream none j = j
close stream (some e) j =
    complain stream (codes "Failed to close stream writing \"%s\": \"%s\".") e j

-- What the select of `Push` receives: from a closed channel, an error, or a stored message.
pub data Answer : Type 0 where
  errors_closed : Answer
  failed : Error → Answer
  successes_closed : Answer
  stored : (offset : ℕ) (timestamp : Time) → Answer

-- The result of `Push` on each case of its select.
unfoldable pub answer_of : Answer → Outcome Error (ℕ × Time)
answer_of errors_closed = err (text (codes "stream closed"))
answer_of (failed e) = err e
answer_of successes_closed = err (text (codes "stream closed"))
answer_of (stored offset timestamp) = ok (u32 offset, timestamp)

module _ {ℓ} {A : Type ℓ} (marshal : A → Outcome Error Bytes) where
  -- The message for the producer, or the error.
  unfoldable pub serialize : StreamWriter → A → Outcome Error ProducerMessage
  serialize stream source = elim (marshal source) [
    | ok value ↦ ok (record { topic = stream.topic; key = stream.key; value = value })
    | err e ↦ err (errorf (codes "failed to serialize: \"%s\"") (str (error_text e) ∷ []))
    | panic ↦ panic
  ]

  -- `PushAsync`: the messages handed to the producer so far come first.
  unfoldable pub push_async :
      StreamWriter → A → List ProducerMessage → List ProducerMessage × Outcome Error (Unit {0})
  push_async stream source input = elim (serialize stream source) [
    | ok m ↦ (input ++ m ∷ [], ok tt)
    | err e ↦ (input, err e)
    | panic ↦ (input, panic)
  ]

  -- `Push`: `answer` is what the producer says to this message.
  unfoldable pub push :
      StreamWriter
      → A
      → Answer
      → List ProducerMessage
      → List ProducerMessage × Outcome Error (ℕ × Time)
  push stream source answer input = elim (serialize stream source) [
    | ok m ↦ (input ++ m ∷ [], answer_of answer)
    | err e ↦ (input, err e)
    | panic ↦ (input, panic)
  ]
