-- ===== src/Au10/Consuming.antt =====
-- au10/streamreader.go: how messages come from Kafka to `serve`. Sarama calls `ConsumeClaim` with
-- the messages of a claim; two goroutines that `start` makes watch what Sarama's consumer returns.
pub mod Claims
use au10_service.Prelude.{
  Bool, true, false, Option, none, some, List, [], ◌∷◌, ◌++◌, if◌then◌else◌, Outcome, ok, err,
  panic,
}
use au10_service.Au10.Publisher.{ConsumerMessage}
use au10_service.Au10.Log.{Journal, LogService}
use au10_service.Au10.Writer.{log_stream_topic}
use au10_service.Text.{Bytes, codes, bytes_eq}
use au10_service.Text.Errors.{Error, errorf, error_text}
use au10_service.Text.Format.{str, sprintf}
use au10_service.Au10.Log

-- What a claim has given to `serve`, and which messages it has marked as read.
pub record Claimed (A : Type 0) : Type 0 where
  pub forwarded : List A
  pub marked : List ConsumerMessage

unfoldable pub consume_claim :
    {A : Type 0}
    → (ConsumerMessage → Outcome Error A)
    → Bytes
    → List ConsumerMessage
    → Claimed A
    → Claimed A × Outcome Error (Unit {0})
consume_claim convert topic [] c = (c, ok tt)
consume_claim convert topic (m ∷ ms) c = elim (convert m) [
  | ok a ↦
      consume_claim convert topic ms
        (record { forwarded = c.forwarded ++ a ∷ []; marked = c.marked ++ m ∷ [] })
  | err e ↦ (
    c,
    err (
        errorf (codes "failed to convert message from stream \"%s\": \"%s\"")
          (str topic ∷ str (error_text e) ∷ [])),
  )
  | panic ↦ (c, panic)
]

-- Why `Consume`, or the context, ends.
pub data ConsumeError : Type 0 where
  closed_group canceled : ConsumeError
  other : Error → ConsumeError

-- What goes to the stream's error channel at the end of the loop.
unfoldable pub consume_end : Bytes → ConsumeError → Option Error
consume_end topic closed_group = none
consume_end topic canceled = none
consume_end topic (other e) = some (
    errorf (codes "failed to consume message from stream \"%s\": \"%s\"")
      (str topic ∷ str (error_text e) ∷ []))

-- The loop around `Consume`, over what it and `ctx.Err` return: either it still runs, or it has
-- ended and this went to the error channel.
unfoldable pub consume_loop :
    Bytes → List (Option ConsumeError × Option ConsumeError) → Option (Option Error)
consume_loop topic [] = none
consume_loop topic ((some e, cancelled) ∷ rounds) = some (consume_end topic e)
consume_loop topic ((none, some e) ∷ rounds) = some (consume_end topic e)
consume_loop topic ((none, none) ∷ rounds) = consume_loop topic rounds

-- The loop over the topics, which stops at the log's.
unfoldable pub is_log_reader : List Bytes → Bool
is_log_reader [] = false
is_log_reader (topic ∷ topics) =
    if bytes_eq topic log_stream_topic then true else is_log_reader topics

-- The goroutine over the consumer's errors. The message is the format of the log's record.
unfoldable pub reader_errors : List Bytes → Bytes → LogService → List Error → Journal → Journal
reader_errors topics topic log [] j = j
reader_errors topics topic log (e ∷ es) j =
    let line =
      sprintf (codes "Streams \"%s\" reading error: \"%s\".")
        (str topic ∷ str (error_text e) ∷ []) in
    reader_errors topics topic log es (
      if is_log_reader topics
      then record j { printed = j.printed ++ line ∷ [] }
      else Log.error log line [] j)
