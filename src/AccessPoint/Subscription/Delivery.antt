-- ===== src/AccessPoint/Subscription/Delivery.antt =====
-- au10/log.go to accesspoint/lib/clientsubscription.go: from a call of the log through Kafka to the
-- reader of the log.
use au10_service.Prelude.{
  ℕ, ◌<◌, ◌≡◌, inl, inr, true, Option, List, [], ◌∷◌, ◌++◌, arith, ok, Outcome-cases,
}
use au10_service.Text.{Bytes}
use au10_service.Text.Errors.{Error}
use au10_service.Text.Format.{Arg, sprintf}
use au10_service.Au10.Log.{LogService, LogRecordData, Journal, publish, resolve_log_severity}
use au10_service.Au10.Log.Records.{pushed-publish}
use au10_service.Au10.Post.{Time}
use au10_service.Au10.Codec.{Codec, IsFaithfulOn}
use au10_service.Text.Utf8.{is_utf8}
use au10_service.Au10.Writer.{StreamWriter, ProducerMessage, serialize}
use au10_service.Au10.Publisher.Delivery.{delivered}
use au10_service.Au10.LogReader.{LogRecord, convert_log_record}
use au10_service.AccessPoint.Convertor.Log.{ProtoLogRecord, log_record_to_proto}
use au10_service.AccessPoint.Subscription.{taken, log_send_next}

-- What `publish` gives to the stream.
abbrev pub published : LogService → ℕ → Bytes → List Arg → LogRecordData
published log severity format args = record {
  node = log.node_name;
  severity = severity;
  message = sprintf format args;
}

-- What the reader of the log is sent for it.
abbrev pub seen : LogService → Bytes → ℕ → Bytes → List Arg → ℕ → Time → ProtoLogRecord
seen log node_type severity format args offset time = record {
  seq_num = offset;
  time = time;
  message = sprintf format args;
  severity = resolve_log_severity severity;
  node_type = node_type;
  node_name = log.node_name;
}

-- What JSON renders of a record without loss: a byte for the severity, and texts in UTF-8.
abbrev pub IsRendered : LogRecordData → Type 0
IsRendered r = (r.severity < 256) × (is_utf8 r.node ≡ true) × (is_utf8 r.message ≡ true)

-- A call of the log gives its stream one record. If its severity is a byte and its texts are valid
-- UTF-8, and the record is serialized by a codec that reads back what it wrote of such records, then
-- the message that
-- the producer gets, delivered with an offset and a time, is converted to a record from which the
-- reader is sent the formatted text, the word of the severity, the node's type and name, and this
-- offset and time.
pub publish-delivered :
    (codec : Codec LogRecordData) (stream : StreamWriter) (log : LogService) (severity : ℕ)
    (format : Bytes) (args : List Arg) (j : Journal) (m : ProducerMessage) (offset : ℕ)
    (time : Time) (send : ProtoLogRecord → Option Error) (sent : List ProtoLogRecord)
    → IsFaithfulOn IsRendered codec
    → IsRendered (published log severity format args)
    → serialize codec.marshal stream (published log severity format args) ≡ ok m
    → ((publish log severity format args j).pushed
        ≡ j.pushed ++ published log severity format args ∷ [])
      × ((source : LogRecord) × (convert_log_record codec (delivered m offset time) ≡ ok source)
          × ((log_send_next send (taken source) sent).0
              ≡ sent ++ seen log stream.key severity format args offset time ∷ []))
unfolding serialize convert_log_record log_send_next log_record_to_proto
publish-delivered codec stream log severity format args j m offset time send sent faithful rendered
      written =
    let content = published log severity format args in
    (
      pushed-publish log severity format args j,
      elim (Outcome-cases (codec.marshal content)) [
        | inl (value, e) ↦ (
          record { message = delivered m offset time; content = content },
          ground (arith, faithful content value rendered e),
          ground arith,
        )
        | inr (inl (f, e)) ↦ absurd (ground arith)
        | inr (inr e) ↦ absurd (ground arith)
      ],
    )
