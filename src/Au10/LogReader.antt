-- ===== src/Au10/LogReader.antt =====
-- au10/log.go, the side that reads: a record of the log as Kafka delivers it.
use au10_service.Prelude.{ℕ, [], ◌∷◌, Outcome, ok, err, panic}
use au10_service.Text.{Bytes, codes}
use au10_service.Text.Errors.{Error, errorf, error_text}
use au10_service.Text.Format.{str}
use au10_service.Au10.Log.{LogRecordData, resolve_log_severity}
use au10_service.Au10.Post.{Time}
use au10_service.Au10.Codec.{Codec}
use au10_service.Au10.Publisher.{ConsumerMessage}

-- `logRecord`: the delivered message, and what its value holds.
pub record LogRecord : Type 0 where
  pub message : ConsumerMessage
  pub content : LogRecordData

unfoldable pub get_sequence_number : LogRecord → ℕ
get_sequence_number source = source.message.offset

unfoldable pub get_time : LogRecord → Time
get_time source = source.message.timestamp

unfoldable pub get_text : LogRecord → Bytes
get_text source = source.content.message

unfoldable pub get_severity : LogRecord → Bytes
get_severity source = resolve_log_severity source.content.severity

unfoldable pub get_node_type : LogRecord → Bytes
get_node_type source = source.message.key

unfoldable pub get_node_name : LogRecord → Bytes
get_node_name source = source.content.node

-- `ConvertSaramaMessageIntoLogRecord`.
unfoldable pub convert_log_record : Codec LogRecordData → ConsumerMessage → Outcome Error LogRecord
convert_log_record codec source = elim (codec.unmarshal source.value) [
  | err e ↦ err (errorf (codes "failed to parse log-record: \"%s\"") (str (error_text e) ∷ []))
  | panic ↦ panic
  | ok content ↦ ok (record { message = source; content = content })
]
