-- ===== src/AccessPoint/Convertor/Log.antt =====
-- accesspoint/lib/convertor.go, `LogRecordToProto`. Numbers of the protocol's record are those that
-- the log record gives.
use au10_service.Prelude.{ℕ}
use au10_service.Text.{Bytes}
use au10_service.Au10.Post.{Time}
use au10_service.Au10.LogReader.{
  LogRecord, get_sequence_number, get_time, get_text, get_severity, get_node_type, get_node_name,
}

pub record ProtoLogRecord : Type 0 where
  pub seq_num : ℕ  -- int64
  pub time : Time
  pub message : Bytes
  pub severity : Bytes
  pub node_type : Bytes
  pub node_name : Bytes

unfoldable pub log_record_to_proto : LogRecord → ProtoLogRecord
unfolding get_sequence_number get_time get_text get_severity get_node_type get_node_name
log_record_to_proto source = record {
  seq_num = get_sequence_number source;
  time = get_time source;
  message = get_text source;
  severity = get_severity source;
  node_type = get_node_type source;
  node_name = get_node_name source;
}
