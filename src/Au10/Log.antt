-- ===== src/Au10/Log.antt =====
-- au10/log.go, the service that writes: severities, `publish`, and the record read back from the
-- stream. The stream's `PushAsync` is a field: its answer is the stream writer's business.
pub mod Records
use au10_service.Prelude.{
  ℕ, Option, none, some, List, [], ◌∷◌, ◌++◌, ◌==◌, if◌then◌else◌, Outcome, panic,
}
use au10_service.Text.{Bytes, codes}
use au10_service.Text.Errors.{Error, error_text}
use au10_service.Text.Format.{Arg, str, sprintf}
use au10_service.Au10.Group.{Group, new_membership}

pub record LogRecordData : Type 0 where
  pub node : Bytes
  pub severity : ℕ  -- uint8
  pub message : Bytes

-- What the log does to the outside: lines of the standard logger, and records given to the stream.
pub record Journal : Type 0 where
  pub printed : List Bytes
  pub pushed : List LogRecordData

pub record LogService : Type 0 where
  pub node_name : Bytes
  pub membership : Group
  pub push_async : LogRecordData → Option Error

-- `NewLog`, once the stream is open.
unfoldable pub new_log : Bytes → (LogRecordData → Option Error) → LogService
new_log node_name push_async = record {
  node_name = node_name;
  membership = new_membership (codes "") (codes "");
  push_async = push_async;
}

unfoldable pub resolve_log_severity : ℕ → Bytes
resolve_log_severity severity =
    if severity == 0
    then codes "debug"
    else if severity == 1
    then codes "info"
    else if severity == 2
    then codes "warn"
    else if severity == 4
    then codes "fatal"
    else codes "error"

abbrev log_record : LogService → ℕ → Bytes → List Arg → LogRecordData
log_record log severity format args = record {
  node = log.node_name;
  severity = severity;
  message = sprintf format args;
}

unfoldable pub publish : LogService → ℕ → Bytes → List Arg → Journal → Journal
publish log severity format args j =
    let data_ = log_record log severity format args in
    let offered : Journal = record {
      printed = j.printed ++ (resolve_log_severity severity ++ 58 ∷ 9 ∷ data_.message) ∷ [];
      pushed = j.pushed ++ data_ ∷ [];
    } in
    elim (log.push_async data_) [
      | none ↦ offered
      | some e ↦ record offered {
        printed =
            offered.printed
            ++ (resolve_log_severity 3
                ++ 58
                  ∷ 9
                  ∷ sprintf (codes "Failed to store log-record: \"%s\".") (str (error_text e) ∷ []))
              ∷ [];
      }
    ]

abbrev pub error : LogService → Bytes → List Arg → Journal → Journal
error log = publish log 3

abbrev pub warn : LogService → Bytes → List Arg → Journal → Journal
warn log = publish log 2

abbrev pub info : LogService → Bytes → List Arg → Journal → Journal
info log = publish log 1

abbrev pub debug : LogService → Bytes → List Arg → Journal → Journal
debug log = publish log 0

-- `Fatal`, which panics after it has published.
unfoldable pub fatal : LogService → Bytes → List Arg → Journal → Journal × Outcome Error (Unit {0})
fatal log format args j = (publish log 4 format args j, panic)
