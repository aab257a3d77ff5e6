-- ===== src/Au10/Log/Records.antt =====
-- au10/log.go.
-- What one call of the log leaves behind.
use au10_service.Prelude.{ℕ, ◌+◌, ◌≡◌, List, [], ◌∷◌, ◌++◌, arith, length, length-append}
use au10_service.Text.{Bytes}
use au10_service.Text.Format.{Arg, sprintf}
use au10_service.Au10.Log.{LogService, Journal, publish}

-- A call of the log gives the stream one record, whatever the stream answers, and keeps those
-- before it.
pub pushed-publish :
    (log : LogService) (severity : ℕ) (format : Bytes) (args : List Arg) (j : Journal)
    → (publish log severity format args j).pushed
      ≡ j.pushed
        ++ record { node = log.node_name; severity = severity; message = sprintf format args } ∷ []
unfolding publish
pushed-publish log severity format args j = ground arith

pub length-pushed-publish :
    (log : LogService) (severity : ℕ) (format : Bytes) (args : List Arg) (j : Journal)
    → length (publish log severity format args j).pushed ≡ length j.pushed + 1
length-pushed-publish log severity format args j =
    rw (pushed-publish log severity format args j) (length-append j.pushed (_ ∷ []))
