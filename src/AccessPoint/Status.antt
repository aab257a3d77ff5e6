-- ===== src/AccessPoint/Status.antt =====
-- The status of a failed call, and the table `starusByCode` of accesspoint/lib/client.go. The
-- numbers are those of google.golang.org/grpc/codes.
use au10_service.Prelude.{ℕ, Option, List, [], ◌∷◌, ◌==◌, lookup}
use au10_service.Text.{Bytes, codes}

pub record Status : Type 0 where
  pub code : ℕ  -- uint32
  pub message : Bytes

abbrev pub invalid_argument : ℕ
invalid_argument = 3

abbrev pub permission_denied : ℕ
permission_denied = 7

abbrev pub internal : ℕ
internal = 13

abbrev pub status_by_code : List (ℕ × Bytes)
status_by_code =
    (0, codes "OK")
    ∷ (1, codes "CANCELLED")
    ∷ (2, codes "UNKNOWN")
    ∷ (3, codes "INVALID_ARGUMENT")
    ∷ (4, codes "DEADLINE_EXCEEDED")
    ∷ (5, codes "NOT_FOUND")
    ∷ (6, codes "ALREADY_EXISTS")
    ∷ (7, codes "PERMISSION_DENIED")
    ∷ (8, codes "RESOURCE_EXHAUSTED")
    ∷ (9, codes "FAILED_PRECONDITION")
    ∷ (10, codes "ABORTED")
    ∷ (11, codes "OUT_OF_RANGE")
    ∷ (12, codes "UNIMPLEMENTED")
    ∷ (13, codes "INTERNAL")
    ∷ (14, codes "UNAVAILABLE")
    ∷ (15, codes "DATA_LOSS")
    ∷ (16, codes "UNAUTHENTICATED")
    ∷ []

unfoldable pub find_status : ℕ → Option Bytes
find_status code = lookup ◌==◌ code status_by_code
