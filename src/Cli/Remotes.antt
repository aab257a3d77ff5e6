-- ===== src/Cli/Remotes.antt =====
-- The command-line client's stubs over accesspoint/lib/service.go. gRPC turns a status, or the loss
-- of a server that panicked, into an error as `rpc_error` says; `streams` stands for the two calls
-- that deliver streams, and `answer` is what Kafka says to new posts.
use au10_service.Prelude.{Option, none, some, List, [], ◌∷◌, Outcome, ok, err, panic}
use au10_service.Au10.Writer.{Answer}
use au10_service.AccessPoint.Server.{AuthResponse, Server, auth}
use au10_service.Cli.{Remote}
use au10_service.AccessPoint.Client.{Services}
use au10_service.AccessPoint.Status.{Status}
use au10_service.AccessPoint.Methods.{serve_add_vocal, serve_write_message_chunk}
use au10_service.Text.{Bytes}
use au10_service.Text.Errors.{Error}

abbrev pub over_wire :
    {A : Type 0} → (Option Status → Error) → Server × Outcome Status A → Server × Outcome Error A
over_wire rpc_error (s, ok a) = (s, ok a)
over_wire rpc_error (s, err status) = (s, err (rpc_error (some status)))
over_wire rpc_error (s, panic) = (s, err (rpc_error none))

-- The header that `SendHeader` has sent.
abbrev header_of : Option Bytes → Option (List Bytes)
header_of none = none
header_of (some token) = some (token ∷ [])

abbrev with_header :
    Server × Outcome Error (Option Bytes × AuthResponse)
    → Server × Outcome Error (Option (List Bytes) × AuthResponse)
with_header (s, ok (token, response)) = (s, ok (header_of token, response))
with_header (s, err e) = (s, err e)
with_header (s, panic) = (s, panic)

abbrev pub access_point :
    Services → Answer → (Option Status → Error) → Remote Server → Remote Server
access_point service answer rpc_error streams = record streams {
  auth = λ values login s.
      with_header (over_wire rpc_error (auth service values login (λ token. none) s));
  add_vocal =
      λ values request s. over_wire rpc_error (serve_add_vocal service values request answer s);
  write_message_chunk =
      λ values request s. over_wire rpc_error (serve_write_message_chunk service values request s);
}
