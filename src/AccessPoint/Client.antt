-- ===== src/AccessPoint/Client.antt =====
-- accesspoint/lib/client.go: one request's client. The services behind it are a record: the log,
-- the memberships of the log reader and of the posts, the publisher, and the users, which are an
-- interface. What Kafka answers to a new post is an argument of `add_vocal`.
pub mod Errors
use au10_service.Prelude.{
  ℕ, ◌-◌, Bool, not, ◌&&◌, Option, none, some, List, [], ◌∷◌, ◌++◌, leb, ◌==◌, if◌then◌else◌,
  Outcome,
}
use au10_service.Text.{Bytes, codes}
use au10_service.Text.Errors.{Error}
use au10_service.Text.Format.{Arg, str, num, sprintf}
use au10_service.Au10.Group.{Group, is_allowed}
use au10_service.Au10.User.{User, block_by_protocol_mismatch}
use au10_service.Au10.Log
use au10_service.Au10.Log.{LogService}
use au10_service.Au10.Post.{PostDeclaration}
use au10_service.Au10.Codec.{Codec}
use au10_service.Au10.Publisher.{Publisher, PublisherMessageData}
use au10_service.AccessPoint.Status.{Status, invalid_argument, permission_denied, find_status}
use au10_service.AccessPoint.Action.{Action, ◌>>=◌, ◌>>◌, return, fail, write_log}

-- The part of au10.Users that the access point calls.
pub record Accounts : Type 0 where
  pub auth : Bytes → Outcome Error (Option (User × Bytes))
  pub find_session : Bytes → Outcome Error (Option User)

pub record Services : Type 0 where
  pub max_chunk_size : ℕ  -- uint32
  pub log : LogService
  pub log_reader_membership : Group
  pub posts_membership : Group
  pub publisher : Publisher
  pub users : Accounts
  pub default_user : User
  pub declaration_codec : Codec PostDeclaration
  pub chunk_codec : Codec PublisherMessageData

pub record Client : Type 0 where
  pub service : Services
  pub request_id : ℕ  -- uint32
  pub request : Bytes
  pub user : User

abbrev pub new_client : ℕ → Bytes → User → Services → Client
new_client request_id request user service = record {
  service = service;
  request_id = request_id;
  request = request;
  user = user;
}

unfoldable pub get_log_header : Client → Bytes → Bytes
get_log_header client format =
    sprintf (codes "[%s/%d/%d] ")
      (str client.request ∷ num client.request_id ∷ num client.user.id ∷ [])
    ++ format

unfoldable pub log_error : Client → Bytes → List Arg → Action (Unit {0})
log_error client format args =
    write_log (Log.error client.service.log (get_log_header client format) args)

unfoldable pub log_warn : Client → Bytes → List Arg → Action (Unit {0})
log_warn client format args =
    write_log (Log.warn client.service.log (get_log_header client format) args)

unfoldable pub log_info : Client → Bytes → List Arg → Action (Unit {0})
log_info client format args =
    write_log (Log.info client.service.log (get_log_header client format) args)

unfoldable pub log_debug : Client → Bytes → List Arg → Action (Unit {0})
log_debug client format args =
    write_log (Log.debug client.service.log (get_log_header client format) args)

-- `strings.ToUpper` of one ASCII byte.
unfoldable pub to_upper : ℕ → ℕ
to_upper c = if leb b'a' c && leb c b'z' then c - 32 else c

-- The description becomes a part of the format, so a percent sign in it is read as a verb.
unfoldable pub report_error : Client → ℕ → Bytes → Action (Unit {0})
report_error client code [] = log_error client (codes "RPC error %d.") (num code ∷ [])
report_error client code (d ∷ ds) =
    log_error client ((to_upper d ∷ ds) ++ codes " (RPC error %d).") (num code ∷ [])

unfoldable pub block_on : Client → ℕ → Action (Unit {0})
block_on client code =
    if code == invalid_argument
    then write_log (block_by_protocol_mismatch client.service.log client.user)
    else return tt

-- The description that the caller gets.
unfoldable pub external_desc : Client → ℕ → Bytes → Action Bytes
external_desc client code desc =
    if is_allowed client.service.log.membership client.user.rights
    then return desc
    else elim (find_status code) [
      | some word ↦ return word
      | none ↦ do
        log_error client (codes "Failed to find external description for status code %d.")
            (num code ∷ [])
        return (codes "unknown error")
    ]

-- What `RegisterError` does before it makes the status: the status's description.
unfoldable pub register_desc : Client → ℕ → Bytes → List Arg → Action Bytes
register_desc client code desc_format args = do
  report_error client code (sprintf desc_format args)
  block_on client code
  external_desc client code (sprintf desc_format args)

-- gRPC's `status.Error`, which has no error for the code OK.
abbrev pub status_error : ℕ → Bytes → Option Status
status_error code desc = if code == 0 then none else some (record { code = code; message = desc })

-- The error value that `RegisterError` returns.
unfoldable pub register_error : Client → ℕ → Bytes → List Arg → Action (Option Status)
register_error client code desc_format args = do
  desc ← register_desc client code desc_format args
  return (status_error code desc)

-- `return …, client.RegisterError(…)`, for a code other than OK, as in all its calls.
abbrev pub reject {ℓ} : {A : Type ℓ} → Client → ℕ → Bytes → List Arg → Action A
reject client code desc_format args = do
  desc ← register_desc client code desc_format args
  fail (record { code = code; message = desc })

unfoldable pub check_rights : Client → Group → Bytes → List Arg → Action (Unit {0})
check_rights client membership format args =
    if not (is_allowed membership client.user.rights)
    then reject client permission_denied (codes "permission denied for " ++ format) args
    else return tt

pub record AllowedMethods : Type 0 where
  pub read_log : Bool
  pub read_posts : Bool
  pub add_vocal : Bool

unfoldable pub get_allowed_methods : Client → AllowedMethods
get_allowed_methods client = record {
  read_log = is_allowed client.service.log.membership client.user.rights;
  read_posts = is_allowed client.service.posts_membership client.user.rights;
  add_vocal = is_allowed client.service.publisher.membership client.user.rights;
}
