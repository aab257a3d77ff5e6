-- ===== src/AccessPoint/Server.antt =====
-- accesspoint/lib/service.go: the server. The counters that its methods share are a state; the
-- metadata of a call is the list of its "auth" values, if there is any.
pub mod Clients
pub mod Sessions
pub mod Identifiers
use au10_service.Prelude.{
  ℕ, ◌+◌, Bool, true, false, Option, none, some, List, [], ◌∷◌, Outcome, ok, err, panic,
}
use au10_service.AccessPoint.Client.{new_client}
use au10_service.Text.{Bytes, codes}
use au10_service.Text.Errors.{Error, error_text}
use au10_service.Text.Format.{str}
use au10_service.Au10.User.{User}
use au10_service.Au10.Users
use au10_service.Au10.Users.{Users}
use au10_service.Au10.Log
use au10_service.Au10.Post.{u32}
use au10_service.AccessPoint.Status.{Status, internal}
use au10_service.AccessPoint.Action.{World, Action, ◌>>=◌, return}
use au10_service.AccessPoint.Client.{
  Accounts, Services, Client, AllowedMethods, get_allowed_methods, reject,
}
use au10_service.AccessPoint.Requests

pub record SubscriptionInfo : Type 0 where
  pub number_of_subscribers : ℕ  -- uint32

-- The counters of the server, beside what its calls write.
pub record Server : Type 0 where
  pub world : World
  pub last_request_id : ℕ  -- uint32
  pub number_of_subscribers : ℕ  -- uint32
  pub log_subscriptions : SubscriptionInfo
  pub posts_subscriptions : SubscriptionInfo

-- `NewAu10Server` starts all counters at zero.
abbrev pub new_server : World → Server
new_server w = record {
  world = w;
  last_request_id = 0;
  number_of_subscribers = 0;
  log_subscriptions = record { number_of_subscribers = 0 };
  posts_subscriptions = record { number_of_subscribers = 0 };
}

-- `au10.Users` behind the access point's interface: it never fails.
abbrev pub accounts_of : Users → Accounts
accounts_of users = record {
  auth = λ login. ok (Users.auth users login);
  find_session = λ token. ok (Users.find_session users token);
}

-- `atomic.AddUint32(&n, 1)` and `atomic.AddUint32(&n, ^uint32(0))`.
abbrev pub increment : ℕ → ℕ
increment n = u32 (n + 1)

abbrev pub decrement : ℕ → ℕ
decrement n = u32 (n + 4294967295)

unfoldable pub register_subscriber : Server → Server × ℕ
register_subscriber s = (
  record s { number_of_subscribers = increment s.number_of_subscribers },
  increment s.number_of_subscribers,
)

unfoldable pub unregister_subscriber : Server → Server × ℕ
unregister_subscriber s = (
  record s { number_of_subscribers = decrement s.number_of_subscribers },
  decrement s.number_of_subscribers,
)

-- The user of a request: that of the session, if there is exactly one token and it has one.
unfoldable pub request_user : Services → Option (List Bytes) → Outcome Error User
request_user service (some (token ∷ [])) = elim (service.users.find_session token) [
  | ok (some user) ↦ ok user
  | ok none ↦ ok service.default_user
  | err e ↦ err e
  | panic ↦ panic
]
request_user service _ = ok service.default_user

unfoldable pub new_request_client :
    Services → Option (List Bytes) → Bytes → Server → Server × Outcome Status Client
new_request_client service auth_values request s = elim (request_user service auth_values) [
  | ok user ↦ (
    record s { last_request_id = increment s.last_request_id },
    ok (new_client (increment s.last_request_id) request user service),
  )
  | err e ↦ (
    record s {
      world = record (s.world) {
        journal =
            Log.error service.log (codes "Failed to find user session by token: \"%s\".")
              (str (error_text e) ∷ []) s.world.journal;
      };
    },
    err (record { code = internal; message = codes "server internal error" }),
  )
  | panic ↦ (s, panic)
]

-- What the client of a request does, once there is one.
unfoldable pub work {ℓ} :
    {A : Type ℓ} → (Client → Action A) → Server × Outcome Status Client → Server × Outcome Status A
work method (s, ok client) =
    (record s { world = (method client s.world).0 }, (method client s.world).1)
work method (s, err status) = (s, err status)
work method (s, panic) = (s, panic)

-- A method of the server: it makes the client of the request, and lets it work.
unfoldable pub with_client {ℓ} :
    {A : Type ℓ}
    → Services
    → Option (List Bytes)
    → Bytes
    → (Client → Action A)
    → Server
    → Server × Outcome Status A
with_client service auth_values request method s =
    work method (new_request_client service auth_values request s)

pub record AuthResponse : Type 0 where
  pub is_success : Bool
  pub allowed_methods : AllowedMethods

-- The part of `Auth` behind the client's: `header` is what `SendHeader` returns for the token. The
-- token that was sent stands beside the response.
unfoldable pub auth_response :
    (Bytes → Option Error) → Client × Option Bytes → Action (Option Bytes × AuthResponse)
auth_response header (client, none) =
    return (none, record { is_success = false; allowed_methods = get_allowed_methods client })
auth_response header (client, some token) = elim (header token) [
  | some e ↦
      reject client internal (codes "failed to set auth-metadata: \"%s\"") (str (error_text e) ∷ [])
  | none ↦
      return
        (some token, record { is_success = true; allowed_methods = get_allowed_methods client })
]

unfoldable pub auth_call :
    (Bytes → Option Error) → Bytes → Client → Action (Option Bytes × AuthResponse)
auth_call header login client = do authed ← Requests.auth client login; auth_response header authed

unfoldable pub auth :
    Services
    → Option (List Bytes)
    → Bytes
    → (Bytes → Option Error)
    → Server
    → Server × Outcome Status (Option Bytes × AuthResponse)
auth service auth_values login header =
    with_client service auth_values (codes "Auth") (auth_call header login)
