-- ===== src/AccessPoint/Methods/Denied.antt =====
-- accesspoint/lib/service.go: what a caller without rights gets.
use au10_service.Prelude.{
  ℕ, ◌≡◌, refl, ◌≢◌, inl, inr, false, Option, List, [], arith, Outcome, ok, err, Outcome-cases,
}
use au10_service.Text.{Bytes, codes}
use au10_service.Text.Errors.{Error}
use au10_service.Au10.User.{User}
use au10_service.Au10.Group.{is_allowed}
use au10_service.AccessPoint.Status.{Status, permission_denied}
use au10_service.AccessPoint.Action.{World, Action}
use au10_service.AccessPoint.Client.{Services, Client, check_rights}
use au10_service.AccessPoint.Client.Errors.{Refuses, check_rights-denies, >>=-Refuses}
use au10_service.AccessPoint.Server.{
  Server, request_user, new_request_client, with_client, work, increment,
}
use au10_service.AccessPoint.Subscription.{
  read_log, read_posts, open_subscription, log_kind, posts_kind,
}
use au10_service.AccessPoint.Methods.{serve_read_log, serve_read_posts}

-- The request fails with this code; it has used up a request's identifier, and has neither given
-- the publisher anything nor touched a counter of subscribers.
pub record IsTurnedAway {ℓ} {A : Type ℓ} (s : Server) (r : Server × Outcome Status A) (code : ℕ)
    : Type ℓ where
  pub status : Status
  pub failed : r.1 ≡ err status
  pub coded : status.code ≡ code
  pub numbered : r.0.last_request_id ≡ increment s.last_request_id
  pub unpublished : r.0.world.inputs ≡ s.world.inputs
  pub uncounted : r.0.number_of_subscribers ≡ s.number_of_subscribers

-- The client of a request.
abbrev pub client_of : Services → Bytes → User → Server → Client
client_of service request user s = record {
  service = service;
  request_id = increment s.last_request_id;
  request = request;
  user = user;
}

new_request_client-known :
    (service : Services) (auth_values : Option (List Bytes)) (request : Bytes) (s : Server)
    (user : User)
    → request_user service auth_values ≡ ok user
    → new_request_client service auth_values request s ≡ (
      record s { last_request_id = increment s.last_request_id },
      ok (client_of service request user s),
    )
unfolding new_request_client
new_request_client-known service auth_values request s user known =
    rw (new_request_client, known) refl

-- Without a user there is no client, and the publisher is given nothing.
pub unknown_user {ℓ} :
    {A : Type ℓ} (service : Services) (auth_values : Option (List Bytes)) (request : Bytes)
    (method : Client → Action A) (s : Server) (a : A)
    → ((user : User) → request_user service auth_values ≢ ok user)
    → ((with_client service auth_values request method s).1 ≢ ok a)
      × ((with_client service auth_values request method s).0.world.inputs ≡ s.world.inputs)
unfolding with_client new_request_client work
unknown_user service auth_values request method s a unknown =
    elim (Outcome-cases (request_user service auth_values)) [
      | inl (user, known) ↦ absurd (unknown user known)
      | inr (inl (e, fails)) ↦
          rw (with_client, new_request_client, fails) ((λ same. ground arith), refl)
      | inr (inr panics) ↦
          rw (with_client, new_request_client, panics) ((λ same. ground arith), refl)
    ]

work-IsTurnedAway {ℓ} :
    {A : Type ℓ} (service : Services) (request : Bytes) (method : Client → Action A) (s : Server)
    (user : User) (code : ℕ)
    → Refuses (method (client_of service request user s)) s.world code
    → IsTurnedAway s
        (work method (
          record s { last_request_id = increment s.last_request_id },
          ok (client_of service request user s),
        ))
        code
unfolding work
work-IsTurnedAway service request method s user code (status, failed, coded, unpublished) = record {
  status = status;
  failed = failed;
  coded = coded;
  numbered = refl;
  unpublished = unpublished;
  uncounted = refl;
}

pub with_client-IsTurnedAway {ℓ} :
    {A : Type ℓ} (service : Services) (auth_values : Option (List Bytes)) (request : Bytes)
    (method : Client → Action A) (s : Server) (user : User) (code : ℕ)
    → request_user service auth_values ≡ ok user
    → Refuses (method (client_of service request user s)) s.world code
    → IsTurnedAway s (with_client service auth_values request method s) code
unfolding with_client
with_client-IsTurnedAway service auth_values request method s user code known refuses =
    rw (with_client, new_request_client-known service auth_values request s user known)
      (work-IsTurnedAway service request method s user code refuses)

read_log-Refuses :
    (client : Client) (refusal : Option Error) (w : World)
    → is_allowed client.service.log_reader_membership client.user.rights ≡ false
    → Refuses (read_log client refusal) w permission_denied
unfolding read_log
read_log-Refuses client refusal w denied =
    >>=-Refuses (check_rights client client.service.log_reader_membership (codes "log") [])
      (λ _. open_subscription client log_kind refusal) w permission_denied
      (check_rights-denies client client.service.log_reader_membership (codes "log") [] w denied)

read_posts-Refuses :
    (client : Client) (refusal : Option Error) (w : World)
    → is_allowed client.service.posts_membership client.user.rights ≡ false
    → Refuses (read_posts client refusal) w permission_denied
unfolding read_posts
read_posts-Refuses client refusal w denied =
    >>=-Refuses (check_rights client client.service.posts_membership (codes "posts") [])
      (λ _. open_subscription client posts_kind refusal) w permission_denied
      (check_rights-denies client client.service.posts_membership (codes "posts") [] w denied)

-- A caller whose user has no right to the log and none to the posts is turned away from reading
-- either with PermissionDenied, whether or not a subscription could be had.
pub reading-IsTurnedAway :
    (service : Services) (auth_values : Option (List Bytes)) (user : User) (refusal : Option Error)
    (s : Server)
    → request_user service auth_values ≡ ok user
    → is_allowed service.log_reader_membership user.rights ≡ false
    → is_allowed service.posts_membership user.rights ≡ false
    → IsTurnedAway s (serve_read_log service auth_values refusal s) permission_denied
      × IsTurnedAway s (serve_read_posts service auth_values refusal s) permission_denied
unfolding serve_read_log serve_read_posts
reading-IsTurnedAway service auth_values user refusal s known no_log no_posts = (
  with_client-IsTurnedAway service auth_values (codes "ReadLog") (λ client. read_log client refusal)
      s user permission_denied known
      (read_log-Refuses (client_of service (codes "ReadLog") user s) refusal s.world no_log),
  with_client-IsTurnedAway service auth_values (codes "ReadPosts")
      (λ client. read_posts client refusal) s user permission_denied known
      (read_posts-Refuses (client_of service (codes "ReadPosts") user s) refusal s.world no_posts),
)
