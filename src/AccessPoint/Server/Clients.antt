-- ===== src/AccessPoint/Server/Clients.antt =====
-- accesspoint/lib/service.go.
-- The client of a request: whose it is, and that there always is one.
use au10_service.Prelude.{
  ◌+◌, ◌≡◌, refl, ◌≢◌, ◌⊎◌, inl, inr, Option, none, some, List, [], ◌∷◌, arith, Option-cases,
  Outcome, ok, err, panic,
}
use au10_service.Text.{Bytes}
use au10_service.Au10.User.{User}
use au10_service.Au10.Users.{Users, find_session}
use au10_service.AccessPoint.Action.{Action}
use au10_service.AccessPoint.Status.{Status}
use au10_service.AccessPoint.Client.{Services, Client}
use au10_service.AccessPoint.Server.{
  Server, accounts_of, request_user, new_request_client, work, u32, increment,
}

-- With the program's users behind it, a request comes from the user of the session exactly when
-- it carries one token, and that is the token of a session; from the default user otherwise.
pub request_user-cases :
    (service : Services) (users : Users) (values : Option (List Bytes))
    → service.users ≡ accounts_of users
    → ((token : Bytes) × (user : User) × (values ≡ some (token ∷ []))
        × (find_session users token ≡ some user)
        × (request_user service values ≡ ok user))
      ⊎ (((token : Bytes) (user : User)
            → values ≡ some (token ∷ [])
            → find_session users token ≢ some user)
          × (request_user service values ≡ ok service.default_user))
unfolding request_user
request_user-cases service users none h = inr (λ token user e f. ground arith, refl)
request_user-cases service users (some []) h = inr (λ token user e f. ground arith, refl)
request_user-cases service users (some (t ∷ u ∷ ts)) h = inr (λ token user e f. ground arith, refl)
request_user-cases service users (some (t ∷ [])) h = elim (Option-cases (find_session users t)) [
  | inl e ↦ inr (λ token user v f. ground arith, ground arith)
  | inr (user, e) ↦ inl (t, user, refl, e, ground arith)
]

pub new_request_client-ok :
    (service : Services) (users : Users) (values : Option (List Bytes)) (request : Bytes)
    (s : Server)
    → service.users ≡ accounts_of users
    → (client : Client) × ((new_request_client service values request s).1 ≡ ok client)
      × (client.service ≡ service)
      × (client.request_id ≡ u32 (s.last_request_id + 1))
      × ((new_request_client service values request s).0.last_request_id
          ≡ u32 (s.last_request_id + 1))
unfolding new_request_client
new_request_client-ok service users values request s h =
    elim (request_user-cases service users values h) [
      | inl (token, user, _, _, e) ↦ (
        record {
          service = service;
          request_id = increment s.last_request_id;
          request = request;
          user = user;
        },
        ground arith,
        refl,
        refl,
        ground arith,
      )
      | inr (_, e) ↦ (
        record {
          service = service;
          request_id = increment s.last_request_id;
          request = request;
          user = service.default_user;
        },
        ground arith,
        refl,
        refl,
        ground arith,
      )
    ]

-- A method's result, once its client is there.
pub work-ok {ℓ} :
    {A : Type ℓ} (method : Client → Action A) (r : Server × Outcome Status Client) (client : Client)
    → r.1 ≡ ok client
    → (work method r).1 ≡ (method client r.0.world).1
unfolding work
work-ok method (s, ok c) client e = ground arith
work-ok method (s, err f) client e = ground arith
work-ok method (s, panic) client e = ground arith

-- A request with one token, of a session, comes from its user.
pub request_user-found :
    (service : Services) (users : Users) (token : Bytes) (user : User)
    → service.users ≡ accounts_of users
    → find_session users token ≡ some user
    → request_user service (some (token ∷ [])) ≡ ok user
unfolding request_user
request_user-found service users token user h found = ground arith
