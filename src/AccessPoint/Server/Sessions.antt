-- ===== src/AccessPoint/Server/Sessions.antt =====
-- accesspoint/lib/service.go.
-- Who a request's caller is: logging in, and the requests after it.
use au10_service.Prelude.{
  ◌≡◌, refl, ap, ◌∙◌, inl, inr, true, false, Option, none, some, List, [], ◌∷◌, arith, Option-cases,
  ok, err, ◌∙◌, ap,
}
use au10_service.Text.{Bytes}
use au10_service.Text.Errors.{Error}
use au10_service.Au10.User.{User}
use au10_service.Au10.Users
use au10_service.Au10.Users.{Users, find_user}
use au10_service.Au10.Users.Sessions.{HasOwnLogins, auth-find_session}
use au10_service.AccessPoint.Action.{World}
use au10_service.AccessPoint.Status.{Status, internal}
use au10_service.AccessPoint.Client.{
  Services, Client, log_info, get_allowed_methods, Accounts, AllowedMethods,
}
use au10_service.AccessPoint.Client.Errors.{register_desc_lem, told}
use au10_service.AccessPoint.Requests
use au10_service.AccessPoint.Server.Clients.{request_user-found, new_request_client-ok, work-ok}
use au10_service.Text.Format.{num, sprintf}
use au10_service.AccessPoint.Server.{
  Server, AuthResponse, accounts_of, request_user, new_request_client, with_client, auth_response,
  auth_call, auth, codes, str, error_text,
}

-- What the users answer to the client's call.
answers :
    (service : Services) (users : Users) (login : Bytes)
    → service.users ≡ accounts_of users
    → service.users.auth login ≡ ok (Users.auth users login)
answers service users login h = ap (λ (a : Accounts). a.auth login) h

auth_call-none :
    (header : Bytes → Option Error) (login : Bytes) (client : Client) (w : World)
    → client.service.users.auth login ≡ ok none
    → (auth_call header login client w).1
      ≡ ok (none, record { is_success = false; allowed_methods = get_allowed_methods client })
unfolding auth_call Requests.auth auth_response log_info
auth_call-none header login client w h = ground arith

auth_call-some :
    (header : Bytes → Option Error) (login : Bytes) (client : Client) (w : World) (user : User)
    (token : Bytes)
    → client.service.users.auth login ≡ ok (some (user, token))
    → header token ≡ none
    → (auth_call header login client w).1
      ≡ ok (
        some token,
        record {
          is_success = true;
          allowed_methods = get_allowed_methods (record client { user = user });
        },
      )
unfolding auth_call Requests.auth auth_response log_info
auth_call-some header login client w user token h sent = ground arith

auth_call-unsent :
    (header : Bytes → Option Error) (login : Bytes) (client : Client) (w : World) (user : User)
    (token : Bytes) (e : Error)
    → client.service.users.auth login ≡ ok (some (user, token))
    → header token ≡ some e
    → (status : Status) × ((auth_call header login client w).1 ≡ err status)
unfolding auth_call Requests.auth auth_response log_info
auth_call-unsent header login client w user token e h sent =
    let authed : Client = record client { user = user } in
    let w' =
      (log_info authed (codes "Authed \"%s\" (was %d).") (str login ∷ num client.user.id ∷ [])
        w).0 in
    let args = str (error_text e) ∷ [] in
    let format = codes "failed to set auth-metadata: \"%s\"" in
    (
      record { code = internal; message = told authed internal (sprintf format args) },
      unfold log_info in ground (arith, register_desc_lem authed internal format args w'),
    )

module _ (service : Services) (users : Users) (h : service.users ≡ accounts_of users)
    (values : Option (List Bytes)) (login : Bytes) (header : Bytes → Option Error)
    (s : Server) where
  -- The client that `Auth` works with, and the server behind it.
  auth-client :
      (client : Client) × (client.service.users.auth login ≡ ok (Users.auth users login))
      × ((auth service values login header s).1
          ≡ (auth_call header login client
              (new_request_client service values (codes "Auth") s).0.world).1)
  unfolding auth with_client
  auth-client =
      let (client, e, same, _, _) = new_request_client-ok service users values (codes "Auth") s h in
      (
        client,
        answers client.service users login (ap (λ (x : Services). x.users) same ∙ h),
        work-ok (auth_call header login) _ client e,
      )

  -- `Auth` with a login that has no user succeeds with a response that says so, and sends no token.
  pub auth_unknown :
      Users.auth users login ≡ none
      → (methods : AllowedMethods) × ((auth service values login header s).1
          ≡ ok (none, record { is_success = false; allowed_methods = methods }))
  auth_unknown unknown =
      let (client, a, e) = auth-client in
      (get_allowed_methods client, e ∙ auth_call-none header login client _ (a ∙ ap ok unknown))

  -- `Auth` for a known login, whose token the transport takes, succeeds: the response says so and
  -- tells the methods that are open to the rights of the user that was found.
  pub auth_known :
      (user : User) (token : Bytes)
      → Users.auth users login ≡ some (user, token)
      → header token ≡ none
      → (client : Client) × (client.user ≡ user)
        × ((auth service values login header s).1
            ≡ ok (
              some token,
              record { is_success = true; allowed_methods = get_allowed_methods client },
            ))
  auth_known user token known sent =
      let (client, a, e) = auth-client in
      (
        record client { user = user },
        refl,
        e ∙ auth_call-some header login client _ user token (a ∙ ap ok known) sent,
      )

  auth_token :
      (token : Bytes) (response : AuthResponse)
      → (auth service values login header s).1 ≡ ok (some token, response)
      → (user : User) × (Users.auth users login ≡ some (user, token)) × (response.is_success ≡ true)
  auth_token token response done = elim (Option-cases (Users.auth users login)) [
    | inl unknown ↦ let (methods, e) = auth_unknown unknown in absurd (ground arith)
    | inr ((user, t), known) ↦ elim (Option-cases (header t)) [
      | inl sent ↦
          let (client, _, e) = auth_known user t known sent in (user, ground arith, ground arith)
      | inr (f, unsent) ↦
          let (client, a, e) = auth-client in
          let (status, e') =
            auth_call-unsent header login client
              (new_request_client service values (codes "Auth") s).0.world user t f
              (a ∙ ap ok known) unsent in
          absurd (ground arith)
    ]
  ]

  -- Logging in and going on: if `Auth` answers a login with a token, then every later request that
  -- carries it comes from the user of that login, if users are stored under their own logins.
  pub auth_then_request :
      (token : Bytes) (response : AuthResponse)
      → HasOwnLogins users
      → (auth service values login header s).1 ≡ ok (some token, response)
      → (user : User) × (user.login ≡ login)
        × (find_user users login ≡ some user)
        × (request_user service (some (token ∷ [])) ≡ ok user)
        × (response.is_success ≡ true)
  unfolding Users.auth find_user
  auth_then_request token response own done =
      let (user, known, success) = auth_token token response done in
      let (found, same) = auth-find_session users login user token own known in
      (user, same, ground arith, request_user-found service users token user h found, success)
