-- ===== src/Au10/Users/Initial.antt =====
-- au10/users.go.
-- The users that `NewUsers` stores, and whom of them the default membership lets in.
use au10_service.Prelude.{ℕ, ◌≡◌, refl, List, [], ◌∷◌, map, arith, ok, err}
use au10_service.Text.{Bytes, codes, bytes_eq}
use au10_service.Text.Errors.{Error}
use au10_service.Au10.Group.{Group, new_membership}
use au10_service.Au10.User.{User, new_user}
use au10_service.Au10.Users.{Users, UserFactory, new_users}
use au10_service.Au10.Users.Sessions.{HasOwnLogins, HasUniqueIds}

-- `factory.NewUser` of user.go: it never fails.
unfoldable pub factory_new_user : UserFactory
factory_new_user id login membership rights = ok (new_user id login membership rights)

-- The membership of the log, of the posts and of the publisher.
abbrev pub default_membership : Group
default_membership = new_membership (codes "") (codes "")

-- With the program's factory `NewUsers` succeeds; its users are stored under their own logins and
-- have identifiers of their own.
pub new_users_lem :
    (users : Users) × (new_users factory_new_user ≡ ok users)
    × HasOwnLogins users
    × HasUniqueIds (map (λ (entry : Bytes × User). entry.1) users)
unfolding new_users factory_new_user bytes_eq
new_users_lem = (_, refl, (refl, (refl, (refl, (refl, (refl, tt))))), omega arith)

-- A failing factory makes `NewUsers` fail with the first error.
pub new_users_fails :
    (factory : UserFactory) (e : Error)
    → ((id : ℕ) (login : Bytes) (m : Group) (rights : List Group)
        → factory id login m rights ≡ err e)
    → new_users factory ≡ err e
unfolding new_users
new_users_fails factory e h = rw (
    h 123 (codes "root") (new_membership [] [])
      (record { domain = codes "*"; name = codes "*" } ∷ []))
