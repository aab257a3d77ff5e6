-- ===== src/Au10/Users.antt =====
-- au10/users.go: the users, by login, and the sessions. The map is an association list; a call
-- that ranges over it takes the order in which Go happens to visit the values.
pub mod Sessions
pub mod Initial
pub mod Order
use au10_service.Prelude.{
  ℕ, zero, suc, ◌+◌, Option, none, some, List, [], ◌∷◌, ◌++◌, ◌==◌, if◌then◌else◌, length, drop,
  Outcome, ok, err, panic, ◌>>=◌, lookup, insert, drop,
}
use au10_service.PostDb.Table.{table}
use au10_service.Text.{Bytes, codes, bytes_eq, has_prefix}
use au10_service.Text.Errors.{Error, errorf}
use au10_service.Text.Format.{num}
use au10_service.Au10.Group.{Group, new_membership, new_rights}
use au10_service.Au10.User.{User}

abbrev pub Users : Type 0
Users = List (Bytes × User)

-- `Factory.NewUser`.
abbrev pub UserFactory : Type 0
UserFactory = ℕ → Bytes → Group → List Group → Outcome Error User

-- `newUser`; an error before it makes it do nothing.
add_user :
    UserFactory → ℕ → Bytes → Bytes → Bytes → List Group → Outcome Error Users → Outcome Error Users
add_user factory id login domain group rights users = do
  table ← users
  user ← factory id login (new_membership domain group) rights
  ok (insert bytes_eq login user table)

unfoldable pub new_users : UserFactory → Outcome Error Users
unfolding add_user
new_users factory =
    let company = codes "x-company" in
    let users_right = new_rights company (codes "users") in
    let root =
      add_user factory 123 (codes "root") [] [] (new_rights (codes "*") (codes "*") ∷ []) (ok []) in
    let domain_root =
      add_user factory 234 (codes "domain_root") company [] (new_rights company (codes "*") ∷ [])
        root in
    let domain_admin =
      add_user factory 345 (codes "domain_admin") company (codes "admins")
        (users_right ∷ new_rights company (codes "admins") ∷ []) domain_root in
    let user1 =
      add_user factory 456 (codes "user1") company (codes "users") (users_right ∷ [])
        domain_admin in
    add_user factory 567 (codes "user2") company (codes "users") (users_right ∷ []) user1

unfoldable pub find_user : Users → Bytes → Option User
find_user users login = lookup bytes_eq login users

abbrev pub token_prefix : Bytes
token_prefix = codes "token: "

unfoldable pub auth : Users → Bytes → Option (User × Bytes)
auth users login = elim (lookup bytes_eq login users) [
  | none ↦ none
  | some user ↦ some (user, token_prefix ++ user.login)
]

-- The loop over the map's values, in the order in which they come.
unfoldable pub get_user : List User → ℕ → Outcome Error User
get_user [] id = err (errorf (codes "failed to find user with ID %d") (num id ∷ []))
get_user (u ∷ us) id = if u.id == id then ok u else get_user us id

-- `result[i] = user`; out of range is a panic.
unfoldable pub set_slot : List (Option User) → ℕ → User → Outcome Error (List (Option User))
set_slot [] i user = panic
set_slot (slot ∷ slots) zero user = ok (some user ∷ slots)
set_slot (slot ∷ slots) (suc i) user = do rest ← set_slot slots i user; ok (slot ∷ rest)

-- The loop of `GetAll` over the map's values.
unfoldable pub fill_slots : ℕ → List (Option User) → List User → Outcome Error (List (Option User))
fill_slots i result [] = ok result
fill_slots i result (user ∷ users) = do
  filled ← set_slot result i user
  fill_slots (i + 1) filled users

-- `make` fills the slice with nil.
abbrev pub empty_slots : ℕ → List (Option User)
empty_slots zero = []
empty_slots (suc n) = none ∷ empty_slots n

unfoldable pub get_all : Users → List User → Outcome Error (List (Option User))
get_all users order = fill_slots 0 (empty_slots (length users)) order

unfoldable pub find_session : Users → Bytes → Option User
find_session users token =
    if has_prefix token token_prefix then lookup bytes_eq (drop 7 token) users else none
