-- ===== src/Au10/Users/Sessions.antt =====
-- au10/users.go.
-- Tokens and sessions, and users by identifier.
use au10_service.Prelude.{
  ℕ, ◌≡◌, sym, ◌∙◌, ◌≢◌, ◌↔◌, inl, inr, some, List, [], ◌∷◌, ◌++◌, arith, ◌==◌, Bool-cases, drop,
  Option-cases, All, Any, ok, lookup, sym, drop, ◌∙◌,
}
use au10_service.Text.{Bytes, bytes_eq, bytes_eq_iff, has_prefix, has_prefix-append, append-drop}
use au10_service.Au10.User.{User}
use au10_service.Au10.Users.{Users, token_prefix, find_user, auth, get_user, find_session}

-- Every user is stored under its own login.
abbrev pub HasOwnLogins : Users → Type 0
HasOwnLogins users = All {A = Bytes × User} (λ entry. entry.0 ≡ entry.1.login) users

-- No two users have one identifier.
abbrev pub HasUniqueIds : List User → Type 0
HasUniqueIds [] = Unit {0}
HasUniqueIds (u ∷ us) = All {A = User} (λ v. v.id ≢ u.id) us × HasUniqueIds us

lookup-login :
    (users : Users) (login : Bytes) (u : User)
    → HasOwnLogins users
    → lookup bytes_eq login users ≡ some u
    → u.login ≡ login
lookup-login [] login u own h = ground arith
lookup-login ((j, v) ∷ m) login u own h = elim (Bool-cases (bytes_eq j login)) [
  | inl e ↦ ground (arith, (bytes_eq_iff j login).0 e)
  | inr n ↦ lookup-login m login u own.1 (ground arith)
]

find_session-token :
    (users : Users) (login : Bytes)
    → find_session users (token_prefix ++ login) ≡ find_user users login
unfolding find_session find_user
find_session-token users login = rw (has_prefix-append token_prefix login)

-- A token stands for a session of a user exactly when it is the prefix and a login under which
-- that user is stored. (So any text of that form is a session, handed out before or not.)
pub find_session_iff :
    (users : Users) (token : Bytes) (u : User)
    → (find_session users token ≡ some u)
      ↔ ((login : Bytes) × (token ≡ token_prefix ++ login) × (find_user users login ≡ some u))
find_session_iff users token u = (sound, complete)
  where
    sound :
        find_session users token ≡ some u
        → (login : Bytes) × (token ≡ token_prefix ++ login) × (find_user users login ≡ some u)
    sound h =
        unfold find_session find_user in
        elim (Bool-cases (has_prefix token token_prefix)) [
          | inl e ↦ (drop 7 token, sym (append-drop token token_prefix e), ground arith)
          | inr n ↦ ground arith
        ]

    complete :
        (login : Bytes) × (token ≡ token_prefix ++ login) × (find_user users login ≡ some u)
        → find_session users token ≡ some u
    complete (login, e, found) = rw e (find_session-token users login ∙ found)

-- The token that `Auth` makes is found again as a session of the user that it was made for, if
-- every user is stored under its own login.
pub auth-find_session :
    (users : Users) (login : Bytes) (u : User) (token : Bytes)
    → HasOwnLogins users
    → auth users login ≡ some (u, token)
    → (find_session users token ≡ some u) × (u.login ≡ login)
unfolding auth find_user
auth-find_session users login u token own h = elim (Option-cases (lookup bytes_eq login users)) [
  | inl e ↦ ground arith
  | inr (v, e) ↦
      let same = lookup-login users login v own e in
      ground (arith, find_session-token users v.login)
]

get_user_sound :
    (order : List User) (id : ℕ) (u : User)
    → get_user order id ≡ ok u
    → Any {A = User} (λ v. v ≡ u) order × (u.id ≡ id)
unfolding get_user
get_user_sound [] id u h = ground arith
get_user_sound (v ∷ us) id u h = elim (Bool-cases (v.id == id)) [
  | inl e ↦ (Any.head (ground arith), ground arith)
  | inr n ↦ let (there, same) = get_user_sound us id u (ground arith) in (Any.tail there, same)
]

All-Any :
    (order : List User) (u : User) (id : ℕ)
    → All {A = User} (λ v. v.id ≢ id) order
    → Any {A = User} (λ v. v ≡ u) order
    → u.id ≢ id
All-Any [] u id all any = elim any [ ]
All-Any (v ∷ us) u id all (Any.head e) = rw (← e) all.0
All-Any (v ∷ us) u id all (Any.tail t) = All-Any us u id all.1 t

get_user_complete :
    (order : List User) (id : ℕ) (u : User)
    → HasUniqueIds order
    → Any {A = User} (λ v. v ≡ u) order
    → u.id ≡ id
    → get_user order id ≡ ok u
unfolding get_user
get_user_complete [] id u unique any same = elim any [ ]
get_user_complete (v ∷ us) id u unique (Any.head e) same = ground arith
get_user_complete (v ∷ us) id u unique (Any.tail t) same =
    ground (arith, All-Any us u v.id unique.0 t, get_user_complete us id u unique.1 t same)

-- In whatever order the map's values come, `GetUser` finds a user exactly when it is among them
-- and has that identifier, if no two users share one.
pub get_user_iff :
    (order : List User) (id : ℕ) (u : User)
    → HasUniqueIds order
    → (get_user order id ≡ ok u) ↔ (Any {A = User} (λ v. v ≡ u) order × (u.id ≡ id))
get_user_iff order id u unique =
    (get_user_sound order id u, λ h. get_user_complete order id u unique h.0 h.1)
