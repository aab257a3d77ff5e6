-- ===== src/Au10/Users/Order.antt =====
-- au10/users.go.
-- What does not depend on the order in which Go visits the values of a map.
use au10_service.Prelude.{
  ℕ, ◌≡◌, refl, sym, ap, subst, ◌∙◌, ◌≢◌, ◌↔◌, ◌⊎◌, inl, inr, Option, none, some, List, [], ◌∷◌,
  ◌++◌, map, arith, ◌==◌, Bool-cases, length, length-append, Any, Outcome, ok, err, panic,
  Outcome-cases, append_assoc, sym, subst, ◌∙◌, ap,
}
use au10_service.Text.Errors.{Error}
use mathlib.Core.Quot
use au10_service.Au10.Users.Sessions.{HasUniqueIds, get_user_iff}
use au10_service.Au10.User.{User}
use au10_service.Au10.Users.{Users, empty_slots, fill_slots, get_all, get_user, set_slot}
use au10_service.Text.{codes}
use au10_service.Text.Errors.{errorf}
use au10_service.Text.Format.{num}
use mathlib.Core.Quot.{Quot}

set_slot-append :
    (front : List (Option User)) (slot : Option User) (slots : List (Option User)) (user : User)
    → set_slot (front ++ slot ∷ slots) (length front) user ≡ ok (front ++ some user ∷ slots)
unfolding set_slot
set_slot-append [] slot slots user = refl
set_slot-append (x ∷ front) slot slots user = rw (set_slot-append front slot slots user) refl

fill_slots-append :
    (front : List (Option User)) (users : List User)
    → fill_slots (length front) (front ++ empty_slots (length users)) users
      ≡ ok (front ++ map some users)
unfolding fill_slots
fill_slots-append front [] = refl
fill_slots-append front (user ∷ users) =
    let slots = empty_slots (length users) in
    let rest = fill_slots-append (front ++ some user ∷ []) users in
    rw (set_slot-append front none slots user) (
      subst
        (λ i.
          fill_slots i (front ++ some user ∷ slots) users
          ≡ ok (front ++ some user ∷ map some users))
        (length-append front (some user ∷ []))
        (subst
          (λ whole.
            fill_slots (length (front ++ some user ∷ [])) whole users
            ≡ ok (front ++ some user ∷ map some users))
          (append_assoc front (some user ∷ []) slots)
          (rest ∙ ap ok (append_assoc front (some user ∷ []) (map some users)))))

-- `GetAll` returns every user once, in the order in which the map's values come, and leaves no nil,
-- if the values that come are as many as the map has.
pub get_all_complete :
    (users : Users) (order : List User)
    → length order ≡ length users
    → get_all users order ≡ ok (map some order)
unfolding get_all
get_all_complete users order same = rw (← same) (fill_slots-append [] order)

-- Two orders have the same users.
abbrev pub SameUsers : List User → List User → Type 0
SameUsers order visited =
    (u : User) → Any {A = User} (λ v. v ≡ u) order ↔ Any {A = User} (λ v. v ≡ u) visited

-- A search that misses has one error.
get_user_missing :
    (order : List User) (id : ℕ)
    → ((u : User) → get_user order id ≢ ok u)
    → get_user order id ≡ err (errorf (codes "failed to find user with ID %d") (num id ∷ []))
unfolding get_user
get_user_missing [] id none_found = refl
get_user_missing (v ∷ order) id none_found = elim (Bool-cases (v.id == id)) [
  | inl same ↦ absurd (none_found v (ground arith))
  | inr other ↦
      ground (arith, get_user_missing order id (λ u found. none_found u (ground (arith, found))))
]

-- `GetUser` returns the same, the error included, in whatever order the map's values come, if no two
-- users share an identifier.
pub get_user-SameUsers :
    (order visited : List User) (id : ℕ)
    → HasUniqueIds order
    → HasUniqueIds visited
    → SameUsers order visited
    → get_user order id ≡ get_user visited id
get_user-SameUsers order visited id unique unique' same = elim (Outcome-cases (get_user order id)) [
  | inl (u, found) ↦ found ∙ sym (carried u found)
  | inr missed ↦
      get_user_missing order id (λ u found. lost u missed found)
      ∙ sym (get_user_missing visited id (λ u found. lost u missed (carried_back u found)))
]
  where
    carried : (u : User) → get_user order id ≡ ok u → get_user visited id ≡ ok u
    carried u found =
        let (there, is) = (get_user_iff order id u unique).0 found in
        (get_user_iff visited id u unique').1 ((same u).0 there, is)

    carried_back : (u : User) → get_user visited id ≡ ok u → get_user order id ≡ ok u
    carried_back u found =
        let (there, is) = (get_user_iff visited id u unique').0 found in
        (get_user_iff order id u unique).1 ((same u).1 there, is)

    lost :
        (u : User)
        → ((e : Error) × (get_user order id ≡ err e)) ⊎ (get_user order id ≡ panic)
        → get_user order id ≢ ok u
    lost u (inl (e, missed)) found = ground (arith, found)
    lost u (inr missed) found = ground (arith, found)

-- The users as their map holds them: without an order.
abbrev Listing : Type 0
Listing = (order : List User) × HasUniqueIds order

abbrev Roster : Type 0
Roster = Quot (λ (a b : Listing). SameUsers a.0 b.0)

roster : Listing → Roster
roster = Quot.mk

found-set : IsSet (Outcome Error User)
found-set = hlevel

-- `GetUser` on the map itself.
find_in : ℕ → Roster → Outcome Error User
find_in id =
    Quot.lift found-set (λ order. get_user order.0 id)
      (λ a b same. get_user-SameUsers a.0 b.0 id a.1 b.1 same)

-- What `GetUser` returns is a function of the map's users: it is one for all orders of a roster.
get_user-roster : (a b : Listing) (id : ℕ) → roster a ≡ roster b → get_user a.0 id ≡ get_user b.0 id
unfolding find_in roster
get_user-roster a b id same = ap (find_in id) same
