-- ===== src/Examples/Rosters.antt =====
-- The users in the orders of a map's visits: the theorems at concrete inputs.
use au10_service.Prelude.{◌≡◌, refl, some, [], ◌∷◌, arith, Any, ok}
use au10_service.Au10.Users.Order.{SameUsers, get_all_complete, get_user-SameUsers}
use au10_service.Au10.User.{User}
use au10_service.Au10.Users.{get_all, get_user}
use au10_service.Examples.Fixtures.{guest, root, users}

root_listed : get_all users (root ∷ []) ≡ ok (some root ∷ [])
root_listed = get_all_complete users (root ∷ []) refl

there_and_back : SameUsers (root ∷ guest ∷ []) (guest ∷ root ∷ [])
there_and_back u = (swapped root guest u, swapped guest root u)
  where
    swapped :
        (a b u : User)
        → Any {A = User} (λ v. v ≡ u) (a ∷ b ∷ [])
        → Any {A = User} (λ v. v ≡ u) (b ∷ a ∷ [])
    swapped a b u (Any.head e) = Any.tail (Any.head e)
    swapped a b u (Any.tail (Any.head e)) = Any.head e
    swapped a b u (Any.tail (Any.tail t)) = elim t [ ]

get_user-SameUsers_example : get_user (root ∷ guest ∷ []) 123 ≡ get_user (guest ∷ root ∷ []) 123
get_user-SameUsers_example =
    get_user-SameUsers (root ∷ guest ∷ []) (guest ∷ root ∷ []) 123 ((omega arith, tt), (tt, tt))
      ((omega arith, tt), (tt, tt)) there_and_back
