-- ===== src/Au10/Group.antt =====
-- au10/group.go: rights, memberships and the access test. A `Rights` and a `Membership` are both
-- the struct `group`, which holds one `Group`.
pub mod Access
use au10_service.Prelude.{Bool, true, false, not, ◌&&◌, ◌||◌, List, [], ◌∷◌, if◌then◌else◌}
use au10_service.Text.{Bytes, codes, bytes_eq}

pub record Group : Type 0 where
  pub domain : Bytes
  pub name : Bytes

abbrev pub new_rights : Bytes → Bytes → Group
new_rights domain name = record { domain = domain; name = name }

abbrev pub new_membership : Bytes → Bytes → Group
new_membership domain name = record { domain = domain; name = name }

abbrev pub star : Bytes
star = codes "*"

unfoldable pub is_item_available : Bytes → Bytes → Bool
is_item_available membership rights =
    bytes_eq membership star || bytes_eq rights star || bytes_eq membership rights

-- The loop of `IsAllowed` over the given rights.
unfoldable pub any_right : Group → List Group → Bool
any_right group [] = false
any_right group (right ∷ rights) =
    let rest = any_right group rights in
    if not (is_item_available group.name right.name)
    then rest
    else if not (is_item_available group.domain right.domain)
    then rest
    else true

unfoldable pub is_allowed : Group → List Group → Bool
is_allowed group rights =
    if bytes_eq group.name star && bytes_eq group.domain star then true else any_right group rights
