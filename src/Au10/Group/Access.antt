-- ===== src/Au10/Group/Access.antt =====
-- au10/group.go.
-- What `IsAllowed` decides: a relation between a membership and a list of rights, and its answer
-- for the membership that the log, the posts and the publisher have.
use au10_service.Prelude.{◌≡◌, ◌↔◌, ◌⊎◌, inl, inr, true, List, [], ◌∷◌, arith, Bool-cases, Any}
use au10_service.Text.{Bytes, bytes_eq, bytes_eq_iff}
use au10_service.Au10.Group.{Group, star, is_item_available, any_right, is_allowed}

-- Two names agree: one of them is the wildcard, or they are the same.
abbrev pub Agrees : Bytes → Bytes → Type 0
Agrees a b = (a ≡ star) ⊎ ((b ≡ star) ⊎ (a ≡ b))

-- One right opens one membership: both its name and its domain agree.
abbrev pub Opens : Group → Group → Type 0
Opens group right = Agrees group.name right.name × Agrees group.domain right.domain

abbrev pub IsOpen : Group → Type 0
IsOpen group = (group.name ≡ star) × (group.domain ≡ star)

pub is_item_available_iff : (a b : Bytes) → (is_item_available a b ≡ true) ↔ Agrees a b
unfolding is_item_available
is_item_available_iff a b =
    ground (arith, bytes_eq_iff a star, bytes_eq_iff b star, bytes_eq_iff a b)

any_right_sound :
    (group : Group) (rights : List Group) → any_right group rights ≡ true → Any (Opens group) rights
unfolding any_right
any_right_sound group [] h = ground arith
any_right_sound group (r ∷ rs) h = elim (Bool-cases (is_item_available group.name r.name)) [
  | inl n ↦ elim (Bool-cases (is_item_available group.domain r.domain)) [
    | inl d ↦ Any.head (
      (is_item_available_iff group.name r.name).0 n,
      (is_item_available_iff group.domain r.domain).0 d,
    )
    | inr d ↦ Any.tail (any_right_sound group rs (ground arith))
  ]
  | inr n ↦ Any.tail (any_right_sound group rs (ground arith))
]

any_right_complete :
    (group : Group) (rights : List Group) → Any (Opens group) rights → any_right group rights ≡ true
unfolding any_right
any_right_complete group [] a = elim a [ ]
any_right_complete group (r ∷ rs) (Any.head (n, d)) = ground (
  arith,
  (is_item_available_iff group.name r.name).1 n,
  (is_item_available_iff group.domain r.domain).1 d,
)
any_right_complete group (r ∷ rs) (Any.tail a) = ground (arith, any_right_complete group rs a)

-- `IsAllowed` answers true exactly when the membership is the wildcard in both parts, or some
-- given right agrees with it both in the name and in the domain.
pub is_allowed_iff :
    (group : Group) (rights : List Group)
    → (is_allowed group rights ≡ true) ↔ (IsOpen group ⊎ Any (Opens group) rights)
unfolding is_allowed
is_allowed_iff group rights = (sound, complete)
  where
    sound : is_allowed group rights ≡ true → IsOpen group ⊎ Any (Opens group) rights
    sound h = elim (Bool-cases (bytes_eq group.name star)) [
      | inl n ↦ elim (Bool-cases (bytes_eq group.domain star)) [
        | inl d ↦ inl ((bytes_eq_iff group.name star).0 n, (bytes_eq_iff group.domain star).0 d)
        | inr d ↦ inr (any_right_sound group rights (ground arith))
      ]
      | inr n ↦ inr (any_right_sound group rights (ground arith))
    ]

    complete : IsOpen group ⊎ Any (Opens group) rights → is_allowed group rights ≡ true
    complete (inl o) =
        ground (arith, (bytes_eq_iff group.name star).1 o.0, (bytes_eq_iff group.domain star).1 o.1)
    complete (inr a) = ground (arith, any_right_complete group rights a)
