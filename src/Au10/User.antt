-- ===== src/Au10/User.antt =====
-- au10/user.go: a user, and its blocking, which so far is a warning in the log.
use au10_service.Prelude.{ℕ, List, [], ◌∷◌}
use au10_service.Text.{Bytes, codes}
use au10_service.Text.Format.{num}
use au10_service.Au10.Group.{Group}
use au10_service.Au10.Log.{LogService, Journal}
use au10_service.Au10.Log

pub record User : Type 0 where
  pub id : ℕ  -- uint32
  pub login : Bytes
  pub membership : Group
  pub rights : List Group

abbrev pub new_user : ℕ → Bytes → Group → List Group → User
new_user id login membership rights = record {
  id = id;
  login = login;
  membership = membership;
  rights = rights;
}

unfoldable pub block_by_protocol_mismatch : LogService → User → Journal → Journal
block_by_protocol_mismatch log user =
    Log.warn log (codes "User %d blocked by protocol mismatch.") (num user.id ∷ [])
