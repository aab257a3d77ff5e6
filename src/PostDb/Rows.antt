-- ===== src/PostDb/Rows.antt =====
-- postdb/db.go and init.sql: what the query of `GetPost` selects, by the statements that were committed.
use au10_service.Prelude.{
  ℕ, ◌≡◌, refl, Option, none, some, List, [], ◌∷◌, ◌++◌, arith, ◌==◌, if◌then◌else◌, All, Any, ok,
}
use au10_service.Au10.Post.{DbPost}
use au10_service.Au10.Group.{new_membership}
use au10_service.Au10.Post.{DbMessage, Post}
use au10_service.Au10.Post.Messages.{IsText, db_vocal, new_db_vocal_iff}
use au10_service.Au10.Posts.{get_vocal}
use au10_service.PostDb.Action.{History, Statement, insert_post, insert_message, append_message}
use au10_service.PostDb.{PgDb, zero_time}
use au10_service.PostDb.Query.{joined_rows, get_post_lem}
use au10_service.PostDb.Table.{table}

-- `WHERE post.id = $1`.
abbrev pub author_of : ℕ → List Statement → Option ℕ
author_of id [] = none
author_of id (insert_post post author latitude longitude ∷ statements) =
    if post == id then some author else author_of id statements
author_of id (insert_message message post kind size ∷ statements) = author_of id statements
author_of id (append_message message post chunk ∷ statements) = author_of id statements

-- `post.id = message.post`.
abbrev pub messages_of : ℕ → List Statement → List DbMessage
messages_of id [] = []
messages_of id (insert_post post author latitude longitude ∷ statements) = messages_of id statements
messages_of id (insert_message message post kind size ∷ statements) =
    if post == id
    then record { id = message; kind = kind; size = size } ∷ messages_of id statements
    else messages_of id statements
messages_of id (append_message message post chunk ∷ statements) = messages_of id statements

-- A query sees what is committed: the rows of the post's left join, in any order.
abbrev pub IsRelational : PgDb → Type 0
IsRelational db =
    (history : History) (id author : ℕ)
    → author_of id (table history).applied ≡ some author
    → (ms : List DbMessage) × (db.driver.query history id ≡ ok (joined_rows author ms))
      × ((m : DbMessage)
          → Any {A = DbMessage} (λ n. n ≡ m) ms
          → Any {A = DbMessage} (λ n. n ≡ m) (messages_of id (table history).applied))

module _ {ℓ κ} {A : Type ℓ} (P : A → Type κ) where
  All-Any : (xs : List A) → ((x : A) → Any (λ y. y ≡ x) xs → P x) → All P xs
  All-Any [] h = tt
  All-Any (x ∷ xs) h = (h x (Any.head refl), All-Any xs (λ y there. h y (Any.tail there)))

  Any-All : (xs : List A) (x : A) → All P xs → Any (λ y. y ≡ x) xs → P x
  Any-All [] x all there = elim there [ ]
  Any-All (y ∷ xs) x all (Any.head same) = rw (← same) all.0
  Any-All (y ∷ xs) x all (Any.tail there) = Any-All xs x all.1 there

-- A stored post whose messages are texts is found, and anyone whom the default membership lets in
-- may use it.
pub get_vocal-found :
    (db : PgDb) (history : History) (id author : ℕ)
    → IsRelational db
    → author_of id (table history).applied ≡ some author
    → All {A = DbMessage} IsText (messages_of id (table history).applied)
    → (post : Post) × (get_vocal db history id ≡ ok post) × (post.membership ≡ new_membership [] [])
unfolding get_vocal
get_vocal-found db history id author selects inserted texts =
    let (ms, found, among) = selects history id author inserted in
    let source : DbPost = record {
      id = id;
      author = author;
      time = zero_time;
      longitude = 0;
      latitude = 0;
      messages = ms;
    } in
    let all = All-Any IsText ms (λ m there.
      Any-All IsText (messages_of id (table history).applied) m texts (among m there)) in
    (
      db_vocal source,
      rw (get_post_lem db history id author ms found)
          ((new_db_vocal_iff source (db_vocal source)).1 (all, refl)),
      refl,
    )

pub author_of-append :
    (id author latitude longitude : ℕ) (xs ys : List Statement)
    → author_of id xs ≡ none
    → author_of id (xs ++ insert_post id author latitude longitude ∷ ys) ≡ some author
author_of-append id author latitude longitude [] ys free = ground arith
author_of-append id author latitude longitude (x ∷ xs) ys free =
    ground (arith, author_of-append id author latitude longitude xs ys)

pub messages_of-append :
    (id : ℕ) (xs ys : List Statement)
    → messages_of id (xs ++ ys) ≡ messages_of id xs ++ messages_of id ys
messages_of-append id [] ys = refl
messages_of-append id (x ∷ xs) ys = ground (arith, messages_of-append id xs ys)
