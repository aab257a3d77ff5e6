-- ===== src/PostDb/Query.antt =====
-- postdb/db.go, `GetPost`: what the query of a post returns on the rows of a left join.
use au10_service.Prelude.{ℕ, ◌≡◌, refl, none, some, List, [], ◌∷◌, map, Outcome, ok}
use au10_service.Text.Errors.{Error}
use au10_service.Au10.Post.{DbMessage}
use au10_service.PostDb.Action.{History}
use au10_service.PostDb.{PgDb, Row, read_rows, get_post, zero_time}

abbrev message_row : ℕ → DbMessage → Outcome Error Row
message_row author m = ok (record {
  author = some author;
  message_id = some m.id;
  message_kind = some m.kind;
  message_size = some m.size;
})

-- The rows of `post LEFT JOIN message`: one for each message, or one without a message.
abbrev pub joined_rows : ℕ → List DbMessage → List (Outcome Error Row)
joined_rows author [] =
    ok
      (record { author = some author; message_id = none; message_kind = none; message_size = none })
    ∷ []
joined_rows author (m ∷ ms) = map (message_row author) (m ∷ ms)

read_rows-map :
    (author : ℕ) (ms : List DbMessage)
    → read_rows (some author) (map (message_row author) ms) ≡ ok (some author, ms)
unfolding read_rows
read_rows-map author [] = refl
read_rows-map author (m ∷ ms) = rw (read_rows-map author ms)

read_rows-joined_rows :
    (author : ℕ) (ms : List DbMessage)
    → read_rows none (joined_rows author ms) ≡ ok (some author, ms)
unfolding read_rows
read_rows-joined_rows author [] = refl
read_rows-joined_rows author (m ∷ ms) = rw (read_rows-map author ms)

-- On the rows that belong to a stored post, it returns the post's author and all its messages, in
-- the order of the rows; the time and the place are the zero values, whatever is stored.
pub get_post_lem :
    (db : PgDb) (history : History) (id author : ℕ) (ms : List DbMessage)
    → db.driver.query history id ≡ ok (joined_rows author ms)
    → get_post db history id
      ≡ ok (record {
        id = id;
        author = author;
        time = zero_time;
        longitude = 0;
        latitude = 0;
        messages = ms;
      })
unfolding get_post
get_post_lem db history id author ms found = rw (get_post, found, read_rows-joined_rows author ms)
