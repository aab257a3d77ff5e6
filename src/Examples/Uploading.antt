-- ===== src/Examples/Uploading.antt =====
-- The way of a chunk, at a concrete input.
use au10_service.Prelude.{◌≡◌, refl, false, none, some, [], ◌∷◌, arith, ok, panic}
use au10_service.Au10.Post.{GeoPoint, Post, new_new_vocal, number_messages}
use au10_service.Node.Uploading.{IsFiled, IsNewPost, chunk-IsFiled}
use au10_service.PostDb.Rows.{IsRelational, author_of, messages_of}
use au10_service.AccessPoint.Requests.{MessageChunkWriteRequest, write_message_chunk}
use au10_service.Node.{Node, NodeState, on_db_error}
use au10_service.PostDb.{PgDb}
use au10_service.Au10.Group.{any_right, is_allowed, is_item_available}
use au10_service.Text.{bytes_eq, codes}
use au10_service.Examples.Fixtures.{
  chunk_codec-IsFaithful, client_of, nobody, quiet_log, root, silence, world, publisher,
}
use au10_service.Au10.Users.{get_user}
use au10_service.AccessPoint.Convertor.{id_from_proto}
use au10_service.PostDb.Query.{joined_rows}
use au10_service.Text.Decimal.{parse_uint32}
use au10_service.PostDb.Table.{table}
use au10_service.Au10.Post.{pos}

-- A database that never fails and answers by what is committed.
abbrev answering : PgDb
answering = record {
  driver = record {
    answer = λ history event. none;
    query = λ history id. elim (author_of id (table history).applied) [
      | none ↦ ok []
      | some author ↦ ok (joined_rows author (messages_of id (table history).applied))
    ];
  };
  handle_fatal_error = on_db_error quiet_log;
}

answering-IsRelational : IsRelational answering
answering-IsRelational history id author inserted =
    (messages_of id (table history).applied, ground (arith, inserted), λ m there. there)

abbrev uploads : Node
uploads = record {
  db = answering;
  log = quiet_log;
  users = root ∷ [];
  posts_membership = nobody;
  post_codec = record { marshal = λ p. ok []; unmarshal = λ value. panic };
  notifier = publisher.posts_stream;
}

abbrev place : GeoPoint
place = record { latitude = 2; longitude = 1 }

-- A post with one text of five bytes, and its text.
abbrev vocal : Post
vocal =
    new_new_vocal 4 (pos 9) (record {
      author = 123;
      location = some place;
      messages = record { kind = 0; size = 5 } ∷ [];
    })

abbrev at_start : NodeState
at_start = record {
  store = record { history = []; is_open = false; journal = silence };
  published = [];
}

abbrev hello : MessageChunkWriteRequest
hello = record { post_id = codes "4"; message_id = codes "0"; chunk = codes "hello" }

vocal-IsNewPost : IsNewPost uploads vocal place at_start
unfolding new_new_vocal number_messages
vocal-IsNewPost = record {
  placed = refl;
  has_messages = omega arith;
  texts = (refl, tt);
  fresh = (refl, refl);
}

chunk-IsFiled_example :
    ((write_message_chunk (client_of root) hello world).1 ≡ ok tt)
    × IsFiled uploads vocal place at_start
        (client_of root)
        hello
        0
        world
        6
        (pos 12)
        (write_message_chunk (client_of root) hello world).0
unfolding new_new_vocal number_messages id_from_proto parse_uint32 get_user is_allowed any_right
    is_item_available bytes_eq
chunk-IsFiled_example =
    chunk-IsFiled uploads vocal place at_start (client_of root) hello 0 world 6 (pos 12)
      (4 ∷ 0 ∷ 123 ∷ codes "hello") (λ history event. refl) answering-IsRelational vocal-IsNewPost
      (omega arith) refl (refl, refl) refl chunk_codec-IsFaithful refl refl refl
