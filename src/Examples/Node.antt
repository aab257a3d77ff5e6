-- ===== src/Examples/Node.antt =====
-- postdb and the publishing node: the theorems at concrete inputs.
use au10_service.Prelude.{◌≡◌, refl, ◌↔◌, false, none, some, List, [], ◌∷◌, ◌++◌, ok, panic}
use au10_service.Text.{codes}
use au10_service.Au10.Post.{GeoPoint, DbMessage, Post, pos, new_new_vocal}
use au10_service.Au10.Publisher.{PublisherMessageData}
use au10_service.PostDb.Action.{Statement, Store, append_message}
use au10_service.PostDb.{PgDb, get_post, zero_time}
use au10_service.PostDb.Query.{joined_rows, get_post_lem}
use au10_service.PostDb.Table.{AllOrNothing, applied}
use au10_service.Node.{
  Node, NodeState, NodeEvent, post_record, message_record, store_post, store_message, check_message,
  passed, serve, on_db_error,
}
use au10_service.Node.Storing.{post_statements, store_post-AllOrNothing, store_message-AllOrNothing}
use au10_service.Node.Checking.{MayAdd, check_message_iff}
use au10_service.Node.Serving.{RunLeaves, serve-RunLeaves}
use au10_service.Examples.Fixtures.{nobody, quiet_log, root, publisher, silence}

abbrev five : DbMessage
five = record { id = 0; kind = 0; size = 5 }

-- A database that always answers, and holds one post with one message.
abbrev db : PgDb
db = record {
  driver = record {
    answer = λ history event. none;
    query = λ history id. ok (joined_rows 123 (five ∷ []));
  };
  handle_fatal_error = on_db_error quiet_log;
}

abbrev here : GeoPoint
here = record { latitude = 2; longitude = 1 }

abbrev vocal : Post
vocal =
    new_new_vocal 4 (pos 9)
      (record { author = 123; location = some here; messages = record { kind = 0; size = 5 } ∷ [] })

abbrev chunk : PublisherMessageData
chunk = record { post = 4; id = 0; author = 123; chunk = codes "hello" }

abbrev empty : Store
empty = record { history = []; is_open = false; journal = silence }

get_post_lem_example :
    get_post db [] 4
    ≡ ok (record {
      id = 4;
      author = 123;
      time = zero_time;
      longitude = 0;
      latitude = 0;
      messages = five ∷ [];
    })
get_post_lem_example = get_post_lem db [] 4 123 (five ∷ []) refl

store_post-AllOrNothing_example :
    AllOrNothing empty (store_post db vocal empty) (post_statements vocal)
store_post-AllOrNothing_example = store_post-AllOrNothing db vocal empty

store_message-AllOrNothing_example :
    AllOrNothing empty (store_message db chunk empty) (append_message 4 0 (codes "hello") ∷ [])
store_message-AllOrNothing_example = store_message-AllOrNothing db chunk empty

check_message_iff_example :
    (check_message db (root ∷ []) nobody chunk [] ≡ passed root)
    ↔ MayAdd db (root ∷ []) nobody chunk [] root
check_message_iff_example = check_message_iff db (root ∷ []) nobody chunk [] root

abbrev node : Node
node = record {
  db = db;
  log = quiet_log;
  users = root ∷ [];
  posts_membership = nobody;
  post_codec = record { marshal = λ p. ok []; unmarshal = λ value. panic };
  notifier = publisher.posts_stream;
}

abbrev at_start : NodeState
at_start = record { store = empty; published = [] }

abbrev arrivals : List NodeEvent
arrivals = post_record vocal ∷ message_record chunk ∷ []

serve-RunLeaves_example :
    (added : List Statement) × (applied (serve node arrivals at_start).0.store
      ≡ applied at_start.store ++ added)
    × RunLeaves node at_start arrivals added
serve-RunLeaves_example = serve-RunLeaves node arrivals at_start
