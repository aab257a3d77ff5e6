-- ===== src/Examples/Broadcast.antt =====
-- The way of a post, and the posts that are not announced: the theorems at concrete inputs.
use au10_service.Prelude.{
  ℕ, zero, suc, ◌≡◌, refl, false, Option, none, some, List, [], ◌∷◌, arith, Outcome, ok, err,
}
use au10_service.AccessPoint.Requests.{add_vocal}
use au10_service.Text.{Bytes, bytes_eq, codes}
use au10_service.Au10.Codec.{Codec, IsFaithful}
use au10_service.Text.Errors.{Error, text}
use au10_service.Au10.Post.{GeoPoint, Post, PostData, new_new_vocal, number_messages}
use au10_service.Node.Broadcast.{IsBroadcast, bare_request, vocal-IsBroadcast, answered}
use au10_service.Node.{Node, NodeState, message_record, on_db_error, post_record, serve}
use au10_service.PostDb.{PgDb}
use au10_service.AccessPoint.Convertor.{ProtoGeoPoint}
use au10_service.Au10.Publisher.{PublisherMessageData}
use au10_service.Au10.Group.{any_right, is_allowed, is_item_available}
use au10_service.Examples.Fixtures.{
  declaration_codec-IsFaithful, nobody, quiet_log, root, silence, world, client_of,
}
use au10_service.Node.Publishing.{serve-unpublished}
use au10_service.Au10.Writer.{stored}
use au10_service.Au10.Post.{Time, pos, negsuc, MessageData}

-- A post's record: its numbers, its place and its messages.
abbrev write_messages : List MessageData → Bytes
write_messages [] = []
write_messages (m ∷ ms) = m.id ∷ m.kind ∷ m.size ∷ write_messages ms

abbrev read_messages : Bytes → List MessageData
read_messages (id ∷ kind ∷ size ∷ rest) =
    record { id = id; kind = kind; size = size } ∷ read_messages rest
read_messages _ = []

abbrev write_place : Option GeoPoint → Bytes → Bytes
write_place none rest = 0 ∷ rest
write_place (some l) rest = 1 ∷ l.latitude ∷ l.longitude ∷ rest

abbrev write_time : Time → Bytes → Bytes
write_time (pos n) rest = 0 ∷ n ∷ rest
write_time (negsuc n) rest = 1 ∷ n ∷ rest

abbrev read_place : ℕ → Time → ℕ → Bytes → Outcome Error PostData
read_place id time author (zero ∷ rest) = ok (record {
  id = id;
  time = time;
  author = author;
  location = none;
  messages = read_messages rest;
})
read_place id time author (suc tag ∷ latitude ∷ longitude ∷ rest) = ok (record {
  id = id;
  time = time;
  author = author;
  location = some (record { latitude = latitude; longitude = longitude });
  messages = read_messages rest;
})
read_place id time author _ = err (text (codes "short"))

abbrev read_post : Bytes → Outcome Error PostData
read_post (id ∷ author ∷ zero ∷ n ∷ rest) = read_place id (pos n) author rest
read_post (id ∷ author ∷ suc tag ∷ n ∷ rest) = read_place id (negsuc n) author rest
read_post _ = err (text (codes "short"))

abbrev post_codec : Codec PostData
post_codec = record {
  marshal = λ p.
      ok (p.id ∷ p.author ∷ write_time p.time (write_place p.location (write_messages p.messages)));
  unmarshal = read_post;
}

messages_back : (ms : List MessageData) → read_messages (write_messages ms) ≡ ms
messages_back [] = refl
messages_back (m ∷ ms) = rw (messages_back ms)

place_back :
    (id : ℕ) (time : Time) (author : ℕ) (location : Option GeoPoint) (messages : List MessageData)
    → read_place id time author (write_place location (write_messages messages))
      ≡ ok (record {
        id = id;
        time = time;
        author = author;
        location = location;
        messages = messages;
      })
place_back id time author none messages = rw (messages_back messages)
place_back id time author (some l) messages = rw (messages_back messages)

post_back :
    (id : ℕ) (time : Time) (author : ℕ) (location : Option GeoPoint) (messages : List MessageData)
    → read_post (id ∷ author ∷ write_time time (write_place location (write_messages messages)))
      ≡ ok (record {
        id = id;
        time = time;
        author = author;
        location = location;
        messages = messages;
      })
post_back id (pos n) author location messages = place_back id (pos n) author location messages
post_back id (negsuc n) author location messages = place_back id (negsuc n) author location messages

post_codec-IsFaithful : IsFaithful post_codec
post_codec-IsFaithful p value h =
    ground (arith, post_back p.id p.time p.author p.location p.messages)

abbrev db : PgDb
db = record {
  driver = record { answer = λ history event. none; query = λ history id. ok [] };
  handle_fatal_error = on_db_error quiet_log;
}

abbrev node : Node
node = record {
  db = db;
  log = quiet_log;
  users = root ∷ [];
  posts_membership = nobody;
  post_codec = post_codec;
  notifier = record { log = quiet_log; topic = codes "posts"; key = codes "publisher" };
}

abbrev at_start : NodeState
at_start = record {
  store = record { history = []; is_open = false; journal = silence };
  published = [];
}

abbrev place : ProtoGeoPoint
place = record { latitude = 2; longitude = 1 }

vocal-IsBroadcast_example :
    ((add_vocal (client_of root) (bare_request place) (stored 4 (pos 9)) world).1
      ≡ ok (answered (client_of root) place 4 (pos 9)))
    × IsBroadcast
        (client_of root)
        place
        4
        (pos 9)
        world
        node
        at_start
        0
        (pos 12)
        (λ post. none)
        []
        (add_vocal (client_of root) (bare_request place) (stored 4 (pos 9)) world).0
unfolding new_new_vocal number_messages bytes_eq is_allowed is_item_available any_right
vocal-IsBroadcast_example =
    vocal-IsBroadcast (client_of root) place 4 (pos 9) world node at_start 0 (pos 12) (λ post. none)
      [] (123 ∷ 1 ∷ 2 ∷ 1 ∷ []) (4 ∷ 123 ∷ 0 ∷ 9 ∷ 1 ∷ 2 ∷ 1 ∷ []) refl refl
      declaration_codec-IsFaithful refl post_codec-IsFaithful (λ history event. refl)

-- A post with one text of five bytes, and its whole text.
abbrev five : Post
five =
    new_new_vocal 4 (pos 9)
      (record { author = 123; location = none; messages = record { kind = 0; size = 5 } ∷ [] })

abbrev whole : PublisherMessageData
whole = record { post = 4; id = 0; author = 123; chunk = codes "hello" }

serve-unpublished_example :
    (serve node (post_record five ∷ message_record whole ∷ []) at_start).0.published ≡ []
unfolding new_new_vocal number_messages
serve-unpublished_example =
    serve-unpublished node (post_record five ∷ message_record whole ∷ []) at_start
      (omega arith, (tt, tt))
