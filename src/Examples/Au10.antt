-- ===== src/Examples/Au10.antt =====
-- au10: the theorems at concrete inputs.
use au10_service.Prelude.{ℕ, ◌≡◌, refl, ◌↔◌, ◌⊎◌, true, some, List, [], ◌∷◌, ◌++◌, Any, ok}
use au10_service.Text.{codes}
use au10_service.Au10.Group.{new_rights, is_allowed}
use au10_service.Au10.Group.Access.{Opens, IsOpen, is_allowed_iff}
use au10_service.Au10.Users.{token_prefix, find_session, find_user}
use au10_service.Au10.Users.Sessions.{find_session_iff}
use au10_service.Au10.Post.{pos, DbPost, MessageDeclaration, PostDeclaration, new_new_vocal}
use au10_service.Au10.Writer.{
  serialize, answer_of, StreamWriter, ProducerMessage, stored, push, log_stream_topic,
}
use au10_service.Au10.Publisher.{add_vocal, convert_vocal_declaration}
use au10_service.Au10.Publisher.Delivery.{delivered, add_vocal-delivered}
use au10_service.Examples.Fixtures.{
  declaration_codec, declaration_codec-IsFaithful, nobody, quiet_log, root, users, publisher,
  no_inputs,
}

is_allowed_iff_example :
    (is_allowed nobody (new_rights (codes "*") (codes "*") ∷ []) ≡ true)
    ↔ (IsOpen nobody ⊎ Any (Opens nobody) (new_rights (codes "*") (codes "*") ∷ []))
is_allowed_iff_example = is_allowed_iff nobody (new_rights (codes "*") (codes "*") ∷ [])

find_session_iff_example : (find_session users (codes "token: root") ≡ some root) ↔ (
    (login : List ℕ) × (codes "token: root" ≡ token_prefix ++ login)
    × (find_user users login ≡ some root))
find_session_iff_example = find_session_iff users (codes "token: root") root

abbrev stored_post : DbPost
stored_post = record {
  id = 4;
  author = 123;
  time = pos 9;
  longitude = 1;
  latitude = 2;
  messages = record { id = 0; kind = 0; size = 5 } ∷ record { id = 1; kind = 0; size = 6 } ∷ [];
}

abbrev hello : MessageDeclaration
hello = record { kind = 0; size = 5 }

abbrev greeting : PostDeclaration
greeting = record {
  author = 123;
  location = some (record { latitude = 2; longitude = 1 });
  messages = record { kind = 0; size = 3 } ∷ hello ∷ [];
}

abbrev log_writer : StreamWriter
log_writer = record { log = quiet_log; topic = log_stream_topic; key = codes "publisher" }

add_vocal-delivered_example :
    (m : ProducerMessage) × ((add_vocal declaration_codec publisher greeting
        (stored 4 (pos 9))
        no_inputs).0
      ≡ record no_inputs { posts = m ∷ [] })
    × (m.topic ≡ publisher.posts_stream.topic)
    × (convert_vocal_declaration declaration_codec (delivered m 4 (pos 9))
        ≡ ok (new_new_vocal 4 (pos 9) greeting))
unfolding add_vocal push serialize answer_of
add_vocal-delivered_example =
    add_vocal-delivered declaration_codec publisher greeting 4 (pos 9) no_inputs
      (new_new_vocal 4 (pos 9) greeting) declaration_codec-IsFaithful refl
