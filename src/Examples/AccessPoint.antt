-- ===== src/Examples/AccessPoint.antt =====
-- The access point: the theorems at concrete inputs.
use au10_service.Prelude.{
  ℕ, ◌≡◌, refl, ◌≢◌, ◌↔◌, ◌⊎◌, inl, true, none, some, List, [], ◌∷◌, length, ok, panic,
}
use au10_service.Text.{codes}
use au10_service.Au10.Group.{is_allowed, any_right, is_item_available}
use au10_service.Text.{bytes_eq}
use au10_service.Au10.Publisher.{append_message}
use au10_service.Au10.Writer.{push_async, serialize}
use au10_service.AccessPoint.Client.{
  AllowedMethods, get_allowed_methods, check_rights, log_debug, log_info, get_log_header,
}
use au10_service.AccessPoint.Requests
use au10_service.AccessPoint.Requests.{check_chunk, parse_message_id, append_chunk}
use au10_service.AccessPoint.Server.{
  with_client, work, new_request_client, auth_call, auth_response,
}
use au10_service.Text.Decimal.{IsNumeral, parse_uint32}
use au10_service.Text.Format.{str, sprintf}
use au10_service.Au10.User.{User}
use au10_service.Au10.Users.{find_user}
use au10_service.Au10.Users
use au10_service.Au10.Post.{pos}
use au10_service.Au10.Writer.{stored}
use au10_service.AccessPoint.Status.{permission_denied, internal}
use au10_service.AccessPoint.Convertor.{
  VocalAddRequest, PostAddRequest, ProtoGeoPoint, ProtoMessageDeclaration, id_from_proto,
}
use au10_service.AccessPoint.Convertor.RoundTrip.{id_from_proto_iff}
use au10_service.AccessPoint.Client.{register_error}
use au10_service.AccessPoint.Client.Errors.{told, Refuses, register_error_lem}
use au10_service.AccessPoint.Requests.{MessageChunkWriteRequest, add_vocal, write_message_chunk}
use au10_service.AccessPoint.Requests.Chunks.{ChunkVerdict, write_message_chunk-cases}
use au10_service.AccessPoint.Requests.Vocals.{
  response, with_post, add_vocal_panics, add_vocal_accepted, add_vocal_denied,
}
use au10_service.AccessPoint.Reading.{Message, MessageReadRequest}
use au10_service.AccessPoint.Reading.Messages.{ReadVerdict, read_message-cases}
use au10_service.AccessPoint.Server.{new_server, request_user, auth}
use au10_service.AccessPoint.Server.Sessions.{auth_then_request}
use au10_service.Examples.Fixtures.{services, client_of, root, guest, users, no_inputs, world}

id_from_proto_iff_example :
    (id_from_proto (codes "042") none ≡ (42, none))
    ↔ (IsNumeral 0 (codes "042") 42 × (codes "042" ≢ []))
id_from_proto_iff_example = id_from_proto_iff (codes "042") 42

abbrev texts : List ProtoMessageDeclaration
texts = record { kind = 0; size = 5 } ∷ record { kind = 0; size = 6 } ∷ []

abbrev lost : List ℕ
lost = codes "lost %s"

register_error_lem_example :
    ((register_error (client_of guest) internal lost (str (codes "x") ∷ []) world).1
      ≡ ok (
          some (record {
            code = internal;
            message = told (client_of guest) internal (sprintf lost (str (codes "x") ∷ []));
          })))
    × ((register_error (client_of guest) internal lost (str (codes "x") ∷ []) world).0.inputs
        ≡ no_inputs)
register_error_lem_example =
    register_error_lem (client_of guest) internal lost (str (codes "x") ∷ []) world

abbrev chunk_request : MessageChunkWriteRequest
chunk_request = record { post_id = codes "4"; message_id = codes "1"; chunk = codes "hello" }

write_message_chunk-cases_example : ChunkVerdict (client_of root) chunk_request world
write_message_chunk-cases_example = write_message_chunk-cases (client_of root) chunk_request world

-- The same request, run: one message goes to the publisher's second stream.
accepted_chunk :
    length (write_message_chunk (client_of root) chunk_request world).0.inputs.messages ≡ 1
unfolding write_message_chunk check_chunk check_rights is_allowed any_right is_item_available
    bytes_eq parse_message_id id_from_proto parse_uint32 append_chunk append_message push_async
    serialize log_debug get_log_header
accepted_chunk = refl

abbrev place : ProtoGeoPoint
place = record { latitude = 2; longitude = 1 }

abbrev post_request : PostAddRequest
post_request = record { location = some place; messages = texts }

abbrev vocal_request : VocalAddRequest
vocal_request = record { post = some post_request }

add_vocal_panics_example :
    add_vocal (client_of guest) (record { post = none }) (stored 4 (pos 9)) world ≡ (world, panic)
add_vocal_panics_example =
    add_vocal_panics (client_of guest) (record { post = none }) (stored 4 (pos 9)) world (inl refl)

add_vocal_accepted_example :
    ((add_vocal (client_of root) vocal_request (stored 4 (pos 9)) world).1
      ≡ ok (response (client_of root) post_request place 4 (pos 9)))
    × ((add_vocal (client_of root) vocal_request (stored 4 (pos 9)) world).0.inputs
        ≡ with_post (client_of root) (123 ∷ 1 ∷ 2 ∷ 1 ∷ 0 ∷ 5 ∷ 0 ∷ 6 ∷ []) no_inputs)
unfolding is_allowed any_right is_item_available bytes_eq
add_vocal_accepted_example =
    add_vocal_accepted (client_of root) vocal_request post_request place
      (123 ∷ 1 ∷ 2 ∷ 1 ∷ 0 ∷ 5 ∷ 0 ∷ 6 ∷ []) 4 (pos 9) world refl refl (refl, (refl, tt)) refl refl

add_vocal_denied_example :
    (add_vocal (client_of guest) vocal_request (stored 4 (pos 9)) world ≡ (world, panic))
    ⊎ (Refuses (add_vocal (client_of guest) vocal_request (stored 4 (pos 9))) world internal
        ⊎ Refuses
            (add_vocal (client_of guest) vocal_request (stored 4 (pos 9)))
            world
            permission_denied)
unfolding is_allowed any_right bytes_eq
add_vocal_denied_example =
    add_vocal_denied (client_of guest) vocal_request (stored 4 (pos 9)) world refl

abbrev read_request : MessageReadRequest
read_request = record { post_id = codes "4"; message_id = codes "1" }

read_message-cases_example : ReadVerdict 9 (client_of root) read_request (λ _. none) world
read_message-cases_example = read_message-cases 9 (client_of root) read_request (λ _. none) world

abbrev long_message : Message
long_message = record { size = 25; load = λ b o. ok (o ∷ []) }

abbrev methods_of_root : AllowedMethods
methods_of_root = record { read_log = true; read_posts = true; add_vocal = true }

auth_then_request_example :
    (user : User) × (user.login ≡ codes "root")
    × (find_user users (codes "root") ≡ some user)
    × (request_user services (some (codes "token: root" ∷ [])) ≡ ok user)
    × (true ≡ true)
unfolding auth with_client work new_request_client request_user auth_call Requests.auth
    auth_response log_info Users.auth bytes_eq get_allowed_methods is_allowed any_right
    is_item_available
auth_then_request_example =
    auth_then_request services users refl none (codes "root") (λ _. none) (new_server world)
      (codes "token: root") (record { is_success = true; allowed_methods = methods_of_root })
      (refl, tt) refl
