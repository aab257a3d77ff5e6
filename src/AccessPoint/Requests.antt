-- ===== src/AccessPoint/Requests.antt =====
-- accesspoint/lib/client.go: the requests that a client makes of the publisher, and `Auth`. What
-- Kafka answers to a new post is an argument of `add_vocal`.
pub mod Chunks
pub mod Vocals
use au10_service.Prelude.{
  ℕ, Option, none, some, [], ◌∷◌, ltb, ◌==◌, if◌then◌else◌, length, Outcome, ok, err, panic,
}
use au10_service.Text.{Bytes, codes}
use au10_service.Text.Errors.{Error, error_text}
use au10_service.Text.Format.{str, num}
use au10_service.Au10.Post.{PostDeclaration, Post, u32}
use au10_service.Au10.Writer.{Answer}
use au10_service.Au10.Publisher.{Publisher, Inputs}
use au10_service.Au10.Publisher
use au10_service.AccessPoint.Status.{Status, invalid_argument, internal}
use au10_service.AccessPoint.Action.{World, Action, ◌>>=◌, ◌>>◌, return, give_up}
use au10_service.AccessPoint.Convertor.{
  VocalAddRequest, ProtoPost, id_from_proto, vocal_to_proto, vocal_declaration_from_proto,
}
use au10_service.AccessPoint.Client.{Client, reject, log_info, log_debug, check_rights}

-- `Auth`; it returns the client with the user that was found, and the token.
unfoldable pub auth : Client → Bytes → Action (Client × Option Bytes)
auth client login = elim (client.service.users.auth login) [
  | err e ↦
      reject client internal (codes "failed to auth \"%s\": \"%s\"")
        (str login ∷ str (error_text e) ∷ [])
  | panic ↦ give_up
  | ok none ↦ do
    log_info client (codes "Wrong creds for \"%s\"") (str login ∷ [])
    return (client, none)
  | ok (some (user, token)) ↦ do
    let authed : Client = record client { user = user }
    log_info authed (codes "Authed \"%s\" (was %d).") (str login ∷ num client.user.id ∷ [])
    return (authed, some token)
]

unfoldable pub parse_message_id : Client → Bytes → Bytes → Action (ℕ × ℕ)
parse_message_id client id_source post_source = elim (id_from_proto post_source none).1 [
  | some e ↦
      reject client invalid_argument (codes "failed to parse post ID \"%s\"/\"%s\": \"%s\"")
        (str post_source ∷ str id_source ∷ str (error_text e) ∷ [])
  | none ↦ elim (id_from_proto id_source none).1 [
    | some e ↦
        reject client invalid_argument (codes "failed to parse message ID \"%s\"/\"%s\": \"%s\"")
          (str post_source ∷ str id_source ∷ str (error_text e) ∷ [])
    | none ↦ return ((id_from_proto id_source none).0, (id_from_proto post_source none).0)
  ]
]

-- A call of the publisher, which changes its streams only.
abbrev pub publish_with {ℓ} :
    {A : Type ℓ} → (Inputs → Inputs × Outcome Error A) → World → World × Outcome Error A
publish_with call w = (record w { inputs = (call w.inputs).0 }, (call w.inputs).1)

-- `if err != nil { return nil, client.RegisterError(…) }` after such a call.
abbrev pub or_reject {ℓ} :
    {A : Type ℓ} → World × Outcome Error A → (Error → Action A) → World × Outcome Status A
or_reject (w, ok a) handler = (w, ok a)
or_reject (w, err e) handler = handler e w
or_reject (w, panic) handler = (w, panic)

unfoldable pub convert_vocal : Client → VocalAddRequest → Action PostDeclaration
convert_vocal client request = elim (vocal_declaration_from_proto request client.user none) [
  | ok (decl, none) ↦ return decl
  | ok (decl, some e) ↦
      reject client internal (codes "failed to convert vocal declaraton: \"%s\"")
        (str (error_text e) ∷ [])
  | err e ↦ give_up
  | panic ↦ give_up
]

unfoldable pub vocal_response : Client → Post → Action ProtoPost
vocal_response client post = elim (vocal_to_proto post none) [
  | ok (response, none) ↦ return response
  | ok (response, some e) ↦
      reject client internal (codes "failed to convert vocal: \"%s\"") (str (error_text e) ∷ [])
  | err e ↦ give_up
  | panic ↦ give_up
]

unfoldable pub publish_vocal : Client → PostDeclaration → Answer → Action Post
publish_vocal client decl answer w =
    or_reject
      (publish_with
        (Publisher.add_vocal client.service.declaration_codec client.service.publisher decl answer)
        w)
      (λ e. reject client internal (codes "failed to add: \"%s\"") (str (error_text e) ∷ []))

unfoldable pub add_vocal : Client → VocalAddRequest → Answer → Action ProtoPost
add_vocal client request answer = do
  decl ← convert_vocal client request
  check_rights client client.service.publisher.membership (codes "publishing") []
  post ← publish_vocal client decl answer
  log_debug client (codes "Added vocal %d.") (num post.content.id ∷ [])
  vocal_response client post

pub record MessageChunkWriteRequest : Type 0 where
  pub post_id : Bytes
  pub message_id : Bytes
  pub chunk : Bytes

-- The two tests of a chunk's size.
unfoldable pub check_chunk : Client → MessageChunkWriteRequest → Action (Unit {0})
check_chunk client request =
    if ltb client.service.max_chunk_size (u32 (length request.chunk))
    then reject client invalid_argument
        (codes "chunk size for message \"%s\"/\"%s\" is too big: %d > %d")
        (str request.post_id
          ∷ str request.message_id
          ∷ num (length request.chunk)
          ∷ num client.service.max_chunk_size
          ∷ [])
    else if length request.chunk == 0
    then reject client invalid_argument (codes "chunk size is empty for message \"%s\"/\"%s\"")
        (str request.post_id ∷ str request.message_id ∷ [])
    else return tt

unfoldable pub append_chunk : Client → MessageChunkWriteRequest → ℕ → ℕ → Action (Unit {0})
append_chunk client request id post w =
    or_reject
      (publish_with
        (Publisher.append_message client.service.chunk_codec client.service.publisher id post
          client.user request.chunk)
        w)
      (λ e. reject client internal (codes "failed to write %d bytes for \"%s\"/\"%s\": \"%s\"") (
        num (length request.chunk)
        ∷ str request.post_id
        ∷ str request.message_id
        ∷ str (error_text e)
        ∷ []))

unfoldable pub write_message_chunk : Client → MessageChunkWriteRequest → Action (Unit {0})
write_message_chunk client request = do
  check_chunk client request
  check_rights client client.service.publisher.membership (codes "message \"%s\"/\"%s\" publishing")
      (str request.post_id ∷ str request.message_id ∷ [])
  ids ← parse_message_id client request.message_id request.post_id
  append_chunk client request ids.0 ids.1
  log_debug client (codes "Written %d bytes for \"%s\"/\"%s\".")
      (num (length request.chunk) ∷ str request.post_id ∷ str request.message_id ∷ [])
  return tt
