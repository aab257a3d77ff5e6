-- ===== src/AccessPoint/Convertor.antt =====
-- accesspoint/lib/convertor.go: between the protocol's records and those of au10. The last argument
-- of a conversion that can fail is the error that its pointer holds, and its result has the new one:
-- the first error stays.
pub mod RoundTrip
pub mod Log
use au10_service.Prelude.{
  ℕ, Option, none, some, List, [], ◌∷◌, ◌==◌, if◌then◌else◌, Outcome, ok, err, panic, ◌>>=◌, deref,
  deref,
}
use au10_service.Text.{Bytes, codes}
use au10_service.Text.Decimal.{bad_syntax, out_of_range, parse_uint32, format_uint, max_uint32}
use au10_service.Text.Errors.{Error, errorf, num_error}
use au10_service.Text.Format.{num}
use au10_service.Au10.Post.{
  Time, GeoPoint, MessageDeclaration, MessageData, PostDeclaration, Post, message_kind_text,
}
use au10_service.Au10.User.{User}

-- The records of accesspoint.proto. The kind is the enum's number. A message field may be nil.
pub record ProtoMessage : Type 0 where
  pub id : Bytes
  pub kind : ℕ
  pub size : ℕ

pub record ProtoGeoPoint : Type 0 where
  pub latitude : ℕ
  pub longitude : ℕ

pub record ProtoPost : Type 0 where
  pub id : Bytes
  pub time : Time
  pub location : ProtoGeoPoint
  pub messages : List ProtoMessage

pub record ProtoMessageDeclaration : Type 0 where
  pub kind : ℕ
  pub size : ℕ

pub record PostAddRequest : Type 0 where
  pub location : Option ProtoGeoPoint
  pub messages : List ProtoMessageDeclaration

pub record VocalAddRequest : Type 0 where
  pub post : Option PostAddRequest

abbrev pub message_text : ℕ
message_text = 0

-- `if *err == nil { *err = e }`.
abbrev pub keep_first : Option Error → Error → Option Error
keep_first none e = some e
keep_first (some first) e = some first

-- `ParseUint` returns the largest number with a range error, and zero with a syntax error.
unfoldable pub id_from_proto : Bytes → Option Error → ℕ × Option Error
id_from_proto source error = elim (parse_uint32 source) [
  | ok id ↦ (id, error)
  | err bad_syntax ↦ (0, keep_first error (num_error bad_syntax source))
  | err out_of_range ↦ (max_uint32, keep_first error (num_error out_of_range source))
  | panic ↦ (0, error)
]

unfoldable pub id_to_proto : ℕ → Bytes
id_to_proto source = format_uint source

unfoldable pub message_kind_from_proto : ℕ → Option Error → ℕ × Option Error
message_kind_from_proto source error =
    if source == message_text
    then (message_kind_text, error)
    else (0, keep_first error (errorf (codes "unknown proto message kind %d") (num source ∷ [])))

unfoldable pub message_kind_to_proto : ℕ → Option Error → ℕ × Option Error
message_kind_to_proto source error =
    if source == message_kind_text
    then (message_text, error)
    else (0, keep_first error (errorf (codes "unknown au10 message kind %d") (num source ∷ [])))

unfoldable pub message_to_proto : MessageData → Option Error → ProtoMessage × Option Error
message_to_proto source error =
    let (kind, error') = message_kind_to_proto source.kind error in
    (record { id = id_to_proto source.id; kind = kind; size = source.size }, error')

unfoldable pub messages_to_proto :
    List MessageData → Option Error → List ProtoMessage × Option Error
messages_to_proto [] error = ([], error)
messages_to_proto (m ∷ ms) error =
    let (message, error') = message_to_proto m error in
    let (messages, error'') = messages_to_proto ms error' in (message ∷ messages, error'')

unfoldable pub message_declaration_from_proto :
    ProtoMessageDeclaration → Option Error → MessageDeclaration × Option Error
message_declaration_from_proto source error =
    let (kind, error') = message_kind_from_proto source.kind error in
    (record { kind = kind; size = source.size }, error')

-- What the loop of `MessagesDeclarationFromProto` returns, given what its rest returns: nothing
-- as soon as there is an error.
abbrev after_declaration :
    MessageDeclaration
    → List MessageDeclaration × Option Error
    → List MessageDeclaration × Option Error
after_declaration m (ms, some e) = ([], some e)
after_declaration m (ms, none) = (m ∷ ms, none)

unfoldable pub messages_declaration_from_proto :
    List ProtoMessageDeclaration → Option Error → List MessageDeclaration × Option Error
messages_declaration_from_proto [] error = ([], error)
messages_declaration_from_proto (m ∷ ms) error =
    let (message, error') = message_declaration_from_proto m error in
    let rest = messages_declaration_from_proto ms error' in
    elim error' [ some e ↦ ([], some e) | none ↦ after_declaration message rest ]

-- A nil pointer is a panic.
unfoldable pub geo_point_to_proto : Option GeoPoint → Outcome Error ProtoGeoPoint
geo_point_to_proto source = do
  point ← deref source
  ok (record { latitude = point.latitude; longitude = point.longitude })

unfoldable pub geo_point_from_proto : Option ProtoGeoPoint → Outcome Error GeoPoint
geo_point_from_proto source = do
  point ← deref source
  ok (record { latitude = point.latitude; longitude = point.longitude })

-- `PostToProto`, and so `VocalToProto`.
unfoldable pub vocal_to_proto : Post → Option Error → Outcome Error (ProtoPost × Option Error)
vocal_to_proto source error = do
  location ← geo_point_to_proto source.content.location
  let (messages, error') = messages_to_proto source.content.messages error
  ok (
    record {
      id = id_to_proto source.content.id;
      time = source.content.time;
      location = location;
      messages = messages;
    },
    error',
  )

unfoldable pub vocal_declaration_from_proto :
    VocalAddRequest → User → Option Error → Outcome Error (PostDeclaration × Option Error)
vocal_declaration_from_proto source user error = do
  post ← deref source.post
  location ← geo_point_from_proto post.location
  let (messages, error') = messages_declaration_from_proto post.messages error
  ok (record { author = user.id; location = some location; messages = messages }, error')
