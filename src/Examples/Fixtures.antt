-- ===== src/Examples/Fixtures.antt =====
-- Concrete values that the examples share: codecs, services and callers.
use au10_service.Prelude.{
  ℕ, zero, suc, ◌≡◌, refl, Option, none, some, List, [], ◌∷◌, arith, Outcome, ok, err,
}
use au10_service.Text.{Bytes, codes}
use au10_service.Text.Errors.{Error, text}
use au10_service.Au10.Group.{Group, new_membership, new_rights}
use au10_service.Au10.Log.{LogService, Journal}
use au10_service.Au10.User.{User}
use au10_service.Au10.Users.{Users}
use au10_service.Au10.Post.{MessageDeclaration, PostDeclaration, GeoPoint}
use au10_service.Au10.Codec.{Codec, IsFaithful}
use au10_service.Au10.Writer.{StreamWriter}
use au10_service.Au10.Publisher.{
  Publisher, PublisherMessageData, Inputs, posts_topic, messages_topic,
}
use au10_service.AccessPoint.Action.{World}
use au10_service.AccessPoint.Client.{Services, Client}
use au10_service.AccessPoint.Server.{accounts_of}

-- A chunk's record as three numbers and its bytes.
abbrev pub read_chunk : Bytes → Outcome Error PublisherMessageData
read_chunk (post ∷ id ∷ author ∷ chunk) =
    ok (record { post = post; id = id; author = author; chunk = chunk })
read_chunk _ = err (text (codes "short"))

abbrev pub chunk_codec : Codec PublisherMessageData
chunk_codec = record {
  marshal = λ m. ok (m.post ∷ m.id ∷ m.author ∷ m.chunk);
  unmarshal = read_chunk;
}

pub chunk_codec-IsFaithful : IsFaithful chunk_codec
chunk_codec-IsFaithful a value h = ground arith

abbrev write_declarations : List MessageDeclaration → Bytes
write_declarations [] = []
write_declarations (m ∷ ms) = m.kind ∷ m.size ∷ write_declarations ms

abbrev read_declarations : Bytes → List MessageDeclaration
read_declarations (kind ∷ size ∷ rest) =
    record { kind = kind; size = size } ∷ read_declarations rest
read_declarations _ = []

abbrev write_location : Option GeoPoint → Bytes → Bytes
write_location none rest = 0 ∷ rest
write_location (some l) rest = 1 ∷ l.latitude ∷ l.longitude ∷ rest

abbrev read_declaration : Bytes → Outcome Error PostDeclaration
read_declaration (author ∷ zero ∷ rest) =
    ok (record { author = author; location = none; messages = read_declarations rest })
read_declaration (author ∷ suc n ∷ latitude ∷ longitude ∷ rest) = ok (record {
  author = author;
  location = some (record { latitude = latitude; longitude = longitude });
  messages = read_declarations rest;
})
read_declaration _ = err (text (codes "short"))

abbrev pub declaration_codec : Codec PostDeclaration
declaration_codec = record {
  marshal = λ d. ok (d.author ∷ write_location d.location (write_declarations d.messages));
  unmarshal = read_declaration;
}

declarations_back : (ms : List MessageDeclaration) → read_declarations (write_declarations ms) ≡ ms
declarations_back [] = refl
declarations_back (m ∷ ms) = rw (declarations_back ms)

declaration_back :
    (author : ℕ) (location : Option GeoPoint) (messages : List MessageDeclaration)
    → read_declaration (author ∷ write_location location (write_declarations messages))
      ≡ ok (record { author = author; location = location; messages = messages })
declaration_back author none messages = rw (declarations_back messages)
declaration_back author (some l) messages = rw (declarations_back messages)

pub declaration_codec-IsFaithful : IsFaithful declaration_codec
declaration_codec-IsFaithful a value h =
    ground (arith, declaration_back a.author a.location a.messages)

abbrev pub nobody : Group
nobody = new_membership [] []

abbrev pub quiet_log : LogService
quiet_log = record { node_name = codes "n"; membership = nobody; push_async = λ _. none }

abbrev pub root : User
root = record {
  id = 123;
  login = codes "root";
  membership = nobody;
  rights = new_rights (codes "*") (codes "*") ∷ [];
}

abbrev pub guest : User
guest = record { id = 0; login = []; membership = nobody; rights = [] }

abbrev pub users : Users
users = (codes "root", root) ∷ []

abbrev writer : Bytes → StreamWriter
writer topic = record { log = quiet_log; topic = topic; key = codes "accesspoint" }

abbrev pub publisher : Publisher
publisher = record {
  membership = nobody;
  posts_stream = writer posts_topic;
  messages_stream = writer messages_topic;
}

abbrev pub services : Services
services = record {
  max_chunk_size = 10;
  log = quiet_log;
  log_reader_membership = nobody;
  posts_membership = nobody;
  publisher = publisher;
  users = accounts_of users;
  default_user = guest;
  declaration_codec = declaration_codec;
  chunk_codec = chunk_codec;
}

abbrev pub client_of : User → Client
client_of user = record {
  service = services;
  request_id = 7;
  request = codes "AddVocal";
  user = user;
}

abbrev pub no_inputs : Inputs
no_inputs = record { posts = []; messages = [] }

abbrev pub silence : Journal
silence = record { printed = []; pushed = [] }

abbrev pub world : World
world = record { journal = silence; inputs = no_inputs }
