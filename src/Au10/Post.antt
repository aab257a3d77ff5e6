-- ===== src/Au10/Post.antt =====
-- au10/geo.go, message.go and post.go: messages and posts. Slices of pointers are lists, since the
-- program stores no nil in them; a float64 is its bit pattern, which the program only copies.
pub mod Messages
use au10_service.Prelude.{
  ℕ, ◌+◌, ◌%◌, Option, some, List, [], ◌∷◌, ◌==◌, if◌then◌else◌, Outcome, ok, err, ◌>>=◌,
}
use au10_service.Text.{codes}
use au10_service.Text.Errors.{Error, errorf}
use au10_service.Text.Format.{num}
use au10_service.Au10.Group.{Group, new_membership}

-- An instant, as the nanoseconds that `UnixNano` returns: `negsuc n` is -(n + 1).
pub data Time : Type 0 where
  pos : ℕ → Time
  negsuc : ℕ → Time

pub record GeoPoint : Type 0 where
  pub latitude : ℕ
  pub longitude : ℕ

abbrev pub message_kind_text : ℕ
message_kind_text = 0

pub record MessageDeclaration : Type 0 where
  pub kind : ℕ  -- uint32
  pub size : ℕ  -- uint32

pub record MessageData : Type 0 where
  pub id : ℕ  -- uint32
  pub kind : ℕ
  pub size : ℕ

-- A `VocalDeclaration` is one of these.
pub record PostDeclaration : Type 0 where
  pub author : ℕ
  pub location : Option GeoPoint
  pub messages : List MessageDeclaration

pub record PostData : Type 0 where
  pub id : ℕ
  pub time : Time
  pub author : ℕ
  pub location : Option GeoPoint
  pub messages : List MessageData

-- A `Vocal` is one of these.
pub record Post : Type 0 where
  pub membership : Group
  pub content : PostData

-- postdb's records, as `newDBVocal` reads them.
pub record DbMessage : Type 0 where
  pub id : ℕ
  pub kind : ℕ
  pub size : ℕ

pub record DbPost : Type 0 where
  pub id : ℕ
  pub author : ℕ
  pub time : Time
  pub longitude : ℕ
  pub latitude : ℕ
  pub messages : List DbMessage

abbrev pub u32 : ℕ → ℕ
u32 n = n % 4294967296

-- The loop of `newNewVocal`, at index `i`.
unfoldable pub number_messages : ℕ → List MessageDeclaration → List MessageData
number_messages i [] = []
number_messages i (m ∷ ms) =
    record { id = u32 i; kind = m.kind; size = m.size } ∷ number_messages (i + 1) ms

unfoldable pub new_new_vocal : ℕ → Time → PostDeclaration → Post
new_new_vocal id time decl = record {
  membership = new_membership (codes "") (codes "");
  content = record {
    id = id;
    time = time;
    author = decl.author;
    location = decl.location;
    messages = number_messages 0 decl.messages;
  };
}

-- The loop of `newDBVocal`.
unfoldable pub db_messages : List DbMessage → Outcome Error (List MessageData)
db_messages [] = ok []
db_messages (m ∷ ms) =
    let rest = db_messages ms in
    if m.kind == message_kind_text
    then rest >>= (λ done. ok (record { id = m.id; kind = m.kind; size = m.size } ∷ done))
    else err (errorf (codes "unknown DB-record message kind %d") (num m.kind ∷ []))

unfoldable pub new_db_vocal : DbPost → Outcome Error Post
new_db_vocal source = do
  messages ← db_messages source.messages
  ok (record {
    membership = new_membership (codes "") (codes "");
    content = record {
      id = source.id;
      time = source.time;
      author = source.author;
      location = some (record { latitude = source.latitude; longitude = source.longitude });
      messages = messages;
    };
  })
