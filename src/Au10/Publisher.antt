-- ===== src/Au10/Publisher.antt =====
-- au10/publisher.go: the publisher that takes new posts and chunks of messages, and the streams
-- through which the publishing node reads them.
pub mod Delivery
use au10_service.Prelude.{ℕ, Option, List, [], ◌∷◌, Outcome, ok, err, panic, ◌>>=◌}
use au10_service.Text.{Bytes, codes}
use au10_service.Text.Errors.{Error, errorf, error_text}
use au10_service.Text.Format.{str}
use au10_service.Au10.Group.{Group, new_membership}
use au10_service.Au10.User.{User}
use au10_service.Au10.Log.{LogService, Journal}
use au10_service.Au10.Post.{Time, Post, PostDeclaration, u32, new_new_vocal}
use au10_service.Au10.Codec.{Codec}
use au10_service.Au10.Writer.{StreamWriter, ProducerMessage, Answer, new_stream_writer}
use au10_service.Au10.Writer

pub record PublisherMessageData : Type 0 where
  pub post : ℕ  -- PostID
  pub id : ℕ  -- MessageID
  pub author : ℕ  -- UserID
  pub chunk : Bytes  -- the field Data

pub record Publisher : Type 0 where
  pub membership : Group
  pub posts_stream : StreamWriter
  pub messages_stream : StreamWriter

-- What the two producers of a publisher were given.
pub record Inputs : Type 0 where
  pub posts : List ProducerMessage
  pub messages : List ProducerMessage

abbrev pub posts_topic : Bytes
posts_topic = codes "pub-posts"

abbrev pub messages_topic : Bytes
messages_topic = codes "pub-messages"

-- `NewPublisher`: the arguments are what opening each producer returns, and what closing the first
-- one returns. A second stream that fails to open closes the first.
unfoldable pub new_publisher :
    LogService
    → Bytes
    → Outcome Error (Unit {0})
    → Outcome Error (Unit {0})
    → Option Error
    → Journal
    → Journal × Outcome Error Publisher
new_publisher log node_type opened_posts opened_messages closing j =
    elim (new_stream_writer posts_topic log node_type opened_posts) [
      | err e ↦ (j, err e)
      | panic ↦ (j, panic)
      | ok posts_stream ↦ elim (new_stream_writer messages_topic log node_type opened_messages) [
        | err e ↦ (Writer.close posts_stream closing j, err e)
        | panic ↦ (j, panic)
        | ok messages_stream ↦ (
          j,
          ok (record {
            membership = new_membership (codes "") (codes "");
            posts_stream = posts_stream;
            messages_stream = messages_stream;
          }),
        )
      ]
    ]

-- `Close`: what closing each producer returns, the messages' one first.
unfoldable pub close : Publisher → Option Error → Option Error → Journal → Journal
close publisher messages_failure posts_failure j =
    Writer.close publisher.posts_stream posts_failure
      (Writer.close publisher.messages_stream messages_failure j)

-- `AddVocal`; `answer` is what the producer says to the message.
unfoldable pub add_vocal :
    Codec PostDeclaration
    → Publisher
    → PostDeclaration
    → Answer
    → Inputs
    → Inputs × Outcome Error Post
add_vocal codec publisher vocal answer inputs =
    let (posts, result) =
      Writer.push codec.marshal publisher.posts_stream vocal answer inputs.posts in
    (record inputs { posts = posts }, result >>= (λ r. ok (new_new_vocal r.0 r.1 vocal)))

-- `AppendMessage`.
unfoldable pub append_message :
    Codec PublisherMessageData
    → Publisher
    → ℕ
    → ℕ
    → User
    → Bytes
    → Inputs
    → Inputs × Outcome Error (Unit {0})
append_message codec publisher id post user chunk inputs =
    let (messages, result) =
      Writer.push_async codec.marshal publisher.messages_stream
        (record { post = post; id = id; author = user.id; chunk = chunk }) inputs.messages in
    (record inputs { messages = messages }, result)

-- A message that Kafka delivers.
pub record ConsumerMessage : Type 0 where
  pub key : Bytes
  pub value : Bytes
  pub offset : ℕ  -- int64
  pub timestamp : Time

-- The conversion of `NewPublishPostsStreamSingleton`.
unfoldable pub convert_vocal_declaration :
    Codec PostDeclaration → ConsumerMessage → Outcome Error Post
convert_vocal_declaration codec source = elim (codec.unmarshal source.value) [
  | err e ↦
      err (errorf (codes "failed to parse vocal declaration: \"%s\"") (str (error_text e) ∷ []))
  | panic ↦ panic
  | ok decl ↦ ok (new_new_vocal (u32 source.offset) source.timestamp decl)
]

-- The conversion of `NewPublishMessagesStreamSingleton`.
unfoldable pub convert_message_data :
    Codec PublisherMessageData → ConsumerMessage → Outcome Error PublisherMessageData
convert_message_data codec source = elim (codec.unmarshal source.value) [
  | err e ↦ err (errorf (codes "failed to parse message data: \"%s\"") (str (error_text e) ∷ []))
  | panic ↦ panic
  | ok chunk ↦ ok chunk
]
