-- ===== src/Au10/Publisher/Delivery.antt =====
-- au10/publisher.go.
-- From the publisher through Kafka to the publishing node: both sides see one post, and a chunk
-- arrives as it was given.
use au10_service.Prelude.{ℕ, ◌≡◌, refl, inl, inr, [], ◌∷◌, ◌++◌, arith, ok, Outcome-cases}
use au10_service.Text.{Bytes}
use au10_service.Au10.User.{User}
use au10_service.Au10.Post.{Time, Post, PostDeclaration}
use au10_service.Au10.Codec.{Codec, IsFaithful}
use au10_service.Au10.Writer.{ProducerMessage, stored, serialize, push, push_async, answer_of}
use au10_service.Au10.Publisher.{
  Publisher, PublisherMessageData, Inputs, ConsumerMessage, add_vocal, append_message,
  convert_vocal_declaration, convert_message_data,
}

-- What Kafka delivers of a stored message.
abbrev pub delivered : ProducerMessage → ℕ → Time → ConsumerMessage
delivered m offset time = record { key = m.key; value = m.value; offset = offset; timestamp = time }

-- If `AddVocal` succeeds on a message stored at an offset and a time, it gave the posts' producer
-- one more message, and the publishing node converts that message, delivered with this offset and
-- time, to the very post that `AddVocal` returned.
pub add_vocal-delivered :
    (codec : Codec PostDeclaration) (publisher : Publisher) (vocal : PostDeclaration) (offset : ℕ)
    (time : Time) (inputs : Inputs) (post : Post)
    → IsFaithful codec
    → (add_vocal codec publisher vocal (stored offset time) inputs).1 ≡ ok post
    → (m : ProducerMessage) × ((add_vocal codec publisher vocal (stored offset time) inputs).0
        ≡ record inputs { posts = inputs.posts ++ m ∷ [] })
      × (m.topic ≡ publisher.posts_stream.topic)
      × (convert_vocal_declaration codec (delivered m offset time) ≡ ok post)
unfolding add_vocal push serialize answer_of convert_vocal_declaration
add_vocal-delivered codec publisher vocal offset time inputs post faithful h =
    elim (Outcome-cases (codec.marshal vocal)) [
      | inl (value, e) ↦ (
        record {
          topic = publisher.posts_stream.topic;
          key = publisher.posts_stream.key;
          value = value;
        },
        ground arith,
        refl,
        ground (arith, faithful vocal value e),
      )
      | inr (inl (f, e)) ↦ ground arith
      | inr (inr e) ↦ ground arith
    ]

-- If `AppendMessage` succeeds, it gave the messages' producer one more message, from which the
-- publishing node reads the same post, message, author and bytes.
pub append_message-delivered :
    (codec : Codec PublisherMessageData) (publisher : Publisher) (id post : ℕ) (user : User)
    (chunk : Bytes) (inputs : Inputs) (offset : ℕ) (time : Time)
    → IsFaithful codec
    → (append_message codec publisher id post user chunk inputs).1 ≡ ok tt
    → (m : ProducerMessage) × ((append_message codec publisher id post user chunk inputs).0
        ≡ record inputs { messages = inputs.messages ++ m ∷ [] })
      × (m.topic ≡ publisher.messages_stream.topic)
      × (convert_message_data codec (delivered m offset time)
          ≡ ok (record { post = post; id = id; author = user.id; chunk = chunk }))
unfolding append_message push_async serialize convert_message_data
append_message-delivered codec publisher id post user chunk inputs offset time faithful h =
    let sent : PublisherMessageData = record {
      post = post;
      id = id;
      author = user.id;
      chunk = chunk;
    } in
    elim (Outcome-cases (codec.marshal sent)) [
      | inl (value, e) ↦ (
        record {
          topic = publisher.messages_stream.topic;
          key = publisher.messages_stream.key;
          value = value;
        },
        ground arith,
        refl,
        ground (arith, faithful sent value e),
      )
      | inr (inl (f, e)) ↦ ground arith
      | inr (inr e) ↦ ground arith
    ]
