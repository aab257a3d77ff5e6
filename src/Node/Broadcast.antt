-- ===== src/Node/Broadcast.antt =====
-- accesspoint/lib, publisher/main.go and au10: the way of a post without messages, from the request
-- of its author to the readers of the posts.
use au10_service.Prelude.{ℕ, ◌≡◌, refl, ap, true, Option, some, List, [], ◌∷◌, ◌++◌, arith, ok, ap}
use au10_service.Au10.Post.{PostDeclaration}
use au10_service.Text.{codes}
use au10_service.Node.Publishing.{handle-published}
use au10_service.Au10.Group.{new_membership}
use au10_service.AccessPoint.Requests.Vocals.{vocal_to_proto-declared}
use au10_service.AccessPoint.Client.{Client}
use au10_service.Au10.Codec.{IsFaithful}
use au10_service.Node.Storing.{IsHealthy}
use au10_service.Node.{Node, NodeState, handle, post_record}
use au10_service.Au10.Post.{Post, Time, new_new_vocal, number_messages, u32}
use au10_service.AccessPoint.Convertor.{PostAddRequest, ProtoGeoPoint, ProtoPost, VocalAddRequest}
use au10_service.Au10.Writer.{ProducerMessage, stored}
use au10_service.AccessPoint.Action.{World}
use au10_service.AccessPoint.Requests.{add_vocal}
use au10_service.AccessPoint.Requests.Vocals.{response, add_vocal_accepted, declared}
use au10_service.Au10.Publisher.{convert_vocal_declaration}
use au10_service.Au10.Posts.{convert_vocal_record}
use au10_service.Au10.Publisher.Delivery.{delivered}
use au10_service.Au10.Group.{is_allowed}
use au10_service.AccessPoint.Subscription.{posts_send_next, taken, vocal}
use au10_service.Text.{Bytes, codes}
use au10_service.Text.Errors.{Error}

-- The author's request as `AddVocal` is called with it, at the caller's place.
abbrev pub bare_request : ProtoGeoPoint → VocalAddRequest
bare_request l = record { post = some (record { location = some l; messages = [] }) }

abbrev pub bare_post : ProtoGeoPoint → PostAddRequest
bare_post l = record { location = some l; messages = [] }

-- What the author is answered.
abbrev pub answered : Client → ProtoGeoPoint → ℕ → Time → ProtoPost
answered client l offset time = response client (bare_post l) l offset time

-- The post that the node makes of the author's message.
abbrev pub made : Client → ProtoGeoPoint → ℕ → Time → Post
made client l offset time = new_new_vocal (u32 offset) time (declared client (bare_post l) l)

module _ (client : Client) (l : ProtoGeoPoint) (offset : ℕ) (time : Time) (w : World) (node : Node)
    (state : NodeState) (offset' : ℕ) (time' : Time) (send : ProtoPost → Option Error)
    (sent : List ProtoPost) where
  -- `m` is what the access point gives to Kafka, `n` what the node gives to Kafka, `seen` what a
  -- reader of the posts gets.
  abbrev pub IsBroadcast : World → Type 0
  IsBroadcast w' =
      (m : ProducerMessage) × (post : Post) × (n : ProducerMessage) × (seen : Post)
      × (w'.inputs.posts ≡ w.inputs.posts ++ m ∷ [])
      × (convert_vocal_declaration client.service.declaration_codec (delivered m offset time)
          ≡ ok post)
      × ((handle node (post_record post) state).0.published ≡ state.published ++ n ∷ [])
      × (convert_vocal_record node.post_codec (delivered n offset' time') ≡ ok seen)
      × (posts_send_next send (taken (vocal seen)) sent
          ≡ ok (
            sent ++ answered client l offset time ∷ [],
            (true, send (answered client l offset time)),
          ))

  converted :
      (decl : PostDeclaration) (value : Bytes)
      → client.service.declaration_codec.marshal decl ≡ ok value
      → IsFaithful client.service.declaration_codec
      → convert_vocal_declaration client.service.declaration_codec (record {
        key = client.service.publisher.posts_stream.key;
        value = value;
        offset = offset;
        timestamp = time;
      })
        ≡ ok (new_new_vocal (u32 offset) time decl)
  unfolding convert_vocal_declaration
  converted decl value written reads = ground (arith, reads decl value written)

  read_back :
      (value : Bytes)
      → node.post_codec.marshal (made client l offset time).content ≡ ok value
      → IsFaithful node.post_codec
      → convert_vocal_record node.post_codec
          (record { key = node.notifier.key; value = value; offset = offset'; timestamp = time' })
        ≡ ok (record {
          membership = new_membership (codes "") (codes "");
          content = (made client l offset time).content;
        })
  unfolding convert_vocal_record
  read_back value written reads =
      ground (arith, reads (made client l offset time).content value written)

  sent_on :
      posts_send_next send
        (taken (
          vocal (record {
            membership = new_membership (codes "") (codes "");
            content = (made client l offset time).content;
          })))
        sent
      ≡ ok
          (sent ++ answered client l offset time ∷ [], (true, send (answered client l offset time)))
  unfolding posts_send_next
  sent_on = ground (
    arith,
    vocal_to_proto-declared client (bare_post l) l offset time
        (new_membership (codes "") (codes "")),
  )

  -- A vocal without messages of a caller who may publish. If both records can be marshalled and what
  -- is marshalled is read back, Kafka stores and delivers both messages and the database does not
  -- fail, then the author gets an answer, and every reader of the posts is sent exactly this answer.
  pub vocal-IsBroadcast :
      (value value' : Bytes)
      → is_allowed client.service.publisher.membership client.user.rights ≡ true
      → client.service.declaration_codec.marshal (declared client (bare_post l) l) ≡ ok value
      → IsFaithful client.service.declaration_codec
      → node.post_codec.marshal (made client l offset time).content ≡ ok value'
      → IsFaithful node.post_codec
      → IsHealthy node.db
      → ((add_vocal client (bare_request l) (stored offset time) w).1
          ≡ ok (answered client l offset time))
        × IsBroadcast (add_vocal client (bare_request l) (stored offset time) w).0
  unfolding new_new_vocal number_messages
  vocal-IsBroadcast value value' allowed written reads written' reads' healthy =
      let decl = declared client (bare_post l) l in
      let (answer, inputs) =
        add_vocal_accepted client (bare_request l) (bare_post l) l value offset time w refl refl tt
          allowed written in
      (
        answer,
        (
          record {
            topic = client.service.publisher.posts_stream.topic;
            key = client.service.publisher.posts_stream.key;
            value = value;
          },
          made client l offset time,
          record { topic = node.notifier.topic; key = node.notifier.key; value = value' },
          record {
            membership = new_membership (codes "") (codes "");
            content = (made client l offset time).content;
          },
          ap (λ i. i.posts) inputs,
          converted decl value written reads,
          handle-published node (made client l offset time)
              (record { latitude = l.latitude; longitude = l.longitude }) state value' healthy refl
              refl written',
          read_back value' written' reads',
          sent_on,
        ),
      )
