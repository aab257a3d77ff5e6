-- ===== src/Node/Publishing.antt =====
-- publisher/main.go, with the access point and the readers of the posts: which posts are announced.
use au10_service.Prelude.{
  ◌≡◌, refl, ◌∙◌, ◌≢◌, none, some, List, [], ◌∷◌, ◌++◌, arith, length, All, Outcome, ok, err, panic,
  ◌∙◌,
}
use au10_service.Node.Storing.{store_post-ok}
use au10_service.Node.{
  Check, Node, NodeEvent, NodeState, Turn, check_message, crashed, crashed_turn, go_on, handle,
  message_record, messages_failed, next, passed, post_record, posts_failed, publish_stored, refused,
  serve, stopped, store_message, store_post, stream_closed, after_store, chunk_stored, checked,
}
use au10_service.Au10.Post.{GeoPoint, Post}
use au10_service.Node.Storing.{IsHealthy}
use au10_service.Au10.Writer.{ProducerMessage, push_async, serialize}
use au10_service.Au10.Publisher.{PublisherMessageData}
use au10_service.PostDb.Action.{Store}
use au10_service.Au10.Posts.{push_vocal}
use au10_service.Text.{Bytes}
use au10_service.Text.Errors.{Error}

-- A post with messages, or no post.
abbrev pub HasMessages : NodeEvent → Type 0
HasMessages (post_record post) = length post.content.messages ≢ 0
HasMessages _ = Unit

after_store-unpublished :
    (node : Node) (post : Post) (state : NodeState) (r : Store × Outcome Error (Unit {0}))
    → length post.content.messages ≢ 0
    → (after_store node post state r).0.published ≡ state.published
unfolding publish_stored
after_store-unpublished node post state (s, ok u) many = ground arith
after_store-unpublished node post state (s, err e) many = refl
after_store-unpublished node post state (s, panic) many = refl

chunk_stored-unpublished :
    (node : Node) (message : PublisherMessageData) (state : NodeState)
    (r : Store × Outcome Error (Unit {0}))
    → (chunk_stored node message state r).0.published ≡ state.published
chunk_stored-unpublished node message state (s, ok u) = refl
chunk_stored-unpublished node message state (s, err e) = refl
chunk_stored-unpublished node message state (s, panic) = refl

checked-unpublished :
    (node : Node) (message : PublisherMessageData) (state : NodeState) (check : Check)
    → (checked node message state check).0.published ≡ state.published
checked-unpublished node message state (passed user) =
    chunk_stored-unpublished node message state (store_message node.db message state.store)
checked-unpublished node message state (refused none e) = refl
checked-unpublished node message state (refused (some user) e) = refl
checked-unpublished node message state crashed = refl

handle-unpublished :
    (node : Node) (event : NodeEvent) (state : NodeState)
    → HasMessages event
    → (handle node event state).0.published ≡ state.published
unfolding handle
handle-unpublished node (post_record post) state many =
    after_store-unpublished node post state (store_post node.db post state.store) many
handle-unpublished node (message_record message) state many =
    checked-unpublished node message state
      (check_message node.db node.users node.posts_membership message state.store.history)
handle-unpublished node stream_closed state many = refl
handle-unpublished node (posts_failed e) state many = refl
handle-unpublished node (messages_failed e) state many = refl

go_on-unpublished :
    (r : NodeState × Turn) (loop : NodeState → NodeState × Turn) (published : List ProducerMessage)
    → r.0.published ≡ published
    → ((state : NodeState) → (loop state).0.published ≡ state.published)
    → (go_on r loop).0.published ≡ published
go_on-unpublished (state, next) loop published same later = later state ∙ same
go_on-unpublished (state, stopped) loop published same later = same
go_on-unpublished (state, crashed_turn) loop published same later = same

-- A post with messages is never announced to the readers of the posts: whatever posts of this kind
-- and whatever chunks of messages come, and even if the last chunk of a message is among them, the
-- run gives the notifier nothing.
pub serve-unpublished :
    (node : Node) (events : List NodeEvent) (state : NodeState)
    → All HasMessages events
    → (serve node events state).0.published ≡ state.published
unfolding serve
serve-unpublished node [] state all = refl
serve-unpublished node (event ∷ events) state (many, all) =
    go_on-unpublished (handle node event state) (serve node events) state.published
      (handle-unpublished node event state many) (λ later. serve-unpublished node events later all)

-- A post without messages, with a place, whose storing succeeds.
pub handle-published :
    (node : Node) (post : Post) (place : GeoPoint) (state : NodeState) (value : Bytes)
    → IsHealthy node.db
    → post.content.location ≡ some place
    → post.content.messages ≡ []
    → node.post_codec.marshal post.content ≡ ok value
    → (handle node (post_record post) state).0.published
      ≡ state.published
        ++ record { topic = node.notifier.topic; key = node.notifier.key; value = value } ∷ []
unfolding handle publish_stored push_vocal push_async serialize
handle-published node post place state value healthy found bare written =
    let (stored, whole) = store_post-ok node.db post place state.store healthy found in
    ground (arith, stored, bare, written)
