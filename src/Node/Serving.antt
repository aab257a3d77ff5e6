-- ===== src/Node/Serving.antt =====
-- publisher/main.go: a run of the main loop, and what it leaves in the database.
use au10_service.Prelude.{
  ◌≡◌, refl, sym, ap, ◌∙◌, inl, inr, none, some, List, [], ◌∷◌, ◌++◌, arith, ◌==◌, Bool-cases,
  length, Outcome, ok, err, panic, append_assoc, append-nil, sym, ◌∙◌, ap,
}
use au10_service.Text.Errors.{Error}
use au10_service.Au10.User.{User}
use au10_service.Au10.Post.{Post}
use au10_service.Au10.Publisher.{PublisherMessageData}
use au10_service.PostDb.Action.{Statement, Store, append_message}
use au10_service.PostDb.Table.{applied, AllOrNothing}
use au10_service.Node.{
  Node, NodeState, NodeEvent, Turn, Check, passed, refused, crashed, check_message, handle, serve,
  go_on, stream_closed, posts_failed, messages_failed, post_record, message_record, next, stopped,
  crashed_turn, store_post, store_message, publish_stored, post_record, message_record,
  ProducerMessage, push_vocal, after_store, chunk_stored, checked, posts_failed, notified,
  messages_failed,
}
use au10_service.Node.Storing.{post_statements, store_post-AllOrNothing, store_message-AllOrNothing}

-- What one event may leave in the database: a post's statements, or a chunk that passed the check,
-- or nothing.
pub data Leaves (node : Node) (state : NodeState) : NodeEvent → List Statement → Type 0 where
  nothing : {event : NodeEvent} → Leaves node state event []
  whole_post : {post : Post} → Leaves node state (post_record post) (post_statements post)
  allowed_chunk :
      {message : PublisherMessageData} {user : User}
      → check_message node.db node.users node.posts_membership message state.store.history
        ≡ passed user
      → Leaves node state
          (message_record message)
          (append_message message.post message.id message.chunk ∷ [])

-- What a run may leave: what its events leave, one after the other, up to where it ends.
pub data RunLeaves (node : Node) : NodeState → List NodeEvent → List Statement → Type 0 where
  ended : {state : NodeState} {events : List NodeEvent} → RunLeaves node state events []
  turn :
      {state later : NodeState} {event : NodeEvent} {events : List NodeEvent}
      {first rest : List Statement}
      → Leaves node state event first
      → (handle node event state).0 ≡ later
      → RunLeaves node later events rest
      → RunLeaves node state (event ∷ events) (first ++ rest)

abbrev Adds : Node → NodeEvent → NodeState → NodeState × Turn → Type 0
Adds node event state r =
    (added : List Statement) × (applied r.0.store ≡ applied state.store ++ added)
    × Leaves node state event added

notified-applied :
    (node : Node) (post : Post) (state : NodeState)
    (r : List ProducerMessage × Outcome Error (Unit {0}))
    → applied (notified node post state r).0.store ≡ applied state.store
notified-applied node post state (published, ok u) = refl
notified-applied node post state (published, err e) = refl
notified-applied node post state (published, panic) = refl

publish_stored-applied :
    (node : Node) (post : Post) (state : NodeState)
    → applied (publish_stored node post state).0.store ≡ applied state.store
unfolding publish_stored
publish_stored-applied node post state = elim (Bool-cases (length post.content.messages == 0)) [
  | inl e ↦ rw e (
      notified-applied node post state
        (push_vocal node.post_codec node.notifier post state.published))
  | inr e ↦ rw e refl
]

stored-Adds :
    (node : Node) (post : Post) (state : NodeState) (r : Store × Outcome Error (Unit {0}))
    → AllOrNothing state.store r (post_statements post)
    → Adds node (post_record post) state (after_store node post state r)
stored-Adds node post state (s, ok u) (inl (done, whole)) =
    (post_statements post, publish_stored-applied node post _ ∙ whole, whole_post)
stored-Adds node post state (s, ok u) (inr (lost, same)) = absurd (lost refl)
stored-Adds node post state (s, err e) (inl (done, whole)) = absurd (ground arith)
stored-Adds node post state (s, err e) (inr (lost, same)) = ([], same ∙ sym (append-nil _), nothing)
stored-Adds node post state (s, panic) (inl (done, whole)) = absurd (ground arith)
stored-Adds node post state (s, panic) (inr (lost, same)) = ([], same ∙ sym (append-nil _), nothing)

chunk_stored-Adds :
    (node : Node) (message : PublisherMessageData) (state : NodeState) {user : User}
    (r : Store × Outcome Error (Unit {0}))
    → check_message node.db node.users node.posts_membership message state.store.history
      ≡ passed user
    → AllOrNothing state.store r (append_message message.post message.id message.chunk ∷ [])
    → Adds node (message_record message) state (chunk_stored node message state r)
chunk_stored-Adds node message state (s, ok u) allowed (inl (done, whole)) =
    (_, whole, allowed_chunk allowed)
chunk_stored-Adds node message state (s, ok u) allowed (inr (lost, same)) = absurd (lost refl)
chunk_stored-Adds node message state (s, err e) allowed (inl (done, whole)) = absurd (ground arith)
chunk_stored-Adds node message state (s, err e) allowed (inr (lost, same)) =
    ([], same ∙ sym (append-nil _), nothing)
chunk_stored-Adds node message state (s, panic) allowed (inl (done, whole)) = absurd (ground arith)
chunk_stored-Adds node message state (s, panic) allowed (inr (lost, same)) =
    ([], same ∙ sym (append-nil _), nothing)

checked-Adds :
    (node : Node) (message : PublisherMessageData) (state : NodeState) (check : Check)
    → check_message node.db node.users node.posts_membership message state.store.history ≡ check
    → Adds node (message_record message) state (checked node message state check)
checked-Adds node message state (passed user) same =
    chunk_stored-Adds node message state {user = user} (store_message node.db message state.store)
      same (store_message-AllOrNothing node.db message state.store)
checked-Adds node message state (refused none e) same = ([], sym (append-nil _), nothing)
checked-Adds node message state (refused (some user) e) same = ([], sym (append-nil _), nothing)
checked-Adds node message state crashed same = ([], sym (append-nil _), nothing)

handle-Adds :
    (node : Node) (event : NodeEvent) (state : NodeState)
    → Adds node event state (handle node event state)
unfolding handle
handle-Adds node (post_record post) state =
    stored-Adds node post state (store_post node.db post state.store)
      (store_post-AllOrNothing node.db post state.store)
handle-Adds node (message_record message) state = checked-Adds node message state _ refl
handle-Adds node stream_closed state = ([], sym (append-nil _), nothing)
handle-Adds node (posts_failed e) state = ([], sym (append-nil _), nothing)
handle-Adds node (messages_failed e) state = ([], sym (append-nil _), nothing)

abbrev RunAdds : Node → List NodeEvent → NodeState → NodeState × Turn → Type 0
RunAdds node events state r =
    (added : List Statement) × (applied r.0.store ≡ applied state.store ++ added)
    × RunLeaves node state events added

go_on-RunAdds :
    (node : Node) (event : NodeEvent) (events : List NodeEvent) (state : NodeState)
    (r : NodeState × Turn) (loop : NodeState → NodeState × Turn)
    → (handle node event state).0 ≡ r.0
    → Adds node event state r
    → ((later : NodeState) → RunAdds node events later (loop later))
    → RunAdds node (event ∷ events) state (go_on r loop)
go_on-RunAdds node event events state (later, next) loop same (first, grown, leaves) run =
    let (rest, more, left) = run later in
    (
      first ++ rest,
      more
          ∙ ap (λ statements. statements ++ rest) grown
          ∙ append_assoc (applied state.store) first rest,
      turn leaves same left,
    )
go_on-RunAdds node event events state (later, stopped) loop same (first, grown, leaves) run = (
  first ++ [],
  grown ∙ ap (λ added. applied state.store ++ added) (sym (append-nil first)),
  turn leaves same ended,
)
go_on-RunAdds node event events state (later, crashed_turn) loop same (first, grown, leaves) run = (
  first ++ [],
  grown ∙ ap (λ added. applied state.store ++ added) (sym (append-nil first)),
  turn leaves same ended,
)

-- A run of the main loop, on any events and whatever the driver answers, adds to the database, in
-- the order of its events, whole posts and chunks that passed `checkMessage`, and nothing else.
pub serve-RunLeaves :
    (node : Node) (events : List NodeEvent) (state : NodeState)
    → (added : List Statement) × (applied (serve node events state).0.store
        ≡ applied state.store ++ added)
      × RunLeaves node state events added
unfolding serve
serve-RunLeaves node [] state = ([], sym (append-nil _), ended)
serve-RunLeaves node (event ∷ events) state =
    go_on-RunAdds node event events state (handle node event state) (serve node events) refl
      (handle-Adds node event state) (serve-RunLeaves node events)
