-- ===== src/Node/Uploading.antt =====
-- accesspoint/lib, publisher/main.go and postdb/db.go: the way of a chunk of a message, from the
-- request of its author to the database.
use au10_service.PostDb.Action.{append_message, exec, begin}
use au10_service.Text.{Bytes}
use au10_service.AccessPoint.Client.{Client}
use au10_service.AccessPoint.Requests.Chunks.{IsPublisher, accepted}
use au10_service.AccessPoint.Requests.Chunks.Steps.{Fits, Names, record_of}
use au10_service.Au10.Codec.{IsFaithful}
use au10_service.AccessPoint.Requests.{MessageChunkWriteRequest, write_message_chunk}
use au10_service.Node.{NodeEvent, Turn, crashed_turn, go_on, serve, stopped}
use au10_service.Au10.Writer.{ProducerMessage}
use au10_service.Au10.Post.{Time}
use au10_service.AccessPoint.Action.{World}
use au10_service.Au10.Publisher.{convert_message_data}
use au10_service.Au10.Publisher.Delivery.{delivered}
use au10_service.Au10.Posts.{get_vocal}
use au10_service.PostDb.Action.{insert_post}
use au10_service.PostDb.Rows.{messages_of-append}
use au10_service.PostDb.Rows.{IsRelational, author_of-append, get_vocal-found}
use au10_service.Node.Checking.{MayAdd, check_message_iff}
use au10_service.Au10.User.{User}
use au10_service.Au10.Users.{get_user}
use au10_service.Au10.Group.{is_allowed, new_membership}
use au10_service.Node.{message_record}
use au10_service.Node.Storing.{finish-commit, store_message-AllOrNothing}
use au10_service.Prelude.{
  ℕ, ◌≡◌, refl, sym, ap, subst, ◌∙◌, ◌≢◌, inl, inr, true, none, some, List, [], ◌∷◌, ◌++◌, map,
  arith, length, All, ok, sym, subst, ◌∙◌, ap,
}
use au10_service.Au10.Post.{DbMessage, GeoPoint, MessageData, Post, message_kind_text}
use au10_service.Node.Storing.{IsHealthy, message_statement, statements_at, store_post-ok}
use au10_service.Au10.Post.Messages.{IsText}
use au10_service.Node.{Node, NodeState, handle, next, post_record, publish_stored, store_message}
use au10_service.PostDb.{PgDb, ask, begin_trans, run_statement}
use au10_service.Au10.Publisher.{PublisherMessageData}
use au10_service.PostDb.Action.{Store}
use au10_service.PostDb.Table.{applied}
use au10_service.PostDb.Rows.{author_of, messages_of}

-- Nothing of this identifier is stored.
abbrev pub IsFresh : ℕ → Store → Type 0
IsFresh id s = (author_of id (applied s) ≡ none) × (messages_of id (applied s) ≡ [])

abbrev IsTextData : MessageData → Type 0
IsTextData m = m.kind ≡ message_kind_text

messages_of-map :
    (id : ℕ) (ms : List MessageData)
    → All {A = MessageData} IsTextData ms
    → All {A = DbMessage} IsText (messages_of id (map (message_statement id) ms))
messages_of-map id [] all = tt
messages_of-map id (m ∷ ms) all = ground (arith, messages_of-map id ms all.1)

store_message-ok :
    (db : PgDb) (message : PublisherMessageData) (s : Store)
    → IsHealthy db
    → ((store_message db message s).1 ≡ ok tt)
      × (applied (store_message db message s).0
          ≡ applied s ++ append_message message.post message.id message.chunk ∷ [])
unfolding store_message begin_trans run_statement ask
store_message-ok db message s healthy = elim (store_message-AllOrNothing db message s) [
  | inl whole ↦ whole
  | inr (lost, same) ↦ absurd (
      lost (
        rw
          (
            healthy s.history begin,
            healthy _ (exec (append_message message.post message.id message.chunk)),
          )
          (finish-commit db _ healthy refl refl)))
]

-- What is committed when a post was handled.
handle-stored :
    (node : Node) (post : Post) (place : GeoPoint) (state : NodeState)
    → IsHealthy node.db
    → post.content.location ≡ some place
    → length post.content.messages ≢ 0
    → ((handle node (post_record post) state).1 ≡ next)
      × (applied (handle node (post_record post) state).0.store
          ≡ applied state.store ++ statements_at post (some place))
unfolding handle publish_stored
handle-stored node post place state healthy found many =
    let (done, whole) = store_post-ok node.db post place state.store healthy found in
    ground (arith, done, whole)

-- What is committed when a chunk was handled that may be added.
handle-filed :
    (node : Node) (message : PublisherMessageData) (user : User) (state : NodeState)
    → IsHealthy node.db
    → MayAdd node.db node.users node.posts_membership message state.store.history user
    → ((handle node (message_record message) state).1 ≡ next)
      × (applied (handle node (message_record message) state).0.store
          ≡ applied state.store ++ append_message message.post message.id message.chunk ∷ [])
unfolding handle
handle-filed node message user state healthy may =
    let (done, whole) = store_message-ok node.db message state.store healthy in
    rw
      ((check_message_iff node.db node.users node.posts_membership message state.store.history
          user).1
        may)
      (ground (arith, done, whole))

module _ (node : Node) (post : Post) (place : GeoPoint) (state : NodeState) where
  -- What is asked of a post and of the database: the post has a place and at least one message, its
  -- messages are texts, and nothing is stored yet under its identifier.
  pub record IsNewPost : Type 0 where
    pub placed : post.content.location ≡ some place
    pub has_messages : length post.content.messages ≢ 0
    pub texts : All {A = MessageData} IsTextData post.content.messages
    pub fresh : IsFresh post.content.id state.store

  stored_texts :
      IsHealthy node.db
      → IsNewPost
      → All {A = DbMessage} IsText
          (messages_of post.content.id (applied (handle node (post_record post) state).0.store))
  stored_texts healthy new =
      let rest = map (message_statement post.content.id) post.content.messages in
      let first = insert_post post.content.id post.content.author place.latitude place.longitude in
      subst (All {A = DbMessage} IsText)
        (sym (
          ap (messages_of post.content.id)
            (handle-stored node post place state healthy new.placed new.has_messages).1
          ∙ messages_of-append post.content.id (applied state.store) (first ∷ rest)
          ∙ ap (λ ms. ms ++ messages_of post.content.id rest) new.fresh.1))
        (messages_of-map post.content.id post.content.messages new.texts)

  -- An author who may use posts may add to a post that was just handled.
  stored-MayAdd :
      (message : PublisherMessageData) (user : User)
      → IsHealthy node.db
      → IsRelational node.db
      → IsNewPost
      → message.post ≡ post.content.id
      → get_user node.users message.author ≡ ok user
      → is_allowed node.posts_membership user.rights ≡ true
      → is_allowed (new_membership [] []) user.rights ≡ true
      → MayAdd node.db node.users node.posts_membership message
          (handle node (post_record post) state).0.store.history
          user
  stored-MayAdd message user healthy selects new same known posts inside =
      let whole = (handle-stored node post place state healthy new.placed new.has_messages).1 in
      let rest = map (message_statement post.content.id) post.content.messages in
      let (found, read, open_to) =
        get_vocal-found node.db (handle node (post_record post) state).0.store.history
          post.content.id post.content.author selects
          (ap (author_of post.content.id) whole
            ∙ author_of-append post.content.id post.content.author place.latitude place.longitude
                (applied state.store) rest new.fresh.0)
          (stored_texts healthy new) in
      (
        known,
        posts,
        (
          found,
          subst
              (λ p.
                get_vocal node.db (handle node (post_record post) state).0.store.history p
                ≡ ok found)
              (sym same) read,
          subst (λ m. is_allowed m user.rights ≡ true) (sym open_to) inside,
        ),
      )

go_on-next :
    (r : NodeState × Turn) (loop : NodeState → NodeState × Turn)
    → r.1 ≡ next
    → go_on r loop ≡ loop r.0
go_on-next (state, next) loop same = refl
go_on-next (state, stopped) loop same = ground (arith, same)
go_on-next (state, crashed_turn) loop same = ground (arith, same)

serve-two :
    (node : Node) (first second : NodeEvent) (state : NodeState)
    → (handle node first state).1 ≡ next
    → (handle node second (handle node first state).0).1 ≡ next
    → serve node (first ∷ second ∷ []) state
      ≡ ((handle node second (handle node first state).0).0, next)
unfolding serve
serve-two node first second state done done' =
    go_on-next (handle node first state) (serve node (second ∷ [])) done
    ∙ go_on-next (handle node second (handle node first state).0) (serve node []) done'

module _ (node : Node) (post : Post) (place : GeoPoint) (state : NodeState) (client : Client)
    (request : MessageChunkWriteRequest) (id : ℕ) (w : World) (offset : ℕ) (time : Time) where
  -- `m` is what the access point gives to Kafka. The node reads from it the chunk of this author, and
  -- what it commits are the statements of the post and, behind them, one statement to append the chunk.
  -- That statement has the identifiers of post and message in each other's place, as `storeMessage`
  -- gives them, so it is not said that it finds a row.
  abbrev pub IsFiled : World → Type 0
  IsFiled w' =
      (m : ProducerMessage) × (w'.inputs.messages ≡ w.inputs.messages ++ m ∷ [])
      × (convert_message_data client.service.chunk_codec (delivered m offset time)
          ≡ ok (record_of client request id post.content.id))
      × ((serve node
            (post_record post ∷ message_record (record_of client request id post.content.id) ∷ [])
            state).1
          ≡ next)
      × (applied
            (serve node
              (post_record post ∷ message_record (record_of client request id post.content.id) ∷ [])
              state).0.store
          ≡ applied state.store
            ++ statements_at post (some place)
            ++ append_message post.content.id id request.chunk ∷ [])

  converted :
      (value : Bytes)
      → client.service.chunk_codec.marshal (record_of client request id post.content.id) ≡ ok value
      → IsFaithful client.service.chunk_codec
      → convert_message_data client.service.chunk_codec (record {
        key = client.service.publisher.messages_stream.key;
        value = value;
        offset = offset;
        timestamp = time;
      })
        ≡ ok (record_of client request id post.content.id)
  unfolding convert_message_data
  converted value written reads =
      ground (arith, reads (record_of client request id post.content.id) value written)

  -- A chunk that fits, of a caller who may publish, for a post that the node takes just before it.
  -- The post has a place and messages, all of them texts, and nothing is stored under its identifier;
  -- the database does not fail and answers queries by what is committed; the node knows the caller,
  -- who may use posts and is let in by the default membership; the record can be marshalled, and what
  -- is marshalled is read back. Then the request succeeds, the access point gives Kafka one message,
  -- the node reads this very chunk from it, and when it has handled the post and the chunk it goes on,
  -- and the statements that it has committed are the insertions of the post and of all its messages
  -- and, last, one statement that appends this chunk. That statement has the identifiers of the post
  -- and of the message in each other's place, and appends to a column that is null: this says that it
  -- is issued and committed, not that the bytes are then in the database.
  pub chunk-IsFiled :
      (value : Bytes)
      → IsHealthy node.db
      → IsRelational node.db
      → IsNewPost node post place state
      → Fits client request
      → IsPublisher client
      → Names request id post.content.id
      → client.service.chunk_codec.marshal (record_of client request id post.content.id) ≡ ok value
      → IsFaithful client.service.chunk_codec
      → get_user node.users client.user.id ≡ ok client.user
      → is_allowed node.posts_membership client.user.rights ≡ true
      → is_allowed (new_membership [] []) client.user.rights ≡ true
      → ((write_message_chunk client request w).1 ≡ ok tt)
        × IsFiled (write_message_chunk client request w).0
  chunk-IsFiled value healthy selects new fits publishes names written reads known posts inside =
      let chunk = record_of client request id post.content.id in
      let (answer, inputs) =
        accepted client request id post.content.id value w fits publishes names written in
      let (stored_next, stored_whole) =
        handle-stored node post place state healthy new.placed new.has_messages in
      let may =
        stored-MayAdd node post place state chunk client.user healthy selects new refl known posts
          inside in
      let (filed_next, filed_whole) =
        handle-filed node chunk client.user (handle node (post_record post) state).0 healthy may in
      let both =
        serve-two node (post_record post) (message_record chunk) state stored_next filed_next in
      (
        answer,
        (
          record {
            topic = client.service.publisher.messages_stream.topic;
            key = client.service.publisher.messages_stream.key;
            value = value;
          },
          ap (λ i. i.messages) inputs,
          converted value written reads,
          ap (λ r. r.1) both,
          ap (λ r. applied r.0.store) both
              ∙ filed_whole
              ∙ ap (λ done. done ++ append_message post.content.id id request.chunk ∷ [])
                  stored_whole,
        ),
      )
