-- ===== src/Node.antt =====
-- publisher/main.go: the node that stores what the access point published. The records of its two
-- streams come as a list of events, in the order in which the select of the main loop takes them.
pub mod Storing
pub mod Checking
pub mod Serving
pub mod Publishing
pub mod Broadcast
pub mod Uploading
use au10_service.Prelude.{
  ℕ, not, Option, none, some, List, [], ◌∷◌, ◌==◌, if◌then◌else◌, length, Outcome, ok, err, panic,
  deref, deref,
}
use au10_service.Text.{Bytes, codes}
use au10_service.Text.Errors.{Error, text, error_text}
use au10_service.Text.Format.{str, num}
use au10_service.Au10.Group.{Group, is_allowed}
use au10_service.Au10.User.{User, block_by_protocol_mismatch}
use au10_service.Au10.Users.{get_user}
use au10_service.Au10.Log.{LogService, Journal}
use au10_service.Au10.Log
use au10_service.Au10.Post.{Post, PostData, MessageData}
use au10_service.Au10.Codec.{Codec}
use au10_service.Au10.Writer.{StreamWriter, ProducerMessage}
use au10_service.Au10.Publisher.{PublisherMessageData}
use au10_service.Au10.Posts.{get_vocal, push_vocal}
use au10_service.PostDb.Action.{
  History, Store, DbAction, insert_post, insert_message, append_message, ◌>>=◌, ◌>>◌, lift,
  deferring,
}
use au10_service.PostDb.{PgDb, begin_trans, commit_trans, rollback_trans, run_statement}

-- The loop of `storePost`.
unfoldable pub insert_messages : PgDb → ℕ → List MessageData → DbAction (Unit {0})
insert_messages db post [] s = (s, ok tt)
insert_messages db post (m ∷ ms) s =
    (run_statement db (insert_message m.id post m.kind m.size) >> insert_messages db post ms) s

unfoldable pub store_post : PgDb → Post → DbAction (Unit {0})
store_post db post = do
  begin_trans db
  deferring (rollback_trans db) (do
    location ← lift (deref post.content.location)
    run_statement db
        (insert_post post.content.id post.content.author location.latitude location.longitude)
    insert_messages db post.content.id post.content.messages
    commit_trans db)

-- `storeMessage`, with the arguments of `AppendMessage` as the source gives them.
unfoldable pub store_message : PgDb → PublisherMessageData → DbAction (Unit {0})
store_message db message = do
  begin_trans db
  deferring (rollback_trans db)
      (do run_statement db (append_message message.post message.id message.chunk); commit_trans db)

-- What `checkMessage` returns: a user and no error, or an error and perhaps a user, or it panics.
pub data Check : Type 0 where
  passed : User → Check
  refused : Option User → Error → Check
  crashed : Check

unfoldable pub check_message : PgDb → List User → Group → PublisherMessageData → History → Check
check_message db users posts_membership message history = elim (get_user users message.author) [
  | err e ↦ refused none e
  | panic ↦ crashed
  | ok user ↦
      if not (is_allowed posts_membership user.rights)
      then refused (some user) (text (codes "permission denied for posts"))
      else elim (get_vocal db history message.post) [
        | err e ↦ refused none e
        | panic ↦ crashed
        | ok post ↦
            if not (is_allowed post.membership user.rights)
            then refused (some user) (text (codes "permission denied for post"))
            else passed user
      ]
]

-- What `main` gives to `postdb.Dial` for fatal errors.
unfoldable pub on_db_error : LogService → Error → Journal → Journal × Outcome Error (Unit {0})
on_db_error log e = Log.fatal log (codes "DB error: \"%s\".") (str (error_text e) ∷ [])

-- What the main loop works with.
pub record Node : Type 0 where
  pub db : PgDb
  pub log : LogService
  pub users : List User
  pub posts_membership : Group
  pub post_codec : Codec PostData
  pub notifier : StreamWriter

-- The database with the log's journal, and what the notifier's producer was given.
pub record NodeState : Type 0 where
  pub store : Store
  pub published : List ProducerMessage

-- A case of the select, with what it receives.
pub data NodeEvent : Type 0 where
  post_record : Post → NodeEvent
  message_record : PublisherMessageData → NodeEvent
  stream_closed : NodeEvent
  posts_failed messages_failed : Option Error → NodeEvent

-- What comes after it: the next turn of the loop, the return of `main`, or a panic.
pub data Turn : Type 0 where
  next stopped crashed_turn : Turn

abbrev written : (Journal → Journal) → NodeState → NodeState
written f state = record state { store = record state.store { journal = f state.store.journal } }

-- A nil error is printed by `%s` as `%!s(<nil>)`.
abbrev pub failure_text : Option Error → Bytes
failure_text none = codes "%!s(<nil>)"
failure_text (some e) = error_text e

abbrev notified :
    Node → Post → NodeState → List ProducerMessage × Outcome Error (Unit {0}) → NodeState × Turn
notified node post state (published, ok u) = (
  written (Log.debug node.log (codes "Published post %d.") (num post.content.id ∷ []))
      (record state { published = published }),
  next,
)
notified node post state (published, err e) = (
  written
      (Log.error node.log (codes "Failed to publish post %d: \"%s\".")
        (num post.content.id ∷ str (error_text e) ∷ []))
      (record state { published = published }),
  next,
)
notified node post state (published, panic) = (record state { published = published }, crashed_turn)

-- A stored post without messages is published at once.
unfoldable pub publish_stored : Node → Post → NodeState → NodeState × Turn
publish_stored node post state =
    if length post.content.messages == 0
    then notified node post state (push_vocal node.post_codec node.notifier post state.published)
    else (state, next)

abbrev pub after_store :
    Node → Post → NodeState → Store × Outcome Error (Unit {0}) → NodeState × Turn
after_store node post state (s, ok u) = publish_stored node post (
    written (Log.debug node.log (codes "Stored post %d.") (num post.content.id ∷ []))
      (record state { store = s }))
after_store node post state (s, err e) = (
  written
      (Log.error node.log (codes "Failed to store post %d: \"%s\".")
        (num post.content.id ∷ str (error_text e) ∷ []))
      (record state { store = s }),
  next,
)
after_store node post state (s, panic) = (record state { store = s }, crashed_turn)

abbrev chunk_failure : Node → PublisherMessageData → Error → Journal → Journal
chunk_failure node message e =
    Log.error node.log (codes "Failed to store %d bytes chunk for message %d/%d from %d: \"%s\".") (
      num (length message.chunk)
      ∷ num message.post
      ∷ num message.id
      ∷ num message.author
      ∷ str (error_text e)
      ∷ [])

abbrev pub chunk_stored :
    Node → PublisherMessageData → NodeState → Store × Outcome Error (Unit {0}) → NodeState × Turn
chunk_stored node message state (s, ok u) = (
  written
      (Log.debug node.log (codes "Stored %d bytes chunk for message %d/%d from %d.")
        (num (length message.chunk) ∷ num message.post ∷ num message.id ∷ num message.author ∷ []))
      (record state { store = s }),
  next,
)
chunk_stored node message state (s, err e) =
    (written (chunk_failure node message e) (record state { store = s }), next)
chunk_stored node message state (s, panic) = (record state { store = s }, crashed_turn)

abbrev pub checked : Node → PublisherMessageData → NodeState → Check → NodeState × Turn
checked node message state (passed user) =
    chunk_stored node message state (store_message node.db message state.store)
checked node message state (refused none e) = (written (chunk_failure node message e) state, next)
checked node message state (refused (some user) e) = (
  written (block_by_protocol_mismatch node.log user) (written (chunk_failure node message e) state),
  next,
)
checked node message state crashed = (state, crashed_turn)

-- One turn of the main loop.
unfoldable pub handle : Node → NodeEvent → NodeState → NodeState × Turn
handle node (post_record post) state =
    after_store node post state (store_post node.db post state.store)
handle node (message_record message) state =
    checked node message state
      (check_message node.db node.users node.posts_membership message state.store.history)
handle node stream_closed state = (state, stopped)
handle node (posts_failed e) state = (
  written
      (Log.error node.log (codes "Posts processing stream error: \"%s\"...")
        (str (failure_text e) ∷ []))
      state,
  stopped,
)
handle node (messages_failed e) state = (
  written
      (Log.error node.log (codes "Messages chunks processing stream error: \"%s\".")
        (str (failure_text e) ∷ []))
      state,
  stopped,
)

abbrev pub go_on : NodeState × Turn → (NodeState → NodeState × Turn) → NodeState × Turn
go_on (state, next) loop = loop state
go_on (state, stopped) loop = (state, stopped)
go_on (state, crashed_turn) loop = (state, crashed_turn)

-- The main loop over the events that come; it waits for more at the end of the list.
unfoldable pub serve : Node → List NodeEvent → NodeState → NodeState × Turn
serve node [] state = (state, next)
serve node (event ∷ events) state = go_on (handle node event state) (serve node events)
