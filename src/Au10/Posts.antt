-- ===== src/Au10/Posts.antt =====
-- au10/posts.go and query.go: the query of a post, the notifier of stored posts, and the conversion
-- of a delivered one.
pub mod Topics
use au10_service.Au10.Log.{LogService}
use au10_service.Prelude.{ℕ, List, [], ◌∷◌, Outcome, ok, err, panic, ◌>>=◌}
use au10_service.Text.{Bytes, codes}
use au10_service.Text.Errors.{Error, errorf, error_text}
use au10_service.Text.Format.{str}
use au10_service.Au10.Group.{new_membership}
use au10_service.Au10.Post.{Post, PostData, new_db_vocal}
use au10_service.Au10.Codec.{Codec}
use au10_service.Au10.Writer.{StreamWriter, ProducerMessage}
use au10_service.Au10.Writer
use au10_service.Au10.Publisher.{ConsumerMessage}
use au10_service.PostDb.Action.{History}
use au10_service.PostDb.{PgDb, get_post}

abbrev pub posts_stream_topic : Bytes
posts_stream_topic = codes "posts"

-- `queryClient.GetVocal`.
unfoldable pub get_vocal : PgDb → History → ℕ → Outcome Error Post
get_vocal db history id = do source ← get_post db history id; new_db_vocal source

-- `NewPostNotifier`: the argument is what opening the producer returns.
unfoldable pub new_post_notifier :
    LogService → Bytes → Outcome Error (Unit {0}) → Outcome Error StreamWriter
new_post_notifier = Writer.new_stream_writer posts_stream_topic

-- `PushVocal`; `Export` gives the vocal's data.
unfoldable pub push_vocal :
    Codec PostData
    → StreamWriter
    → Post
    → List ProducerMessage
    → List ProducerMessage × Outcome Error (Unit {0})
push_vocal codec stream vocal pushed = Writer.push_async codec.marshal stream vocal.content pushed

-- `ConvertSaramaMessageIntoVocal`.
unfoldable pub convert_vocal_record : Codec PostData → ConsumerMessage → Outcome Error Post
convert_vocal_record codec source = elim (codec.unmarshal source.value) [
  | err e ↦ err (errorf (codes "failed to parse vocal-record: \"%s\"") (str (error_text e) ∷ []))
  | panic ↦ panic
  | ok content ↦
      ok (record { membership = new_membership (codes "") (codes ""); content = content })
]
