-- ===== src/Au10/Feed/Streams.antt =====
-- au10/log.go, posts.go and publisher.go: who opens which feed. The two streams of the publishing
-- node open a stream reader of their own; the access point's readers are shared by its callers.
use au10_service.Prelude.{
  ℕ, ◌≡◌, refl, ◌≢◌, Bool, true, false, Option, none, some, [], ◌∷◌, ◌++◌, arith,
}
use au10_service.Au10.Reader.{add, crashed, member, returned, serve_turn, start, subscribe}
use au10_service.Au10.Reader.{close}
use au10_service.Au10.Feed.{close_step, reader_close}
use au10_service.Au10.Feed.Opening.{new_feed-IsOpen, IsOpen}
use au10_service.Au10.Reader.{Answers, Reader, ServeTurn, waiting}
use au10_service.Au10.Feed.{Feed, log_close, new_feed, posts_close, singleton_close}
use au10_service.Au10.Log.{Journal, LogService}
use au10_service.Au10.LogReader.{LogRecord}
use au10_service.Au10.Post.{Post}
use au10_service.Au10.Publisher.{PublisherMessageData, messages_topic, posts_topic}
use au10_service.Au10.Writer.{log_stream_topic}
use au10_service.Au10.Posts.{posts_stream_topic}
use au10_service.Text.{Bytes}
use au10_service.Text.Errors.{Error}

-- `NewStreamReader`, for the one topic that each of the program's readers has.
abbrev pub new_stream_reader : {A : Type 0} → Bytes → LogService → Journal → Reader A
new_stream_reader topic log journal = record {
  topic = topic;
  log = log;
  running = false;
  subscriptions = [];
  attached = [];
  handled = [];
  failures = [];
  responses = [];
  journal = journal;
}

-- `NewLogReader` and the reader that `NewPosts` makes.
abbrev pub new_log_reader : LogService → Journal → Reader LogRecord
new_log_reader = new_stream_reader log_stream_topic

abbrev pub new_posts_reader : LogService → Journal → Reader Post
new_posts_reader = new_stream_reader posts_stream_topic

-- `Close` of the log's reader, and of the posts, whose queries have nothing to close.
abbrev pub log_reader_close : Answers → ServeTurn LogRecord → ServeTurn LogRecord
log_reader_close = reader_close

abbrev pub posts_service_close : Answers → ServeTurn Post → ServeTurn Post
posts_service_close = reader_close

-- `Subscribe` of the log's reader and of the posts.
unfoldable pub log_subscribe : Answers → ℕ → ServeTurn LogRecord → Feed LogRecord × Option Error
log_subscribe = new_feed log_close

unfoldable pub posts_subscribe : Answers → ℕ → ServeTurn Post → Feed Post × Option Error
posts_subscribe = new_feed posts_close

-- `NewPublishPostsStreamSingleton` and `NewPublishMessagesStreamSingleton`.
unfoldable pub new_publish_posts_stream :
    Answers → ℕ → LogService → Journal → Feed Post × Option Error
new_publish_posts_stream answers id log journal =
    new_feed singleton_close answers id (waiting (new_stream_reader posts_topic log journal))

unfoldable pub new_publish_messages_stream :
    Answers → ℕ → LogService → Journal → Feed PublisherMessageData × Option Error
new_publish_messages_stream answers id log journal =
    new_feed singleton_close answers id (waiting (new_stream_reader messages_topic log journal))

abbrev pub has_returned : {A : Type 0} → ServeTurn A → Bool
has_returned (waiting stream) = false
has_returned (returned stream) = true
has_returned (crashed stream) = false

-- What an opening comes to, by what Sarama returns for the consumer.
abbrev pub Opened : {A : Type 0} → Option Error → Feed A × Option Error → Type 0
Opened none (f, fault) = (fault ≡ none) × IsOpen f
Opened (some e) (f, fault) =
    (fault ≢ none)
    × (has_returned f.stream ≡ true)
    × (f.records_closed ≡ true)
    × (f.errors_closed ≡ true)
    × (f.broken ≡ false)

new_feed-accepted :
    (A : Type 0) (answers : Answers) (id : ℕ) (topic : Bytes) (log : LogService) (journal : Journal)
    → answers.opening ≡ none
    → (new_feed {A = A} singleton_close answers id
        (waiting (new_stream_reader topic log journal))).1
      ≡ none
unfolding new_feed serve_turn member subscribe start add
new_feed-accepted A answers id topic log journal opens = rw opens refl

new_feed-refused :
    (A : Type 0) (answers : Answers) (id : ℕ) (topic : Bytes) (log : LogService) (journal : Journal)
    (e : Error)
    → answers.opening ≡ some e
    → Opened (some e) (
        new_feed {A = A} singleton_close answers id (waiting (new_stream_reader topic log journal)))
unfolding new_feed serve_turn member subscribe start close_step reader_close close
new_feed-refused A answers id topic log journal e fails =
    rw fails ((λ same. ground arith), refl, refl, refl, refl)

singleton-Opened :
    (A : Type 0) (answers : Answers) (id : ℕ) (topic : Bytes) (log : LogService) (journal : Journal)
    (opening : Option Error)
    → answers.opening ≡ opening
    → Opened opening (
        new_feed {A = A} singleton_close answers id (waiting (new_stream_reader topic log journal)))
unfolding member
singleton-Opened A answers id topic log journal none opens =
    let accepted = new_feed-accepted A answers id topic log journal opens in
    (
      accepted,
      new_feed-IsOpen singleton_close answers id (new_stream_reader topic log journal) refl
          accepted,
    )
singleton-Opened A answers id topic log journal (some e) fails =
    new_feed-refused A answers id topic log journal e fails

-- The two streams of the publishing node: if Sarama opens the consumer, the constructor returns a
-- stream that is ready to take records; if not, it returns an error, its reader's goroutine has
-- returned and its channels are closed, with nothing broken.
pub publish_streams-Opened :
    (answers : Answers) (id : ℕ) (log : LogService) (journal : Journal)
    → Opened answers.opening (new_publish_posts_stream answers id log journal)
      × Opened answers.opening (new_publish_messages_stream answers id log journal)
unfolding new_publish_posts_stream new_publish_messages_stream
publish_streams-Opened answers id log journal = (
  singleton-Opened Post answers id posts_topic log journal answers.opening refl,
  singleton-Opened PublisherMessageData answers id messages_topic log journal answers.opening refl,
)

-- The posts' reader closes without a complaint, and its `serve` returns, if every subscription has
-- left and so the consumer is closed.
posts_service_close_lem :
    (stream : Reader Post) (answers : Answers)
    → stream.subscriptions ≡ []
    → stream.running ≡ false
    → posts_service_close answers (waiting stream)
      ≡ returned (record stream { responses = stream.responses ++ none ∷ [] })
unfolding reader_close serve_turn close
posts_service_close_lem stream answers left idle = ground (arith, left, idle)
