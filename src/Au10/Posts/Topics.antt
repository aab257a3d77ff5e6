-- ===== src/Au10/Posts/Topics.antt =====
-- au10/posts.go and publisher.go: what is written to a stream is read from a stream of the same name.
use au10_service.Prelude.{◌≡◌, Option, arith, Outcome, ok, err, panic}
use au10_service.Text.{Bytes}
use au10_service.Text.Errors.{Error}
use au10_service.Au10.Log.{LogService, Journal}
use au10_service.Au10.Writer.{StreamWriter, new_stream_writer}
use au10_service.Au10.Publisher.{Publisher, new_publisher, posts_topic, messages_topic}
use au10_service.Au10.Posts.{new_post_notifier, posts_stream_topic}

new_stream_writer-topic :
    (topic : Bytes) (log : LogService) (node_type : Bytes) (opened : Outcome Error (Unit {0}))
    (stream : StreamWriter)
    → new_stream_writer topic log node_type opened ≡ ok stream
    → stream.topic ≡ topic
unfolding new_stream_writer
new_stream_writer-topic topic log node_type (ok u) stream same = ground (arith, same)
new_stream_writer-topic topic log node_type (err e) stream same = ground (arith, same)
new_stream_writer-topic topic log node_type panic stream same = ground (arith, same)

-- A notifier announces in the stream that `NewPosts` reads.
new_post_notifier-topic :
    (log : LogService) (node_type : Bytes) (opened : Outcome Error (Unit {0}))
    (stream : StreamWriter)
    → new_post_notifier log node_type opened ≡ ok stream
    → stream.topic ≡ posts_stream_topic
unfolding new_post_notifier
new_post_notifier-topic log node_type opened stream same =
    new_stream_writer-topic posts_stream_topic log node_type opened stream same

-- A publisher writes to the two streams that the publishing node reads.
new_publisher-topics :
    (log : LogService) (node_type : Bytes) (opened opened' : Outcome Error (Unit {0}))
    (closing : Option Error) (j : Journal) (publisher : Publisher)
    → (new_publisher log node_type opened opened' closing j).1 ≡ ok publisher
    → (publisher.posts_stream.topic ≡ posts_topic)
      × (publisher.messages_stream.topic ≡ messages_topic)
unfolding new_publisher new_stream_writer
new_publisher-topics log node_type (ok u) (ok u') closing j publisher same = ground (arith, same)
new_publisher-topics log node_type (ok u) (err e) closing j publisher same =
    absurd (ground (arith, same))
new_publisher-topics log node_type (ok u) panic closing j publisher same =
    absurd (ground (arith, same))
new_publisher-topics log node_type (err e) opened' closing j publisher same =
    absurd (ground (arith, same))
new_publisher-topics log node_type panic opened' closing j publisher same =
    absurd (ground (arith, same))
