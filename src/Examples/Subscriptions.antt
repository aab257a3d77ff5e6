-- ===== src/Examples/Subscriptions.antt =====
-- Subscriptions, on both sides of the stream reader: the theorems at concrete inputs.
use au10_service.Prelude.{
  ℕ, ◌≡◌, refl, true, false, none, some, List, [], ◌∷◌, ◌++◌, arith, length, drop, drop-append, All,
  Outcome, ok, err, take, drop, take-append, drop-append,
}
use au10_service.Au10.Consuming.Claims.{ClaimVerdict, consume_claim-ClaimVerdict}
use au10_service.Au10.Publisher.{ConsumerMessage}
use au10_service.Au10.Feed.Delivery.{IsAccounted, new_feed-IsAccounted}
use au10_service.Au10.Consuming.{consume_claim}
use au10_service.AccessPoint.Subscription.Counters.{AreCounted, turns-AreCounted}
use au10_service.Au10.Codec.{Codec, IsFaithfulOn}
use au10_service.Au10.Feed.{
  Feed, arrives, closes, feed_turns, log_close, new_feed, posts_close, singleton_close, stops,
  takes,
}
use au10_service.AccessPoint.Subscription.Channel.{IsSound, turns-All}
use au10_service.AccessPoint.Methods.Denied.{IsTurnedAway, reading-IsTurnedAway}
use au10_service.Au10.LogReader.{LogRecord, convert_log_record}
use au10_service.Au10.Log.{LogRecordData, publish, resolve_log_severity}
use au10_service.AccessPoint.Status.{Status, internal, permission_denied}
use au10_service.Au10.Writer.{StreamWriter, serialize}
use au10_service.AccessPoint.Subscription.{
  Subscription, Turn, call, ended, finished, log_kind, log_send_next, main_turn, run_subscription,
  selecting, main_move, sender_turn, taken, turns,
}
use au10_service.Au10.Reader.{add, member, serve_turn, waiting, start, subscribe}
use au10_service.Examples.Fixtures.{client_of, guest, quiet_log, root, services, silence, world}
use au10_service.Au10.Publisher.Delivery.{delivered}
use au10_service.Examples.Streams.{fine, fresh}
use au10_service.Au10.Group.{is_allowed, any_right}
use au10_service.Au10.Feed.Closing.{log_close-breaks, posts_close-hangs}
use au10_service.Au10.Feed.Opening.{new_feed-IsOpen, IsOpen}
use au10_service.AccessPoint.Server.{new_server, request_user}
use au10_service.Au10.Post.{pos}
use au10_service.Au10.Feed.Order.{posts_close-whole}
use au10_service.AccessPoint.Subscription.Delivery.{IsRendered, publish-delivered, published}
use au10_service.Text.Utf8.{utf8_from}
use au10_service.AccessPoint.Methods.{serve_read_log, serve_read_posts}
use au10_service.AccessPoint.Subscription.Ending.{Move, main_goes, sender_goes, run, run-Ends}
use au10_service.Text.Format.{sprintf}
use au10_service.Text.{Bytes, codes, bytes_eq}
use au10_service.Text.Errors.{Error, text}
use au10_service.Text.Format.{str}

abbrev read_log_record : Bytes → Outcome Error LogRecordData
read_log_record (severity ∷ n ∷ rest) =
    ok (record { node = take n rest; severity = severity; message = drop n rest })
read_log_record _ = err (text (codes "short"))

abbrev log_codec : Codec LogRecordData
log_codec = record {
  marshal = λ r. ok (r.severity ∷ length r.node ∷ r.node ++ r.message);
  unmarshal = read_log_record;
}

log_codec-IsFaithful : IsFaithfulOn IsRendered log_codec
log_codec-IsFaithful a value rendered h =
    ground (arith, take-append a.node a.message, drop-append a.node a.message)

abbrev kafka : StreamWriter
kafka = record { log = quiet_log; topic = codes "log"; key = codes "publisher" }

publish-delivered_example :
    ((publish quiet_log 2 (codes "late: %s") (str (codes "a") ∷ []) silence).pushed
      ≡ published quiet_log 2 (codes "late: %s") (str (codes "a") ∷ []) ∷ [])
    × ((source : LogRecord) × (convert_log_record log_codec (
            delivered
              (record {
                topic = codes "log";
                key = codes "publisher";
                value = 2 ∷ 1 ∷ codes "nlate: a";
              })
              5
              (pos 9))
          ≡ ok source)
        × ((log_send_next (λ r. none) (taken source) []).0
            ≡ record {
              seq_num = 5;
              time = pos 9;
              message = codes "late: a";
              severity = codes "warn";
              node_type = codes "publisher";
              node_name = codes "n";
            }
              ∷ []))
unfolding serialize sprintf resolve_log_severity utf8_from
publish-delivered_example =
    publish-delivered log_codec kafka quiet_log 2 (codes "late: %s") (str (codes "a") ∷ []) silence
      (record { topic = codes "log"; key = codes "publisher"; value = 2 ∷ 1 ∷ codes "nlate: a" }) 5
      (pos 9) (λ r. none) [] log_codec-IsFaithful (omega arith, refl, refl) refl

-- A call is accepted, the goroutine's `Send` fails, and the call goes on to its end.
abbrev schedule : List Turn
schedule =
    call (client_of root) log_kind
    ∷ main_turn 0 false false
    ∷ sender_turn 0 (true, some (text (codes "lost")))
    ∷ main_turn 0 false false
    ∷ sender_turn 0 (true, none)
    ∷ main_turn 0 false false
    ∷ main_turn 0 false false
    ∷ []

turns-All_example : All IsSound (turns schedule ([], new_server world)).0
turns-All_example = turns-All schedule ([], new_server world) tt

turns-AreCounted_example : AreCounted (turns schedule ([], new_server world))
turns-AreCounted_example = turns-AreCounted schedule [] (new_server world) (refl, refl, refl)

abbrev failed_call : Subscription
failed_call = record (run_subscription (client_of root) log_kind) {
  main = selecting;
  sender = finished;
  errors = some (some (text (codes "lost")));
}

failed_call-IsSound : IsSound failed_call
unfolding run_subscription
failed_call-IsSound = ground arith

-- The two threads in turn; the goroutine is at its end, and its moves change nothing.
abbrev sender_ends : List Move
sender_ends =
    sender_goes (false, none)
    ∷ main_goes false false
    ∷ sender_goes (false, none)
    ∷ sender_goes (false, none)
    ∷ []

abbrev main_ends : List Move
main_ends =
    main_goes false false
    ∷ main_goes true false
    ∷ main_goes false false
    ∷ main_goes false false
    ∷ main_goes false false
    ∷ main_goes false false
    ∷ []

run-Ends_example :
    (status : Status) × ((run
        (sender_ends ++ main_ends)
        (main_move false false failed_call (new_server world))).0.main
      ≡ ended (err status))
    × (status.code ≡ internal)
unfolding run_subscription
run-Ends_example =
    run-Ends false failed_call (new_server world) (some (text (codes "lost"))) sender_ends main_ends
      failed_call-IsSound refl refl (omega arith) (omega arith)

reading-IsTurnedAway_example :
    IsTurnedAway
      (new_server world)
      (serve_read_log services none none (new_server world))
      permission_denied
    × IsTurnedAway
        (new_server world)
        (serve_read_posts services none none (new_server world))
        permission_denied
unfolding request_user is_allowed any_right bytes_eq
reading-IsTurnedAway_example =
    reading-IsTurnedAway services none guest none (new_server world) refl refl refl

abbrev open_feed : Feed ℕ
open_feed = (new_feed posts_close fine 1 (waiting fresh)).0

open_feed-IsOpen : IsOpen open_feed
unfolding new_feed serve_turn member subscribe start add
open_feed-IsOpen = new_feed-IsOpen posts_close fine 1 fresh refl refl

posts_close-whole_example :
    (feed_turns
      (arrives 5 ∷ closes fine ∷ arrives 6 ∷ closes fine ∷ arrives 7 ∷ [])
      (posts_close, open_feed)).1.broken
    ≡ false
posts_close-whole_example =
    posts_close-whole (arrives 5 ∷ closes fine ∷ arrives 6 ∷ closes fine ∷ arrives 7 ∷ []) open_feed
      open_feed-IsOpen

posts_close-hangs_example :
    (feed_turns
      (stops ∷ arrives 5 ∷ arrives 6 ∷ closes fine ∷ takes ∷ closes fine ∷ [])
      (posts_close, open_feed)).0
    ≡ posts_close
posts_close-hangs_example =
    posts_close-hangs open_feed 5 6 (closes fine ∷ takes ∷ closes fine ∷ []) open_feed-IsOpen

log_close-breaks_example :
    ((feed_turns (closes fine ∷ arrives 5 ∷ []) (log_close, open_feed)).1.broken ≡ true)
    × ((feed_turns (closes fine ∷ arrives 5 ∷ []) (singleton_close, open_feed)).1.broken ≡ true)
log_close-breaks_example = log_close-breaks open_feed fine 5 open_feed-IsOpen

new_feed-IsAccounted_example :
    IsAccounted
      (feed_turns
        (arrives 5 ∷ takes ∷ arrives 6 ∷ closes fine ∷ arrives 7 ∷ [])
        (log_close, open_feed)).1
unfolding new_feed serve_turn member subscribe start add
new_feed-IsAccounted_example =
    new_feed-IsAccounted log_close fine 1 fresh
      (arrives 5 ∷ takes ∷ arrives 6 ∷ closes fine ∷ arrives 7 ∷ []) refl refl refl refl

abbrev record_message : Bytes → ConsumerMessage
record_message value = record {
  key = codes "publisher";
  value = value;
  offset = 5;
  timestamp = pos 9;
}

abbrev claim : List ConsumerMessage
claim =
    record_message (2 ∷ 1 ∷ codes "nlate") ∷ record_message [] ∷ record_message (2 ∷ 0 ∷ []) ∷ []

consume_claim-ClaimVerdict_example :
    ClaimVerdict
      (convert_log_record log_codec)
      (codes "log")
      claim
      (record { forwarded = []; marked = [] })
      (consume_claim
        (convert_log_record log_codec)
        (codes "log")
        claim
        (record { forwarded = []; marked = [] }))
consume_claim-ClaimVerdict_example =
    consume_claim-ClaimVerdict (convert_log_record log_codec) (codes "log") claim
      (record { forwarded = []; marked = [] })
