-- ===== src/AccessPoint/Subscription.antt =====
-- accesspoint/lib/clientsubscription.go: `sendNext` of both kinds of subscriptions, the goroutine
-- that calls it, and `runSubscription`, as two threads that share a channel and the server's
-- counters. Which thread moves, whether the caller cancels and what `sendNext` returns is chosen
-- from outside, move by move. `close` is one move here, which returns; Au10/Feed has what it does.
pub mod Channel
pub mod Counters
pub mod Ending
pub mod Delivery
use au10_service.Prelude.{
  ℕ, zero, suc, Bool, true, false, Option, none, some, List, [], ◌∷◌, ◌++◌, Outcome, ok, err, panic,
}
use au10_service.Text.{Bytes, codes}
use au10_service.Text.Errors.{Error, errorf, error_text}
use au10_service.Text.Format.{str, num}
use au10_service.Au10.Post.{Post}
use au10_service.Au10.LogReader.{LogRecord}
use au10_service.AccessPoint.Status.{Status, internal}
use au10_service.AccessPoint.Action.{World, Action, ◌>>◌, return}
use au10_service.AccessPoint.Convertor.{ProtoPost, vocal_to_proto}
use au10_service.AccessPoint.Convertor.Log.{ProtoLogRecord, log_record_to_proto}
use au10_service.AccessPoint.Client.{Client, reject, log_debug, check_rights}
use au10_service.AccessPoint.Server.{
  Server, increment, decrement, register_subscriber, unregister_subscriber,
}

-- What the select of `sendNext` receives.
pub data Received {ℓ} (A : Type ℓ) : Type ℓ where
  taken : A → Received A
  records_closed : Received A
  failure : Option Error → Received A

-- What `sendNext` returns: whether the channel is open, and an error.
abbrev pub Sent : Type 0
Sent = Bool × Option Error

-- The records sent to the caller so far come with the result; `send` is what the stream's `Send`
-- returns.
unfoldable pub log_send_next :
    (ProtoLogRecord → Option Error)
    → Received LogRecord
    → List ProtoLogRecord
    → List ProtoLogRecord × Sent
log_send_next send (taken source) sent =
    (sent ++ log_record_to_proto source ∷ [], (true, send (log_record_to_proto source)))
log_send_next send records_closed sent = (sent, (false, none))
log_send_next send (failure e) sent = (sent, (false, e))

-- A post of the posts' stream: a vocal, or of another type.
pub data AnyPost : Type 0 where
  vocal : Post → AnyPost
  other : Bytes → AnyPost

abbrev post_update :
    (ProtoPost → Option Error)
    → List ProtoPost
    → Outcome Error (ProtoPost × Option Error)
    → Outcome Error (List ProtoPost × Sent)
post_update send sent (ok (message, none)) = ok (sent ++ message ∷ [], (true, send message))
post_update send sent (ok (message, some e)) = ok (sent, (true, some e))
post_update send sent (err e) = err e
post_update send sent panic = panic

unfoldable pub posts_send_next :
    (ProtoPost → Option Error)
    → Received AnyPost
    → List ProtoPost
    → Outcome Error (List ProtoPost × Sent)
posts_send_next send (taken (vocal source)) sent =
    post_update send sent (vocal_to_proto source none)
posts_send_next send (taken (other print)) sent =
    ok (sent, (true, some (errorf (codes "unknown post type \"%s\"") (str print ∷ []))))
posts_send_next send records_closed sent = ok (sent, (false, none))
posts_send_next send (failure e) sent = ok (sent, (false, e))

-- Whose counter a subscription adds to.
pub data Kind : Type 0 where
  log_kind posts_kind : Kind

-- Where `runSubscription` stands: before `RegisterSubscriber`, before the kind's counter is
-- increased, before the message, in the select; then, with the error that the select received,
-- before `close`, before `Wait`, before the channel is closed, before each of the two decreases,
-- before its end, and at its end with what it returns.
pub data MainPlace : Type 0 where
  launched : MainPlace
  registered subscribed : ℕ → MainPlace
  selecting : MainPlace
  closing waiting stopped dropping leaving : Option Error → MainPlace
  reporting : Option Error → ℕ → MainPlace
  ended : Outcome Status (Unit {0}) → MainPlace

-- Where the goroutine stands: in `sendNext`, before it writes what that returned to the channel,
-- before `Done`, after it; or it has written to a closed channel, which is a panic.
pub data SenderPlace : Type 0 where
  sending : SenderPlace
  writing : Option Error → SenderPlace
  written finished crashed : SenderPlace

-- One call of `runSubscription`. `errors` is the channel's buffer, which has one place.
pub record Subscription : Type 0 where
  pub client : Client
  pub kind : Kind
  pub main : MainPlace
  pub sender : SenderPlace
  pub errors : Option (Option Error)
  pub errors_closed : Bool
  pub records_closed : Bool

unfoldable pub run_subscription : Client → Kind → Subscription
run_subscription client kind = record {
  client = client;
  kind = kind;
  main = launched;
  sender = sending;
  errors = none;
  errors_closed = false;
  records_closed = false;
}

-- `errChan <- err`: it waits while the buffer is full.
abbrev pub write_error : Option Error → Bool → Option (Option Error) → Subscription → Subscription
write_error e true buffer t = record t { sender = crashed }
write_error e false none t = record t { sender = written; errors = some e }
write_error e false (some full) t = t

-- Both kinds of subscriptions, after `Subscribe` has returned its error.
unfoldable pub open_subscription : Client → Kind → Option Error → Action Subscription
open_subscription client kind none = return (run_subscription client kind)
open_subscription client kind (some e) =
    reject client internal (codes "failed to subscribe: \"%s\"") (str (error_text e) ∷ [])

abbrev pub run_log_subscription : Client → Option Error → Action Subscription
run_log_subscription client refusal = open_subscription client log_kind refusal

abbrev pub run_posts_subscription : Client → Option Error → Action Subscription
run_posts_subscription client refusal = open_subscription client posts_kind refusal

-- `ReadLog` and `ReadPosts`, up to `runSubscription`.
unfoldable pub read_log : Client → Option Error → Action Subscription
read_log client refusal = do
  check_rights client client.service.log_reader_membership (codes "log") []
  run_log_subscription client refusal

unfoldable pub read_posts : Client → Option Error → Action Subscription
read_posts client refusal = do
  check_rights client client.service.posts_membership (codes "posts") []
  run_posts_subscription client refusal

-- The move of the goroutine, with what `sendNext` returns if it stands there.
abbrev pub sender_from : SenderPlace → Sent → Subscription → Subscription
sender_from sending (true, none) t = t
sender_from sending (true, some e) t = record t { sender = writing (some e) }
sender_from sending (false, e) t = record t { sender = writing e }
sender_from (writing e) sent t = write_error e t.errors_closed t.errors t
sender_from written sent t = record t { sender = finished }
sender_from finished sent t = t
sender_from crashed sent t = t

unfoldable pub sender_move : Sent → Subscription → Subscription
sender_move sent t = sender_from t.sender sent t

-- The number of subscribers of a kind, which the messages read again.
abbrev pub info_of : Kind → Server → ℕ
info_of log_kind s = s.log_subscriptions.number_of_subscribers
info_of posts_kind s = s.posts_subscriptions.number_of_subscribers

abbrev pub set_info : Kind → ℕ → Server → Server
set_info log_kind n s = record s { log_subscriptions = record { number_of_subscribers = n } }
set_info posts_kind n s = record s { posts_subscriptions = record { number_of_subscribers = n } }

-- An action on the server's world.
abbrev pub acted : {A : Type 0} → Server → World × Outcome Status A → Server × Outcome Status A
acted s (w, result) = (record s { world = w }, result)

-- The end of `runSubscription`.
unfoldable pub report : Client → Option Error → ℕ → ℕ → Action (Unit {0})
report client none subscribers all =
    log_debug client (codes "Canceled (%d/%d).") (num subscribers ∷ num all ∷ [])
report client (some e) subscribers all =
    reject client internal (codes "Failed: \"%s\" (%d/%d)")
      (str (error_text e) ∷ num subscribers ∷ num all ∷ [])

-- The select: an error that is there, or the caller's cancelling.
abbrev pub selected : Bool → Option (Option Error) → Subscription → Subscription
selected cancelled (some e) t = record t { main = closing e; errors = none }
selected true none t = record t { main = closing none }
selected false none t = t

-- `stopBarrier.Wait()`.
abbrev pub awaited : Option Error → SenderPlace → Subscription → Subscription
awaited e finished t = record t { main = stopped e }
awaited e sending t = t
awaited e (writing f) t = t
awaited e written t = t
awaited e crashed t = t

abbrev pub ended_with : Subscription → Server × Outcome Status (Unit {0}) → Subscription × Server
ended_with t (s, result) = (record t { main = ended result }, s)

-- The move of `runSubscription`. If the select finds both an error and the caller's cancelling, it
-- takes either, as `skips` says.
abbrev pub main_from : MainPlace → Bool → Bool → Subscription → Server → Subscription × Server
main_from launched cancelled skips t s =
    (record t { main = registered (register_subscriber s).1 }, (register_subscriber s).0)
main_from (registered all) cancelled skips t s =
    (record t { main = subscribed all }, set_info t.kind (increment (info_of t.kind s)) s)
main_from (subscribed all) cancelled skips t s = (
  record t { main = selecting },
  (acted s (
      log_debug t.client (codes "Subscribed (%d/%d).") (num (info_of t.kind s) ∷ num all ∷ [])
        s.world)).0,
)
main_from selecting true true t s = (record t { main = closing none }, s)
main_from selecting cancelled skips t s = (selected cancelled t.errors t, s)
main_from (closing e) cancelled skips t s =
    (record t { main = waiting e; records_closed = true }, s)
main_from (waiting e) cancelled skips t s = (awaited e t.sender t, s)
main_from (stopped e) cancelled skips t s =
    (record t { main = dropping e; errors_closed = true }, s)
main_from (dropping e) cancelled skips t s =
    (record t { main = leaving e }, set_info t.kind (decrement (info_of t.kind s)) s)
main_from (leaving e) cancelled skips t s =
    (record t { main = reporting e (unregister_subscriber s).1 }, (unregister_subscriber s).0)
main_from (reporting e all) cancelled skips t s =
    ended_with t (acted s (report t.client e (info_of t.kind s) all s.world))
main_from (ended result) cancelled skips t s = (t, s)

unfoldable pub main_move : Bool → Bool → Subscription → Server → Subscription × Server
main_move cancelled skips t s = main_from t.main cancelled skips t s

-- What happens to the subscriptions of a server: a new call of `runSubscription`, or a move of one
-- of the threads of the i-th call, counted from the last one.
pub data Turn : Type 0 where
  call : Client → Kind → Turn
  main_turn : ℕ → Bool → Bool → Turn
  sender_turn : ℕ → Sent → Turn

abbrev pub Running : Type 0
Running = List Subscription × Server

abbrev pub beside : Subscription → Running → Running
beside t (ts, s) = (t ∷ ts, s)

abbrev pub alone : List Subscription → Subscription × Server → Running
alone ts (t, s) = (t ∷ ts, s)

unfoldable pub move_at :
    ℕ → (Subscription → Server → Subscription × Server) → List Subscription → Server → Running
move_at i move [] s = ([], s)
move_at zero move (t ∷ ts) s = alone ts (move t s)
move_at (suc i) move (t ∷ ts) s = beside t (move_at i move ts s)

unfoldable pub turn : Turn → Running → Running
turn (call client kind) (ts, s) = (run_subscription client kind ∷ ts, s)
turn (main_turn i cancelled skips) (ts, s) = move_at i (main_move cancelled skips) ts s
turn (sender_turn i sent) (ts, s) = move_at i (λ t s. (sender_move sent t, s)) ts s

unfoldable pub turns : List Turn → Running → Running
turns [] running = running
turns (next ∷ rest) running = turns rest (turn next running)
