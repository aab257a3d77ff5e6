-- ===== src/Examples/Streams.antt =====
-- The stream reader and dialling: the theorems at concrete inputs.
use au10_service.Prelude.{
  ℕ, ◌≡◌, refl, ◌↔◌, true, false, none, some, List, [], ◌∷◌, ◌==◌, if◌then◌else◌,
}
use au10_service.Text.{codes}
use au10_service.Au10.Reader.{
  Answers, Reader, ReaderEvent, request, message, serve, serve_turn, member, subscribe, start,
  unsubscribe, remove, add, stop,
}
use au10_service.Au10.Reader.Balance.{
  Keeps, IsFatal, is_crashed, serve-Keeps, serve_turn-crashes_iff,
}
use au10_service.Au10.Dialling.{Service, OpenedLog, log_opened, log_failed, dial_or_panic}
use au10_service.Au10.Dialling.Attempts.{DialVerdict, dial_or_panic-cases}
use au10_service.Text.Errors.{text}
use au10_service.Examples.Fixtures.{quiet_log, silence}

abbrev pub fine : Answers
fine = record { opening = none; closing = none }

abbrev pub fresh : Reader ℕ
fresh = record {
  topic = codes "posts";
  log = quiet_log;
  running = false;
  subscriptions = [];
  attached = [];
  handled = [];
  failures = [];
  responses = [];
  journal = silence;
}

abbrev visits : List (ReaderEvent ℕ)
visits = request (some 1) fine ∷ message 5 [] ∷ request (some 1) fine ∷ request none fine ∷ []

serve-Keeps_example : Keeps visits (serve visits fresh)
serve-Keeps_example = serve-Keeps visits fresh (λ closed. refl, λ left. refl)

-- The state after a subscription was closed once.
abbrev abandoned : Reader ℕ
abandoned = record fresh { attached = 1 ∷ [] }

serve_turn-crashes_iff_example :
    (is_crashed (serve_turn (request (some 1) fine) abandoned) ≡ true)
    ↔ IsFatal (request (some 1) fine) abandoned
serve_turn-crashes_iff_example =
    serve_turn-crashes_iff (request (some 1) fine) abandoned (λ closed. refl, λ left. refl)

-- Subscribing, closing, and closing again.
closed_twice :
    is_crashed
      (serve (request (some 1) fine ∷ request (some 1) fine ∷ request (some 1) fine ∷ []) fresh)
    ≡ true
unfolding serve serve_turn member subscribe start unsubscribe remove add stop
closed_twice = refl

abbrev access_point : Service
access_point = record {
  node_type = codes "accesspoint";
  node_name = codes "1";
  stream_brokers = codes "localhost:9092" ∷ [];
}

abbrev third_time : ℕ → OpenedLog
third_time i = if i == 3 then log_opened quiet_log else log_failed (text (codes "no brokers"))

dial_or_panic-cases_example :
    DialVerdict third_time 1 0 (dial_or_panic access_point third_time silence)
dial_or_panic-cases_example = dial_or_panic-cases access_point third_time silence (refl, refl)

abbrev nameless : Service
nameless = record access_point { node_name = [] }
