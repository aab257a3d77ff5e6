-- ===== src/Au10/Stopping.antt =====
-- au10/streamreader.go: `serve`, the goroutine around `Consume` that `start` makes, and the two
-- channels with one place each between them, as a step relation. What a step needs stands among its
-- arguments. Sarama has one claim at a time, and `Consume` returns only behind `ConsumeClaim`.
-- Delivering to the subscriptions and answering a request are part of `serve`'s step; a `start` that
-- fails changes nothing; `stop` without a consumer is in Au10/Reader.
pub mod Jam
pub mod Starving
pub mod Coherence
use au10_service.Prelude.{
  ℕ, ◌≡◌, ◌≢◌, Bool, true, false, Option, none, some, List, [], ◌++◌, map, if◌then◌else◌,
}
use au10_service.Text.Errors.{Error}
use au10_service.Au10.Reader.{add, remove, member, is_empty}

-- Where `serve` is: at its select, at the barrier in `stop`, which `close` calls too, or behind its
-- loop.
pub data Serving : Type 0 where
  selecting returned : Serving
  stopping : Bool → Serving

-- Where the goroutine is: the field `consumer` is nil, the goroutine is in `Consume`, it is in
-- `ConsumeClaim` with a message for the channel, at the end of its loop with an error for the
-- channel, or it is done.
pub data Consuming (A : Type 0) : Type 0 where
  absent consuming gone : Consuming A
  forwarding : A → Consuming A
  reporting : Option Error → Consuming A

pub record Stream (A : Type 0) : Type 0 where
  pub serving : Serving
  pub goroutine : Consuming A
  pub cancelled : Bool
  pub subscriptions : List ℕ
  pub message_place : Option A
  pub error_place : Option (Option Error)
  pub handled : List (ℕ × A)
  pub failures : List (ℕ × Option Error)

-- `NewStreamReader`.
abbrev pub new_stream : {A : Type 0} → Stream A
new_stream = record {
  serving = selecting;
  goroutine = absent;
  cancelled = false;
  subscriptions = [];
  message_place = none;
  error_place = none;
  handled = [];
  failures = [];
}

-- Behind the barrier.
abbrev pub after_stop : Bool → Serving
after_stop closing = if closing then returned else selecting

pub data Step {A : Type 0} (s : Stream A) : Stream A → Type 0 where
  started :
      (id : ℕ)
      → s.serving ≡ selecting
      → s.goroutine ≡ absent
      → Step s (record s {
        goroutine = consuming;
        cancelled = false;
        subscriptions = add id s.subscriptions;
      })
  joined :
      (id : ℕ)
      → s.serving ≡ selecting
      → s.goroutine ≢ absent
      → Step s (record s { subscriptions = add id s.subscriptions })
  left :
      (id : ℕ)
      → s.serving ≡ selecting
      → member id s.subscriptions ≡ true
      → is_empty (remove id s.subscriptions) ≡ false
      → Step s (record s { subscriptions = remove id s.subscriptions })
  left_last :
      (id : ℕ)
      → s.serving ≡ selecting
      → member id s.subscriptions ≡ true
      → is_empty (remove id s.subscriptions) ≡ true
      → Step s (record s {
        serving = stopping false;
        cancelled = true;
        subscriptions = remove id s.subscriptions;
      })
  closed :
      s.serving ≡ selecting
      → s.goroutine ≢ absent
      → Step s (record s { serving = stopping true; cancelled = true })
  closed_idle :
      s.serving ≡ selecting → s.goroutine ≡ absent → Step s (record s { serving = returned })
  stopped :
      (closing : Bool)
      → s.serving ≡ stopping closing
      → s.goroutine ≡ gone
      → Step s (record s { serving = after_stop closing; goroutine = absent })
  handed :
      (m : A)
      → s.serving ≡ selecting
      → s.message_place ≡ some m
      → Step s (record s {
        message_place = none;
        handled = s.handled ++ map (λ id. (id, m)) s.subscriptions;
      })
  failed :
      (e : Option Error)
      → s.serving ≡ selecting
      → s.error_place ≡ some e
      → Step s (record s {
        error_place = none;
        failures = s.failures ++ map (λ id. (id, e)) s.subscriptions;
      })
  converted : (m : A) → s.goroutine ≡ consuming → Step s (record s { goroutine = forwarding m })
  forwarded :
      (m : A)
      → s.goroutine ≡ forwarding m
      → s.message_place ≡ none
      → Step s (record s { goroutine = consuming; message_place = some m })
  broke :
      (e : Error) → s.goroutine ≡ consuming → Step s (record s { goroutine = reporting (some e) })
  canceled :
      s.goroutine ≡ consuming
      → s.cancelled ≡ true
      → Step s (record s { goroutine = reporting none })
  reported :
      (e : Option Error)
      → s.goroutine ≡ reporting e
      → s.error_place ≡ none
      → Step s (record s { goroutine = gone; error_place = some e })

pub data Reach {A : Type 0} : Stream A → Type 0 where
  start : Reach new_stream
  later : {s t : Stream A} → Reach s → Step s t → Reach t
