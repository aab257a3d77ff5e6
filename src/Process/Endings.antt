-- ===== src/Process/Endings.antt =====
-- accesspoint/main.go and publisher/main.go: whether the two processes run, return or panic.
use au10_service.Prelude.{
  ◌≡◌, refl, ◌∙◌, Option, none, some, List, [], ◌∷◌, ◌++◌, if◌then◌else◌, Outcome, ok, err, panic,
  ◌∙◌,
}
use au10_service.Au10.Log.{LogService}
use au10_service.Process.{
  access_point_main, publisher_body, publisher_main, run_process, unwound, run_deferred, CallEnd,
  returns, stuck, Deferred, ProcessEvent, event_of,
}
use au10_service.Au10.Dialling.{dialled}
use au10_service.Node.{Turn, next, stopped, crashed_turn}
use au10_service.Process.{debug, fatal, returned, ◌>>◌}
use mathlib.Core.Bool.{Bool, true, false, ◌&&◌}
use au10_service.Process.{
  AccessPointCalls, Failure, Flags, Process, PublisherCalls, access_point_body, defer_call, note,
  running, Pause, ◌>>◌, returned, fatal, debug,
}
use au10_service.Au10.Dialling.{DialEnd, dial}
use au10_service.Text.Errors.{Error}
use au10_service.Node.{crashed_turn, next, Turn}

abbrev succeeded : Failure → Bool
succeeded none = true
succeeded (some e) = false

abbrev ended_by : Turn → Outcome Pause (Unit {0})
ended_by next = err running
ended_by stopped = err returned
ended_by crashed_turn = panic

abbrev served_by : Option (Option Error) → Outcome Pause (Unit {0})
served_by none = err running
served_by (some none) = ok tt
served_by (some (some e)) = panic

-- The calls before the server serves, or before the main loop.
abbrev access_point_opened : AccessPointCalls → Bool
access_point_opened calls =
    succeeded calls.users
    && succeeded calls.db
    && succeeded calls.publisher
    && succeeded calls.default_user
    && succeeded calls.listening

abbrev publisher_opened : PublisherCalls → Bool
publisher_opened calls =
    succeeded calls.db
    && succeeded calls.users
    && succeeded calls.posts_stream
    && succeeded calls.messages_stream
    && succeeded calls.notifier

abbrev access_point_end : AccessPointCalls → Outcome Pause (Unit {0})
access_point_end calls = if access_point_opened calls then served_by calls.serving else panic

abbrev publisher_end : PublisherCalls → Outcome Pause (Unit {0})
publisher_end calls = if publisher_opened calls then ended_by calls.loop else panic

access_point_ended :
    (flags : Flags) (users db publisher default_user listening : Failure)
    (serving : Option (Option Error)) (s : Process) (dial : DialEnd)
    → (access_point_body flags
        (record {
          dial = dial;
          users = users;
          db = db;
          publisher = publisher;
          default_user = default_user;
          listening = listening;
          serving = serving;
        })
        s).1
      ≡ access_point_end (record {
        dial = dial;
        users = users;
        db = db;
        publisher = publisher;
        default_user = default_user;
        listening = listening;
        serving = serving;
      })
unfolding ◌>>◌ note defer_call fatal debug
access_point_ended flags (some e) db publisher default_user listening serving s dial = refl
access_point_ended flags none (some e) publisher default_user listening serving s dial = refl
access_point_ended flags none none (some e) default_user listening serving s dial = refl
access_point_ended flags none none none (some e) listening serving s dial = refl
access_point_ended flags none none none none (some e) serving s dial = refl
access_point_ended flags none none none none none none s dial = refl
access_point_ended flags none none none none none (some none) s dial = refl
access_point_ended flags none none none none none (some (some e)) s dial = refl

publisher_ended :
    (flags : Flags) (db users posts_stream messages_stream notifier : Failure) (loop : Turn)
    (s : Process) (dial : DialEnd)
    → (publisher_body flags
        (record {
          dial = dial;
          db = db;
          users = users;
          posts_stream = posts_stream;
          messages_stream = messages_stream;
          notifier = notifier;
          loop = loop;
        })
        s).1
      ≡ publisher_end (record {
        dial = dial;
        db = db;
        users = users;
        posts_stream = posts_stream;
        messages_stream = messages_stream;
        notifier = notifier;
        loop = loop;
      })
unfolding ◌>>◌ note defer_call fatal debug
publisher_ended flags (some e) users posts_stream messages_stream notifier loop s dial = refl
publisher_ended flags none (some e) posts_stream messages_stream notifier loop s dial = refl
publisher_ended flags none none (some e) messages_stream notifier loop s dial = refl
publisher_ended flags none none none (some e) notifier loop s dial = refl
publisher_ended flags none none none none (some e) loop s dial = refl
publisher_ended flags none none none none none next s dial = refl
publisher_ended flags none none none none none stopped s dial = refl
publisher_ended flags none none none none none crashed_turn s dial = refl

run_deferred-end :
    (ends : Deferred → CallEnd) (calls : List Deferred) (events : List ProcessEvent)
    (result : Outcome Pause (Unit {0}))
    → ((call : Deferred) → ends call ≡ returns)
    → (run_deferred ends calls events result).1 ≡ result
unfolding run_deferred
run_deferred-end ends [] events result all = refl
run_deferred-end ends (call ∷ calls) events result all =
    rw (run_deferred, all call)
      (run_deferred-end ends calls (events ++ event_of call ∷ []) result all)

unwound-end :
    (ends : Deferred → CallEnd) (result : Process × Outcome Pause (Unit {0}))
    → ((call : Deferred) → ends call ≡ returns)
    → (unwound ends result).1 ≡ result.1
unwound-end ends (s, ok done) all = run_deferred-end ends s.deferred s.events (ok tt) all
unwound-end ends (s, err running) all = refl
unwound-end ends (s, err returned) all = run_deferred-end ends s.deferred s.events _ all
unwound-end ends (s, err stuck) all = run_deferred-end ends s.deferred s.events _ all
unwound-end ends (s, panic) all = run_deferred-end ends s.deferred s.events panic all

-- How the connected access point ends: it serves, or returns behind a server that stopped, exactly
-- when no call before `Serve` failed, and every other failure is a panic.
pub access_point_main-end :
    (flags : Flags) (calls : AccessPointCalls) (log : LogService) (ends : Deferred → CallEnd)
    → calls.dial ≡ dialled log
    → ((call : Deferred) → ends call ≡ returns)
    → (run_process ends (access_point_main flags calls)).1 ≡ access_point_end calls
unfolding run_process access_point_main ◌>>◌ note defer_call
access_point_main-end flags calls log ends same all = rw same (
    unwound-end ends _ all
    ∙ access_point_ended flags calls.users calls.db calls.publisher calls.default_user
        calls.listening calls.serving _ calls.dial)

-- How the connected publishing node ends: as its main loop does exactly when no call before it
-- failed, and with a panic otherwise, if its deferred calls return.
pub publisher_main-end :
    (flags : Flags) (calls : PublisherCalls) (log : LogService) (ends : Deferred → CallEnd)
    → calls.dial ≡ dialled log
    → ((call : Deferred) → ends call ≡ returns)
    → (run_process ends (publisher_main flags calls)).1 ≡ publisher_end calls
unfolding run_process publisher_main ◌>>◌ note defer_call
publisher_main-end flags calls log ends same all = rw same (
    unwound-end ends _ all
    ∙ publisher_ended flags calls.db calls.users calls.posts_stream calls.messages_stream
        calls.notifier calls.loop _ calls.dial)
