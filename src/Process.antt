-- ===== src/Process.antt =====
-- The `main` of accesspoint/main.go and of publisher/main.go: what each opens, in which order, what
-- it defers, and what runs when it ends. What the constructors return, and how the deferred calls come
-- out, are arguments. `Fatal` is a panic behind a line of the log, as in log.go (its interface there
-- promises `os.Exit(1)`, with which no deferred call would run).
pub mod Unwinding
pub mod Farewell
pub mod Endings
use au10_service.Prelude.{ℕ, Option, none, some, List, [], ◌∷◌, ◌++◌, Outcome, ok, err, panic}
use au10_service.Au10.Dialling.{DialEnd, dialled, out_of_fuel, panicked}
use au10_service.Node.{Turn, crashed_turn, failure_text, next, stopped}
use au10_service.Text.{Bytes, codes}
use au10_service.Text.Errors.{Error, error_text}
use au10_service.Text.Format.{Arg, str, num, sprintf}

-- What is opened and may be closed.
pub data Part : Type 0 where
  service_part users_part db_part posts_part publisher_part log_reader_part server_part
        posts_stream_part messages_stream_part notifier_part :
      Part

pub data Deferred : Type 0 where
  close_part : Part → Deferred
  write_line : ℕ → Bytes → Deferred
  wait_barrier : Deferred

-- A line of the log has its severity.
pub data ProcessEvent : Type 0 where
  opened closed : Part → ProcessEvent
  wrote : ℕ → Bytes → ProcessEvent
  waited : ProcessEvent

-- The deferred calls, the last one first.
pub record Process : Type 0 where
  pub events : List ProcessEvent
  pub deferred : List Deferred

-- Why `main` goes no further: it returned, it still runs, or a deferred call of it never ends.
pub data Pause : Type 0 where
  returned running stuck : Pause

abbrev pub Main : Type 0
Main = Process → Process × Outcome Pause (Unit {0})

abbrev pub continue : Process × Outcome Pause (Unit {0}) → Main → Process × Outcome Pause (Unit {0})
continue (s, ok done) rest = rest s
continue (s, err pause) rest = (s, err pause)
continue (s, panic) rest = (s, panic)

infixr 5 ◌>>◌
unfoldable pub ◌>>◌ : Main → Main → Main
◌>>◌ first rest s = continue (first s) rest

unfoldable pub note : ProcessEvent → Main
note event s = (record s { events = s.events ++ event ∷ [] }, ok tt)

unfoldable pub defer_call : Deferred → Main
defer_call call s = (record s { deferred = call ∷ s.deferred }, ok tt)

unfoldable pub debug : Bytes → List Arg → Main
debug format args = note (wrote 0 (sprintf format args))

unfoldable pub fatal : Bytes → List Arg → Main
fatal format args = note (wrote 4 (sprintf format args)) >> (λ s. (s, panic))

-- A constructor's error, if it returned one, or none and no value.
abbrev pub Failure : Type 0
Failure = Option (Option Error)

abbrev pub check : Failure → Bytes → (Arg → List Arg) → Main
check none format args s = (s, ok tt)
check (some e) format args s = fatal format (args (str (failure_text e))) s

abbrev pub open_part : Part → Failure → Bytes → (Arg → List Arg) → Main
open_part part none format args = note (opened part)
open_part part (some e) format args = check (some e) format args

-- `DialOrPanic`.
abbrev pub dial_part : DialEnd → Main
dial_part (dialled log) s = note (opened service_part) s
dial_part (panicked line) s = (s, panic)
dial_part out_of_fuel s = (s, err running)

pub record Flags : Type 0 where
  pub port : ℕ
  pub db_host : Bytes
  pub db_name : Bytes
  pub db_login : Bytes

abbrev pub only : Arg → List Arg
only e = e ∷ []

abbrev database : Flags → List Arg
database flags = str flags.db_login ∷ str flags.db_host ∷ str flags.db_name ∷ []

abbrev pub connecting : Flags → Main
connecting flags = debug (codes "Connecting to the database \"%s@%s/%s\"...") (database flags)

abbrev pub open_db : Flags → Failure → Main
open_db flags failure =
    open_part db_part failure (codes "Failed to connect to the database \"%s@%s/%s\": \"%s\".")
      (λ e. database flags ++ e ∷ [])

abbrev pub open_users : Failure → Main
open_users failure =
    open_part users_part failure (codes "Failed to start users service: \"%s\".") only

-- `NewPosts` returns no error: the test behind it is about the error of the call before, `stale`.
abbrev pub open_posts : Flags → Failure → Main
open_posts flags stale =
    note (opened posts_part)
    >> check stale (codes "Failed to start posts service: \"%s\".") (λ e. database flags ++ e ∷ [])

-- What the calls of the access point's `main` return. `serving` is the error of `Serve`, or nothing
-- while it serves.
pub record AccessPointCalls : Type 0 where
  pub dial : DialEnd
  pub users : Failure
  pub db : Failure
  pub publisher : Failure
  pub default_user : Failure
  pub listening : Failure
  pub serving : Option (Option Error)

abbrev pub served : Option (Option Error) → Main
served none s = (s, err running)
served (some none) s = (s, ok tt)
served (some (some e)) s =
    fatal (codes "Failed to start server: \"%s\".") (str (error_text e) ∷ []) s

-- The rest of `main` behind the service.
abbrev pub access_point_body : Flags → AccessPointCalls → Main
access_point_body flags calls =
    open_users calls.users
    >> defer_call (close_part users_part)
    >> connecting flags
    >> open_db flags calls.db
    >> defer_call (close_part db_part)
    >> open_posts flags calls.db
    >> defer_call (close_part posts_part)
    >> open_part publisher_part calls.publisher (codes "Failed to create publisher: \"%s\".") only
    >> defer_call (close_part publisher_part)
    >> check calls.default_user (codes "Failed to created default user: \"%s\".") only
    >> note (opened log_reader_part)
    >> defer_call (close_part log_reader_part)
    >> note (opened server_part)
    >> defer_call (close_part server_part)
    >> debug (codes "Starting server on port \"%d\"...") (num flags.port ∷ [])
    >> check calls.listening (codes "Failed to open server port: \"%s\".") only
    >> debug (codes "Started server on port \"%d\".") (num flags.port ∷ [])
    >> served calls.serving
    >> debug (codes "Server stopped. Closing...") []

unfoldable pub access_point_main : Flags → AccessPointCalls → Main
access_point_main flags calls =
    dial_part calls.dial
    >> defer_call (close_part service_part)
    >> defer_call (write_line 1 (codes "Stopped."))
    >> access_point_body flags calls

-- What the calls of the publishing node's `main` return; `loop` is how its main loop ends.
pub record PublisherCalls : Type 0 where
  pub dial : DialEnd
  pub db : Failure
  pub users : Failure
  pub posts_stream : Failure
  pub messages_stream : Failure
  pub notifier : Failure
  pub loop : Turn

abbrev pub looped : Turn → Main
looped next s = (s, err running)
looped stopped s = (s, err returned)
looped crashed_turn s = (s, panic)

-- The rest of `main` behind the service.
abbrev pub publisher_body : Flags → PublisherCalls → Main
publisher_body flags calls =
    connecting flags
    >> open_db flags calls.db
    >> defer_call (close_part db_part)
    >> open_users calls.users
    >> defer_call (close_part users_part)
    >> open_posts flags calls.users
    >> defer_call (close_part posts_part)
    >> open_part posts_stream_part calls.posts_stream
        (codes "Failed to start posts stream: \"%s\".") only
    >> defer_call (close_part posts_stream_part)
    >> open_part messages_stream_part calls.messages_stream
        (codes "Failed to start messages stream: \"%s\".") only
    >> defer_call (close_part messages_stream_part)
    >> open_part notifier_part calls.notifier (codes "Failed to start notifier: \"%s\".") only
    >> defer_call (write_line 0 (codes "Stopping..."))
    >> defer_call wait_barrier
    >> debug (codes "Started.") []
    >> looped calls.loop

unfoldable pub publisher_main : Flags → PublisherCalls → Main
publisher_main flags calls =
    dial_part calls.dial
    >> defer_call (close_part service_part)
    >> defer_call (write_line 1 (codes "Stopped."))
    >> publisher_body flags calls

-- A deferred call as it runs.
abbrev pub event_of : Deferred → ProcessEvent
event_of (close_part part) = closed part
event_of (write_line severity line) = wrote severity line
event_of wait_barrier = waited

-- How a deferred call comes out: it returns; it panics, behind which the others still run; another
-- goroutine panics meanwhile, as `serve` over a closed channel, which ends the process at once; or
-- it waits for ever.
pub data CallEnd : Type 0 where
  returns panics dies hangs : CallEnd

-- The deferred calls run one after the other; the events say which were begun.
unfoldable pub run_deferred :
    (Deferred → CallEnd)
    → List Deferred
    → List ProcessEvent
    → Outcome Pause (Unit {0})
    → Process × Outcome Pause (Unit {0})
run_deferred ends [] events result = (record { events = events; deferred = [] }, result)
run_deferred ends (call ∷ calls) events result = elim (ends call) [
  | returns ↦ run_deferred ends calls (events ++ event_of call ∷ []) result
  | panics ↦ run_deferred ends calls (events ++ event_of call ∷ []) panic
  | dies ↦ (record { events = events ++ event_of call ∷ []; deferred = calls }, panic)
  | hangs ↦ (record { events = events ++ event_of call ∷ []; deferred = calls }, err stuck)
]

-- The deferred calls run, unless `main` still does.
abbrev pub unwound :
    (Deferred → CallEnd) → Process × Outcome Pause (Unit {0}) → Process × Outcome Pause (Unit {0})
unwound ends (s, err running) = (s, err running)
unwound ends (s, err returned) = run_deferred ends s.deferred s.events (err returned)
unwound ends (s, err stuck) = run_deferred ends s.deferred s.events (err stuck)
unwound ends (s, ok done) = run_deferred ends s.deferred s.events (ok tt)
unwound ends (s, panic) = run_deferred ends s.deferred s.events panic

-- A process; how its deferred calls come out is an argument.
unfoldable pub run_process : (Deferred → CallEnd) → Main → Process × Outcome Pause (Unit {0})
run_process ends main = unwound ends (main (record { events = []; deferred = [] }))
