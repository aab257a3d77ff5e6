-- ===== src/Process/Unwinding.antt =====
-- accesspoint/main.go and publisher/main.go: what is closed, and when.
use au10_service.Prelude.{
  ◌≡◌, refl, sym, ap, ◌∙◌, Option, none, some, List, [], ◌∷◌, ◌++◌, map, arith, append-nil, sym,
  ◌∙◌, ap,
}
use au10_service.Process.{
  Failure, Flags, check, defer_call, looped, open_part, open_posts, fatal, debug, ◌>>◌, served,
  posts_part,
}
use au10_service.Node.{Turn, crashed_turn, failure_text, next, stopped}
use au10_service.Process.{
  Deferred, Main, Part, Process, ProcessEvent, close_part, event_of, note, notifier_part, opened,
  wait_barrier, waited, write_line, wrote, closed, service_part,
}
use mathlib.Core.List.{reverse, reverse-append}
use au10_service.Text.{Bytes, codes}
use au10_service.Text.Errors.{Error, error_text}
use au10_service.Text.Format.{Arg, str, sprintf}

-- The parts that were opened, in their order, but for the notifier.
abbrev pub owed : List ProcessEvent → List Part
owed [] = []
owed (opened notifier_part ∷ events) = owed events
owed (opened part ∷ events) = part ∷ owed events
owed (closed part ∷ events) = owed events
owed (wrote severity line ∷ events) = owed events
owed (waited ∷ events) = owed events

-- The parts that were closed, in their order.
abbrev pub closings : List ProcessEvent → List Part
closings [] = []
closings (opened part ∷ events) = closings events
closings (closed part ∷ events) = part ∷ closings events
closings (wrote severity line ∷ events) = closings events
closings (waited ∷ events) = closings events

pub owed-append : (xs ys : List ProcessEvent) → owed (xs ++ ys) ≡ owed xs ++ owed ys
owed-append [] ys = refl
owed-append (event ∷ events) ys = ground (arith, owed-append events ys)

pub closings-append : (xs ys : List ProcessEvent) → closings (xs ++ ys) ≡ closings xs ++ closings ys
closings-append [] ys = refl
closings-append (event ∷ events) ys = ground (arith, closings-append events ys)

-- The parts that deferred calls will close.
abbrev pub to_close : List Deferred → List Part
to_close [] = []
to_close (close_part part ∷ calls) = part ∷ to_close calls
to_close (write_line severity line ∷ calls) = to_close calls
to_close (wait_barrier ∷ calls) = to_close calls

pub closings-map : (calls : List Deferred) → closings (map event_of calls) ≡ to_close calls
closings-map [] = refl
closings-map (call ∷ calls) = ground (arith, closings-map calls)

pub owed-map : (calls : List Deferred) → owed (map event_of calls) ≡ []
owed-map [] = refl
owed-map (call ∷ calls) = ground (arith, owed-map calls)

-- The last calls of a process whose service was opened.
abbrev pub farewell : List Deferred
farewell = write_line 1 (codes "Stopped.") ∷ close_part service_part ∷ []

-- Nothing is closed yet, and what is owed will be closed, the last part first and the service at the
-- end, behind its last line.
pub record IsReady (s : Process) : Type 0 where
  pub whole : closings s.events ≡ []
  pub owing : to_close s.deferred ≡ reverse (owed s.events)
  pub last : (front : List Deferred) × (s.deferred ≡ front ++ farewell)

-- How a run of statements leaves the process, however it ends.
unfoldable pub Keeps : Main → Type 0
Keeps main = (s : Process) → IsReady s → IsReady (main s).0

owed-silent :
    (event : ProcessEvent) (events : List ProcessEvent)
    → owed (event ∷ []) ≡ []
    → owed (events ++ event ∷ []) ≡ owed events
owed-silent event events free =
    owed-append events (event ∷ []) ∙ (rw free (append-nil (owed events)))

owed-opened :
    (part : Part) (events : List ProcessEvent)
    → owed (opened part ∷ []) ≡ part ∷ []
    → reverse (owed (events ++ opened part ∷ [])) ≡ part ∷ reverse (owed events)
owed-opened part events due =
    ap reverse (owed-append events (opened part ∷ []))
    ∙ (rw due (reverse-append (owed events) (part ∷ [])))

pub silent-IsReady :
    (event : ProcessEvent) (s : Process)
    → owed (event ∷ []) ≡ []
    → closings (event ∷ []) ≡ []
    → IsReady s
    → IsReady (record s { events = s.events ++ event ∷ [] })
silent-IsReady event s free quiet v = record {
  whole = closings-append s.events (event ∷ []) ∙ (rw (v.whole, quiet) refl);
  owing = v.owing ∙ ap reverse (sym (owed-silent event s.events free));
  last = v.last;
}

pub defer-Keeps : (call : Deferred) → to_close (call ∷ []) ≡ [] → Keeps (defer_call call)
unfolding defer_call Keeps
defer-Keeps call free s v = record {
  whole = v.whole;
  owing = ground (arith, free, v.owing);
  last = (call ∷ v.last.0, ap (λ calls. call ∷ calls) v.last.1);
}

opened-IsReady :
    (part : Part) (s : Process)
    → owed (opened part ∷ []) ≡ part ∷ []
    → IsReady s
    → IsReady
        (record { events = s.events ++ opened part ∷ []; deferred = close_part part ∷ s.deferred })
opened-IsReady part s due v = record {
  whole = closings-append s.events (opened part ∷ []) ∙ (rw v.whole refl);
  owing = ap (λ parts. part ∷ parts) v.owing ∙ sym (owed-opened part s.events due);
  last = (close_part part ∷ v.last.0, ap (λ calls. close_part part ∷ calls) v.last.1);
}

fatal-Keeps : (format : Bytes) (args : List Arg) → Keeps (fatal format args)
unfolding fatal ◌>>◌ note Keeps
fatal-Keeps format args s v = silent-IsReady (wrote 4 (sprintf format args)) s refl refl v

pub debug_then :
    (format : Bytes) (args : List Arg) (rest : Main)
    → Keeps rest
    → Keeps (debug format args >> rest)
unfolding debug ◌>>◌ note Keeps
debug_then format args rest keeps s v =
    keeps (record s { events = s.events ++ wrote 0 (sprintf format args) ∷ [] })
      (silent-IsReady (wrote 0 (sprintf format args)) s refl refl v)

pub check_then :
    (failure : Failure) (format : Bytes) (args : Arg → List Arg) (rest : Main)
    → Keeps rest
    → Keeps (check failure format args >> rest)
unfolding ◌>>◌ fatal note Keeps
check_then none format args rest keeps s v = keeps s v
check_then (some e) format args rest keeps s v =
    fatal-Keeps format (args (str (failure_text e))) s v

pub opened_then :
    (part : Part) (rest : Main)
    → owed (opened part ∷ []) ≡ part ∷ []
    → Keeps rest
    → Keeps (note (opened part) >> defer_call (close_part part) >> rest)
unfolding ◌>>◌ note defer_call fatal Keeps
opened_then part rest due keeps s v =
    keeps
      (record { events = s.events ++ opened part ∷ []; deferred = close_part part ∷ s.deferred })
      (opened-IsReady part s due v)

pub open_part_then :
    (part : Part) (failure : Failure) (format : Bytes) (args : Arg → List Arg) (rest : Main)
    → owed (opened part ∷ []) ≡ part ∷ []
    → (failure ≡ none → Keeps rest)
    → Keeps (open_part part failure format args >> defer_call (close_part part) >> rest)
unfolding ◌>>◌ note defer_call fatal Keeps
open_part_then part none format args rest due keeps s v = opened_then part rest due (keeps refl) s v
open_part_then part (some e) format args rest due keeps s v =
    fatal-Keeps format (args (str (failure_text e))) s v

pub open_posts_then :
    (flags : Flags) (stale : Failure) (rest : Main)
    → stale ≡ none
    → Keeps rest
    → Keeps (open_posts flags stale >> defer_call (close_part posts_part) >> rest)
unfolding ◌>>◌ note defer_call fatal Keeps
open_posts_then flags none rest same keeps s v = opened_then posts_part rest refl keeps s v
open_posts_then flags (some e) rest same keeps s v = absurd (ground arith)

pub notifier_then :
    (failure : Failure) (format : Bytes) (args : Arg → List Arg) (rest : Main)
    → Keeps rest
    → Keeps (open_part notifier_part failure format args >> rest)
unfolding ◌>>◌ note fatal Keeps
notifier_then none format args rest keeps s v =
    keeps _ (silent-IsReady (opened notifier_part) s refl refl v)
notifier_then (some e) format args rest keeps s v =
    fatal-Keeps format (args (str (failure_text e))) s v

pub defer_then :
    (call : Deferred) (rest : Main)
    → to_close (call ∷ []) ≡ []
    → Keeps rest
    → Keeps (defer_call call >> rest)
unfolding ◌>>◌ defer_call Keeps
defer_then call rest free keeps s v = keeps _ (defer-Keeps call free s v)

pub served-Keeps :
    (serving : Option (Option Error)) (rest : Main) → Keeps rest → Keeps (served serving >> rest)
unfolding ◌>>◌ fatal note Keeps
served-Keeps none rest keeps s v = v
served-Keeps (some none) rest keeps s v = keeps s v
served-Keeps (some (some e)) rest keeps s v = fatal-Keeps _ (str (error_text e) ∷ []) s v

pub looped-Keeps : (turn : Turn) → Keeps (looped turn)
unfolding Keeps
looped-Keeps next s v = v
looped-Keeps stopped s v = v
looped-Keeps crashed_turn s v = v

pub debug-Keeps : (format : Bytes) (args : List Arg) → Keeps (debug format args)
unfolding debug note Keeps
debug-Keeps format args s v = silent-IsReady (wrote 0 (sprintf format args)) s refl refl v
