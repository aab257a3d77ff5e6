-- ===== src/Process/Farewell.antt =====
-- accesspoint/main.go and publisher/main.go: how the two processes end.
use au10_service.Prelude.{
  ◌≡◌, refl, sym, ap, ◌∙◌, ◌≢◌, ◌⊎◌, inl, inr, Bool, true, false, List, [], ◌∷◌, ◌++◌, map, arith,
  Outcome, ok, err, panic, append_assoc, append-nil, sym, ◌∙◌, ap,
}
use au10_service.Process.{publisher_main}
use au10_service.Au10.Log.{LogService}
use au10_service.Au10.Dialling.{dialled}
use au10_service.Process.{
  AccessPointCalls, Flags, PublisherCalls, access_point_body, messages_stream_part, only,
  posts_stream_part, publisher_body, users_part, db_part, publisher_part, log_reader_part,
  server_part, write_line, wait_barrier, Process, CallEnd, returns, panics, dies, hangs, stuck,
  Deferred, Part, run_deferred, run_process, Pause, event_of, opened, access_point_main, running,
  returned, unwound, service_part, ◌>>◌, ProcessEvent, note, defer_call,
}
use au10_service.Process.Unwinding.{
  to_close, check_then, debug_then, notifier_then, open_part_then, open_posts_then, opened_then,
  served-Keeps, debug-Keeps, defer_then, looped-Keeps, IsReady, closings, closings-append, owed,
  closings-map, owed-append, farewell, owed-map,
}
use mathlib.Core.List.{reverse, map-append}
use au10_service.Text.{codes}
use au10_service.Process.Unwinding.{to_close, Keeps}

access_point_body-Keeps :
    (flags : Flags) (calls : AccessPointCalls) → Keeps (access_point_body flags calls)
access_point_body-Keeps flags calls =
    open_part_then users_part calls.users _ only _ refl (λ same_users. debug_then _ _ _ (
      open_part_then db_part calls.db _ _ _ refl (λ same_db.
        open_posts_then flags calls.db _ same_db (
          open_part_then publisher_part calls.publisher _ only _ refl (λ same_publisher.
            check_then calls.default_user _ only _ (
              opened_then log_reader_part _ refl (
                opened_then server_part _ refl (
                  debug_then _ _ _ (
                    check_then calls.listening _ only _
                      (debug_then _ _ _ (served-Keeps calls.serving _ (debug-Keeps _ _))))))))))))

publisher_body-Keeps : (flags : Flags) (calls : PublisherCalls) → Keeps (publisher_body flags calls)
publisher_body-Keeps flags calls = debug_then _ _ _ (
    open_part_then db_part calls.db _ _ _ refl (λ same_db.
      open_part_then users_part calls.users _ only _ refl (λ same_users.
        open_posts_then flags calls.users _ same_users (
          open_part_then posts_stream_part calls.posts_stream _ only _ refl (λ same_posts.
            open_part_then messages_stream_part calls.messages_stream _ only _ refl
              (λ same_messages. notifier_then calls.notifier _ only _ (
                defer_then (write_line 0 (codes "Stopping...")) _ refl (
                  defer_then wait_barrier _ refl
                    (debug_then _ _ _ (looped-Keeps calls.loop))))))))))

-- All that was opened was closed once, but for the notifier, the last part first, and the last line
-- of the log stands right before the service's closing.
pub record IsUnwound (s : Process) : Type 0 where
  pub all_closed : closings s.events ≡ reverse (owed s.events)
  pub parting : (front : List ProcessEvent) × (s.events ≡ front ++ map event_of farewell)

-- Whether the calls behind a deferred call still run.
abbrev pub goes_on : CallEnd → Bool
goes_on returns = true
goes_on panics = true
goes_on dies = false
goes_on hangs = false

CallEnd-cases :
    (end : CallEnd) → ((end ≡ returns) ⊎ (end ≡ panics)) ⊎ ((end ≡ dies) ⊎ (end ≡ hangs))
CallEnd-cases returns = inl (inl refl)
CallEnd-cases panics = inl (inr refl)
CallEnd-cases dies = inr (inl refl)
CallEnd-cases hangs = inr (inr refl)

to_close_first :
    (call : Deferred) (calls : List Deferred)
    → to_close (call ∷ []) ++ to_close calls ≡ to_close (call ∷ calls)
to_close_first call calls = ground arith

-- How a process is left. While it runs it has closed nothing. What it has closed are the last parts
-- that it opened, the last one first. All is closed if no closing hangs or comes with a panic
-- elsewhere.
pub record IsLeft (ends : Deferred → CallEnd) (result : Process × Outcome Pause (Unit {0}))
    : Type 0 where
  pub still_open : result.1 ≡ err running → closings result.0.events ≡ []
  pub in_order :
      (rest : List Part) × (reverse (owed result.0.events) ≡ closings result.0.events ++ rest)
  pub all_done :
      ((call : Deferred) → goes_on (ends call) ≡ true)
      → ¬ (result.1 ≡ err running)
      → IsUnwound result.0

-- The deferred calls on their way: what was closed and what will be are all that is owed.
record IsUnwinding (s : Process) : Type 0 where
  pub order : closings s.events ++ to_close s.deferred ≡ reverse (owed s.events)
  pub parting :
      (front : List ProcessEvent) × (s.events ++ map event_of s.deferred
        ≡ front ++ map event_of farewell)

begun_call-IsUnwinding :
    (call : Deferred) (calls : List Deferred) (events : List ProcessEvent)
    → IsUnwinding (record { events = events; deferred = call ∷ calls })
    → IsUnwinding (record { events = events ++ event_of call ∷ []; deferred = calls })
begun_call-IsUnwinding call calls events v = record {
  order =
      ap (λ parts. parts ++ to_close calls)
        (closings-append events (event_of call ∷ [])
          ∙ ap (λ parts. closings events ++ parts) (closings-map (call ∷ [])))
      ∙ append_assoc (closings events) (to_close (call ∷ [])) (to_close calls)
      ∙ ap (λ parts. closings events ++ parts) (to_close_first call calls)
      ∙ v.order
      ∙ ap reverse (
          sym (
            owed-append events (event_of call ∷ [])
            ∙ ap (λ parts. owed events ++ parts) (owed-map (call ∷ []))
            ∙ append-nil (owed events)));
  parting =
      (v.parting.0, append_assoc events (event_of call ∷ []) (map event_of calls) ∙ v.parting.1);
}

run_deferred-IsUnwinding :
    (ends : Deferred → CallEnd) (calls : List Deferred) (events : List ProcessEvent)
    (result : Outcome Pause (Unit {0}))
    → IsUnwinding (record { events = events; deferred = calls })
    → IsUnwinding (run_deferred ends calls events result).0
unfolding run_deferred
run_deferred-IsUnwinding ends [] events result v = v
run_deferred-IsUnwinding ends (call ∷ calls) events result v =
    let later = begun_call-IsUnwinding call calls events v in
    elim (CallEnd-cases (ends call)) [
      | inl (inl same) ↦
          rw (run_deferred, same)
            (run_deferred-IsUnwinding ends calls (events ++ event_of call ∷ []) result later)
      | inl (inr same) ↦
          rw (run_deferred, same)
            (run_deferred-IsUnwinding ends calls (events ++ event_of call ∷ []) panic later)
      | inr (inl same) ↦ rw (run_deferred, same) later
      | inr (inr same) ↦ rw (run_deferred, same) later
    ]

run_deferred-completes :
    (ends : Deferred → CallEnd) (calls : List Deferred) (events : List ProcessEvent)
    (result : Outcome Pause (Unit {0}))
    → ((call : Deferred) → goes_on (ends call) ≡ true)
    → (run_deferred ends calls events result).0.deferred ≡ []
unfolding run_deferred
run_deferred-completes ends [] events result all = refl
run_deferred-completes ends (call ∷ calls) events result all = elim (CallEnd-cases (ends call)) [
  | inl (inl same) ↦
      rw (run_deferred, same)
        (run_deferred-completes ends calls (events ++ event_of call ∷ []) result all)
  | inl (inr same) ↦
      rw (run_deferred, same)
        (run_deferred-completes ends calls (events ++ event_of call ∷ []) panic all)
  | inr (inl same) ↦ absurd (ground (arith, all call, same))
  | inr (inr same) ↦ absurd (ground (arith, all call, same))
]

-- A process whose deferred calls were begun does not run.
run_deferred-over :
    (ends : Deferred → CallEnd) (calls : List Deferred) (events : List ProcessEvent)
    (result : Outcome Pause (Unit {0}))
    → result ≢ err running
    → (run_deferred ends calls events result).1 ≢ err running
unfolding run_deferred
run_deferred-over ends [] events result over = over
run_deferred-over ends (call ∷ calls) events result over = elim (CallEnd-cases (ends call)) [
  | inl (inl same) ↦
      rw (run_deferred, same)
        (run_deferred-over ends calls (events ++ event_of call ∷ []) result over)
  | inl (inr same) ↦
      rw (run_deferred, same)
        (run_deferred-over ends calls (events ++ event_of call ∷ []) panic
          (λ same'. ground (arith, same')))
  | inr (inl same) ↦ rw (run_deferred, same) (λ same'. ground (arith, same'))
  | inr (inr same) ↦ rw (run_deferred, same) (λ same'. ground (arith, same'))
]

IsReady-IsUnwinding : (s : Process) → IsReady s → IsUnwinding s
IsReady-IsUnwinding s v = record {
  order = ap (λ parts. parts ++ to_close s.deferred) v.whole ∙ v.owing;
  parting = (
    s.events ++ map event_of v.last.0,
    ap (λ calls. s.events ++ map event_of calls) v.last.1
        ∙ rw (map-append event_of v.last.0 farewell)
            (sym (append_assoc s.events (map event_of v.last.0) (map event_of farewell))),
  );
}

IsUnwinding-IsUnwound : (s : Process) → s.deferred ≡ [] → IsUnwinding s → IsUnwound s
IsUnwinding-IsUnwound s none_left v = record {
  all_closed =
      sym (append-nil (closings s.events))
      ∙ ap (λ calls. closings s.events ++ to_close calls) (sym none_left)
      ∙ v.order;
  parting = (
    v.parting.0,
    sym (append-nil s.events)
        ∙ ap (λ calls. s.events ++ map event_of calls) (sym none_left)
        ∙ v.parting.1,
  );
}

run_deferred-IsLeft :
    (ends : Deferred → CallEnd) (s : Process) (result : Outcome Pause (Unit {0}))
    → result ≢ err running
    → IsReady s
    → IsLeft ends (run_deferred ends s.deferred s.events result)
run_deferred-IsLeft ends s result over v =
    let left = run_deferred-IsUnwinding ends s.deferred s.events result (IsReady-IsUnwinding s v) in
    record {
      still_open = λ runs. absurd (run_deferred-over ends s.deferred s.events result over runs);
      in_order = (_, sym left.order);
      all_done = λ all done.
          IsUnwinding-IsUnwound (run_deferred ends s.deferred s.events result).0
            (run_deferred-completes ends s.deferred s.events result all) left;
    }

unwound-IsLeft :
    (ends : Deferred → CallEnd) (result : Process × Outcome Pause (Unit {0}))
    → IsReady result.0
    → IsLeft ends (unwound ends result)
unwound-IsLeft ends (s, ok done) v =
    run_deferred-IsLeft ends s (ok tt) (λ same. ground (arith, same)) v
unwound-IsLeft ends (s, err running) v = record {
  still_open = λ same. v.whole;
  in_order =
      (reverse (owed s.events), ap (λ parts. parts ++ reverse (owed s.events)) (sym v.whole));
  all_done = λ all over. absurd (over refl);
}
unwound-IsLeft ends (s, err returned) v =
    run_deferred-IsLeft ends s (err returned) (λ same. ground (arith, same)) v
unwound-IsLeft ends (s, err stuck) v =
    run_deferred-IsLeft ends s (err stuck) (λ same. ground (arith, same)) v
unwound-IsLeft ends (s, panic) v = run_deferred-IsLeft ends s panic (λ same. ground (arith, same)) v

-- Behind the opened service with its two deferred calls.
begun : Process
begun = record { events = opened service_part ∷ []; deferred = farewell }

begun-IsReady : IsReady begun
unfolding begun
begun-IsReady = record { whole = refl; owing = refl; last = ([], refl) }

-- Once it is connected, the access point leaves nothing open: when it does not run any more, all
-- that it opened is closed, the last part first, its last line is "Stopped.", and the service is
-- closed behind it. This holds whichever call fails, if no closing hangs or comes with a panic of
-- another goroutine; in any case what it has closed are the last parts that it opened, the last one
-- first. While it runs, nothing is closed.
pub access_point_main-IsLeft :
    (flags : Flags) (calls : AccessPointCalls) (log : LogService) (ends : Deferred → CallEnd)
    → calls.dial ≡ dialled log
    → IsLeft ends (run_process ends (access_point_main flags calls))
unfolding run_process access_point_main ◌>>◌ note defer_call Keeps begun
access_point_main-IsLeft flags calls log ends same = rw same (
    unwound-IsLeft ends (access_point_body flags calls begun)
      (access_point_body-Keeps flags calls begun begun-IsReady))

-- Once it is connected, the publishing node closes all that it opened but its notifier when it does
-- not run any more: the last part first, its last line is "Stopped.", and the service is closed behind
-- it. This holds whichever call fails and however the main loop ends, if no closing hangs or comes
-- with a panic of another goroutine. In any case what it has closed are the last parts that it opened,
-- the last one first, and while it runs nothing is closed.
pub publisher_main-IsLeft :
    (flags : Flags) (calls : PublisherCalls) (log : LogService) (ends : Deferred → CallEnd)
    → calls.dial ≡ dialled log
    → IsLeft ends (run_process ends (publisher_main flags calls))
unfolding run_process publisher_main ◌>>◌ note defer_call Keeps begun
publisher_main-IsLeft flags calls log ends same = rw same (
    unwound-IsLeft ends (publisher_body flags calls begun)
      (publisher_body-Keeps flags calls begun begun-IsReady))
