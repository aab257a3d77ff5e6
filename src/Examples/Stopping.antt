-- ===== src/Examples/Stopping.antt =====
-- The stopping of a stream's consumer: the theorems at concrete inputs.
use au10_service.Prelude.{ℕ, ◌≡◌, refl, ◌↔◌, true, false, none, some, [], ◌∷◌, arith}
use au10_service.Au10.Stopping.Starving.{Attended, gone-starves, onward, here}
use au10_service.Au10.Stopping.{gone, joined, left}
use au10_service.Au10.Stopping.{forwarding, reporting}
use au10_service.Au10.Reader.{add, member, remove}
use au10_service.Au10.Stopping.{
  Reach, Step, Stream, consuming, later, left_last, new_stream, start, started, stopping,
}
use au10_service.Au10.Stopping.Jam.{IsJammed, StuckAt, leaving-jams, stop-stuck_iff}

-- The only subscription has left, and the goroutine is in `Consume`.
abbrev left_alone : Stream ℕ
left_alone = record (new_stream {A = ℕ}) {
  serving = stopping false;
  goroutine = consuming;
  cancelled = true;
}

left_alone-Reach : Reach left_alone
unfolding add member remove
left_alone-Reach = later (later start (started 0 refl refl)) (left_last 0 refl refl refl)

stop-stuck_iff_example : ((t : Stream ℕ) → ¬ Step left_alone t) ↔ IsJammed left_alone
stop-stuck_iff_example = stop-stuck_iff left_alone false left_alone-Reach refl

leaving-jams_example :
    StuckAt {A = ℕ} (forwarding 7) (some 5) none × StuckAt {A = ℕ} (reporting none) none (some none)
leaving-jams_example = leaving-jams 7 5

-- `Consume` has failed, and the only subscription was told.
abbrev forsaken : Stream ℕ
forsaken = record (new_stream {A = ℕ}) { goroutine = gone; subscriptions = 0 ∷ [] }

-- Another subscription comes, and the first one leaves.
forsaken-Attended : Attended forsaken (record forsaken { subscriptions = 1 ∷ [] })
unfolding add member remove
forsaken-Attended =
    onward (onward here (joined 1 refl (λ same. ground (arith, same))) refl) (left 0 refl refl refl)
      refl

gone-starves_example :
    ((record forsaken { subscriptions = 1 ∷ [] }).handled ≡ forsaken.handled)
    × ((record forsaken { subscriptions = 1 ∷ [] }).failures ≡ forsaken.failures)
gone-starves_example =
    gone-starves forsaken (record forsaken { subscriptions = 1 ∷ [] }) refl refl refl refl
      forsaken-Attended
