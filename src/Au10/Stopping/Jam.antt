-- ===== src/Au10/Stopping/Jam.antt =====
-- au10/streamreader.go: when `stop` waits for ever.
use au10_service.Prelude.{
  ◌≡◌, refl, ◌≢◌, ◌↔◌, ◌⊎◌, inl, inr, Bool, true, false, Option, none, some, arith, Option-cases,
}
use au10_service.Text.Errors.{Error}
use au10_service.Au10.Reader.{member, add, remove}
use au10_service.Au10.Stopping.{
  Consuming, Reach, Step, Stream, absent, gone, joined, selecting, start, started, stopping, later,
  left, left_last, closed, closed_idle, stopped, handed, failed, converted, forwarded, broke,
  canceled, reported, consuming, forwarding, reporting,
}
use au10_service.Au10.Stopping.Coherence.{Reach-IsCoherent}

module _ {A : Type 0} where
  -- The goroutine waits for a place in a channel that is full.
  abbrev pub IsJammed : Stream A → Type 0
  IsJammed s =
      ((m : A) × (held : A) × (s.goroutine ≡ forwarding m) × (s.message_place ≡ some held))
      ⊎ ((e : Option Error) × (held : Option Error) × (s.goroutine ≡ reporting e)
          × (s.error_place ≡ some held))

  -- What `serve` does at its select, it does not do in `stop`.
  busy : (s : Stream A) (quits : Bool) → s.serving ≡ stopping quits → s.serving ≢ selecting
  busy s quits at here = ground (arith, at, here)

  jammed : (s t : Stream A) (quits : Bool) → s.serving ≡ stopping quits → IsJammed s → ¬ Step s t
  jammed s t quits at jam (started id here x) = busy s quits at here
  jammed s t quits at jam (joined id here x) = busy s quits at here
  jammed s t quits at jam (left id here x y) = busy s quits at here
  jammed s t quits at jam (left_last id here x y) = busy s quits at here
  jammed s t quits at jam (closed here x) = busy s quits at here
  jammed s t quits at jam (closed_idle here x) = busy s quits at here
  jammed s t quits at jam (handed m' here x) = busy s quits at here
  jammed s t quits at jam (failed e' here x) = busy s quits at here
  jammed s t quits at (inl (m, held, is, full)) (stopped q here done) = ground (arith, is, done)
  jammed s t quits at (inr (e, held, is, full)) (stopped q here done) = ground (arith, is, done)
  jammed s t quits at (inl (m, held, is, full)) (converted m' here) = ground (arith, is, here)
  jammed s t quits at (inr (e, held, is, full)) (converted m' here) = ground (arith, is, here)
  jammed s t quits at (inl (m, held, is, full)) (forwarded m' here free) =
      ground (arith, full, free)
  jammed s t quits at (inr (e, held, is, full)) (forwarded m' here free) = ground (arith, is, here)
  jammed s t quits at (inl (m, held, is, full)) (broke e' here) = ground (arith, is, here)
  jammed s t quits at (inr (e, held, is, full)) (broke e' here) = ground (arith, is, here)
  jammed s t quits at (inl (m, held, is, full)) (canceled here cut) = ground (arith, is, here)
  jammed s t quits at (inr (e, held, is, full)) (canceled here cut) = ground (arith, is, here)
  jammed s t quits at (inl (m, held, is, full)) (reported e' here free) = ground (arith, is, here)
  jammed s t quits at (inr (e, held, is, full)) (reported e' here free) = ground (arith, full, free)

  unjammed :
      (s : Stream A) (quits : Bool)
      → s.serving ≡ stopping quits
      → s.cancelled ≡ true
      → (g : Consuming A) → s.goroutine ≡ g
      → g ≢ absent
      → IsJammed s ⊎ ((t : Stream A) × Step s t)
  unjammed s quits at cut absent is there = absurd (there refl)
  unjammed s quits at cut consuming is there = inr (_, canceled is cut)
  unjammed s quits at cut gone is there = inr (_, stopped quits at is)
  unjammed s quits at cut (forwarding m) is there = elim (Option-cases s.message_place) [
    | inl free ↦ inr (_, forwarded m is free)
    | inr (held, full) ↦ inl (inl (m, held, is, full))
  ]
  unjammed s quits at cut (reporting e) is there = elim (Option-cases s.error_place) [
    | inl free ↦ inr (_, reported e is free)
    | inr (held, full) ↦ inl (inr (e, held, is, full))
  ]

  -- While `serve` waits in `stop`, in a state that can be reached, no step is possible, of `serve` or
  -- of the goroutine around `Consume`, exactly when this goroutine waits for a place in a full
  -- channel. (Only `serve` empties the channels.)
  pub stop-stuck_iff :
      (s : Stream A) (quits : Bool)
      → Reach s
      → s.serving ≡ stopping quits
      → ((t : Stream A) → ¬ Step s t) ↔ IsJammed s
  stop-stuck_iff s quits run at = (sound, λ jam t. jammed s t quits at jam)
    where
      sound : ((t : Stream A) → ¬ Step s t) → IsJammed s
      sound stuck =
          let v = Reach-IsCoherent run in
          elim (unjammed s quits at (v.waits_cancelled quits at) s.goroutine refl
            (v.waits_for quits at)) [ inl jam ↦ jam | inr (t, step) ↦ absurd (stuck t step) ]

  -- `serve` waits for the goroutine, the goroutine waits in front of a full channel, and there is no
  -- step.
  abbrev pub StuckAt : Consuming A → Option A → Option (Option Error) → Type 0
  StuckAt goroutine message_place error_place =
      (s : Stream A) × Reach s
      × (s.serving ≡ stopping false)
      × (s.goroutine ≡ goroutine)
      × (s.message_place ≡ message_place)
      × (s.error_place ≡ error_place)
      × ((t : Stream A) → ¬ Step s t)

  -- A subscription comes, two messages come, and the subscription leaves.
  jammed_by_messages : (m held : A) → StuckAt (forwarding m) (some held) none
  unfolding member add remove
  jammed_by_messages m held =
      let opened = later start (started 0 refl refl) in
      let first = later (later opened (converted held refl)) (forwarded held refl refl) in
      let second = later first (converted m refl) in
      (
        _,
        later second (left_last 0 refl refl refl),
        refl,
        refl,
        refl,
        refl,
        λ t. jammed _ t false refl (inl (m, held, refl, refl)),
      )

  -- A subscription comes and leaves, and so does another one, while `serve` does not take from the
  -- channel of errors.
  jammed_by_errors : StuckAt (reporting none) none (some none)
  unfolding member add remove
  jammed_by_errors =
      let opened = later start (started 0 refl refl) in
      let leaving = later opened (left_last 0 refl refl refl) in
      let ended = later (later leaving (canceled refl refl)) (reported none refl refl) in
      let again = later (later ended (stopped false refl refl)) (started 1 refl refl) in
      let leaving' = later again (left_last 1 refl refl refl) in
      (
        _,
        later leaving' (canceled refl refl),
        refl,
        refl,
        refl,
        refl,
        λ t. jammed _ t false refl (inr (none, none, refl, refl)),
      )

  -- The last subscription's leaving can wait for ever: there is a run to a state in which `serve`
  -- waits in `stop` and nothing can go on, whatever two messages have come before it left, with the
  -- first of them in the channel and the goroutine in front of it with the second. And there is one
  -- without any message, with the nil of an earlier `stop` still in the channel of errors and the
  -- goroutine in front of it with the next one.
  pub leaving-jams :
      (m held : A)
      → StuckAt (forwarding m) (some held) none × StuckAt (reporting none) none (some none)
  leaving-jams m held = (jammed_by_messages m held, jammed_by_errors)
