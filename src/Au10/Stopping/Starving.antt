-- ===== src/Au10/Stopping/Starving.antt =====
-- au10/streamreader.go: what comes to the subscriptions once the goroutine around `Consume` has ended
-- with an error: `subscribe` starts it again only if the field `consumer` is nil, and only `stop` sets
-- it to nil.
use au10_service.Prelude.{◌≡◌, refl, ◌∙◌, ◌≢◌, ◌⊎◌, inl, inr, true, false, none, arith, ◌∙◌}
use au10_service.Au10.Reader.{is_empty}
use au10_service.Au10.Stopping.{
  Step, Stream, absent, gone, joined, returned, selecting, started, stopping, left, left_last,
  closed, closed_idle, stopped, handed, failed, converted, forwarded, broke, canceled, reported,
}

module _ {A : Type 0} where
  -- A run in which there always is a subscription.
  pub data Attended (s : Stream A) : Stream A → Type 0 where
    here : Attended s s
    onward :
        {t u : Stream A} → Attended s t → Step t u → is_empty u.subscriptions ≡ false → Attended s u

  -- The channels are empty and nothing fills them.
  record IsStarved (s : Stream A) : Type 0 where
    no_message : s.message_place ≡ none
    no_error : s.error_place ≡ none
    ended :
        ((s.goroutine ≡ gone) × (s.serving ≢ stopping false))
        ⊎ ((s.serving ≡ returned) × (s.goroutine ≡ absent))

  Step-IsStarved :
      {s t : Stream A}
      → Step s t
      → is_empty t.subscriptions ≡ false
      → IsStarved s
      → IsStarved t × (t.handled ≡ s.handled) × (t.failures ≡ s.failures)
  Step-IsStarved (started id at without) still v = absurd (elim v.ended [
    | inl (done', on) ↦ ground (arith, without, done')
    | inr (over, off) ↦ ground (arith, at, over, off)
  ])
  Step-IsStarved (joined id at something) still v =
      (record { no_message = v.no_message; no_error = v.no_error; ended = v.ended }, refl, refl)
  Step-IsStarved (left id at held others) still v =
      (record { no_message = v.no_message; no_error = v.no_error; ended = v.ended }, refl, refl)
  Step-IsStarved (left_last id at held alone) still v = absurd (ground (arith, alone, still))
  Step-IsStarved (closed at something) still v = (
    record {
      no_message = v.no_message;
      no_error = v.no_error;
      ended = elim v.ended [
        | inl (done, on) ↦ inl (done, λ same. ground (arith, same))
        | inr (over, off) ↦ absurd (something off)
      ];
    },
    refl,
    refl,
  )
  Step-IsStarved (closed_idle at nothing) still v = (
    record { no_message = v.no_message; no_error = v.no_error; ended = inr (refl, nothing) },
    refl,
    refl,
  )
  Step-IsStarved (stopped true at done) still v = (
    record { no_message = v.no_message; no_error = v.no_error; ended = inr (refl, refl) },
    refl,
    refl,
  )
  Step-IsStarved (stopped false at done) still v =
      absurd (elim v.ended [ inl (done', on) ↦ on at | inr (over, off) ↦ ground (arith, at, over) ])
  Step-IsStarved (handed m at full) still v = absurd (ground (arith, full, v.no_message))
  Step-IsStarved (failed e at full) still v = absurd (ground (arith, full, v.no_error))
  Step-IsStarved (converted m at) still v = absurd (elim v.ended [
    | inl (done', on) ↦ ground (arith, at, done')
    | inr (over, off) ↦ ground (arith, at, over, off)
  ])
  Step-IsStarved (forwarded m at free) still v = absurd (elim v.ended [
    | inl (done', on) ↦ ground (arith, at, done')
    | inr (over, off) ↦ ground (arith, at, over, off)
  ])
  Step-IsStarved (broke e at) still v = absurd (elim v.ended [
    | inl (done', on) ↦ ground (arith, at, done')
    | inr (over, off) ↦ ground (arith, at, over, off)
  ])
  Step-IsStarved (canceled at cut) still v = absurd (elim v.ended [
    | inl (done', on) ↦ ground (arith, at, done')
    | inr (over, off) ↦ ground (arith, at, over, off)
  ])
  Step-IsStarved (reported e at free) still v = absurd (elim v.ended [
    | inl (done', on) ↦ ground (arith, at, done')
    | inr (over, off) ↦ ground (arith, at, over, off)
  ])

  Attended-IsStarved :
      {s t : Stream A}
      → Attended s t
      → IsStarved s
      → IsStarved t × (t.handled ≡ s.handled) × (t.failures ≡ s.failures)
  Attended-IsStarved here v = (v, refl, refl)
  Attended-IsStarved (onward run step still) v =
      let (v', same, same') = Attended-IsStarved run v in
      let (v2, next, next') = Step-IsStarved step still v' in (v2, next ∙ same, next' ∙ same')

  -- When the goroutine around `Consume` is done while `serve` selects, and both channels are empty,
  -- nothing is given to any subscription any more, neither a record nor an error, as long as there is
  -- a subscription all the time, whoever comes and goes.
  pub gone-starves :
      (s t : Stream A)
      → s.serving ≡ selecting
      → s.goroutine ≡ gone
      → s.message_place ≡ none
      → s.error_place ≡ none
      → Attended s t
      → (t.handled ≡ s.handled) × (t.failures ≡ s.failures)
  gone-starves s t at done no_message no_error run =
      let (v, same, same') = Attended-IsStarved run (record {
        no_message = no_message;
        no_error = no_error;
        ended = inl (done, λ stops. ground (arith, at, stops));
      }) in
      (same, same')
