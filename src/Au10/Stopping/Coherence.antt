-- ===== src/Au10/Stopping/Coherence.antt =====
-- au10/streamreader.go: what holds in every state of `serve` and the goroutine around `Consume`.
use au10_service.Prelude.{
  ℕ, ◌≡◌, refl, sym, ◌∙◌, ◌≢◌, Bool, true, false, List, [], ◌∷◌, arith, sym, ◌∙◌,
}
use au10_service.Au10.Reader.{is_empty, member}
use au10_service.Au10.Stopping.{
  Reach, Step, Stream, absent, joined, returned, selecting, start, started, stopping, later, left,
  left_last, closed, closed_idle, stopped, handed, failed, converted, forwarded, broke, canceled,
  reported,
}

-- The context is cancelled exactly while `stop` waits; there is something to wait for then; and
-- whoever is subscribed has a consumer.
pub record IsCoherent {A : Type 0} (s : Stream A) : Type 0 where
  pub waits_cancelled : (quits : Bool) → s.serving ≡ stopping quits → s.cancelled ≡ true
  pub waits_for : (quits : Bool) → s.serving ≡ stopping quits → s.goroutine ≢ absent
  pub last_left : s.serving ≡ stopping false → s.subscriptions ≡ []
  pub unread : s.serving ≡ selecting → s.goroutine ≡ absent → s.subscriptions ≡ []
  pub uncancelled : s.serving ≡ selecting → s.goroutine ≢ absent → s.cancelled ≡ false
  pub over : s.serving ≡ returned → s.goroutine ≡ absent

is_empty-nil : (ids : List ℕ) → is_empty ids ≡ true → ids ≡ []
is_empty-nil [] same = refl
is_empty-nil (id ∷ ids) same = absurd (ground arith)

member-not_nil : (id : ℕ) (ids : List ℕ) → member id ids ≡ true → ids ≢ []
unfolding member
member-not_nil id [] held same = ground arith
member-not_nil id (other ∷ ids) held same = ground (arith, same)

module _ {A : Type 0} where
  -- The goroutine moves, and is there before and after.
  moved :
      (s t : Stream A)
      → t.serving ≡ s.serving
      → t.cancelled ≡ s.cancelled
      → t.subscriptions ≡ s.subscriptions
      → s.goroutine ≢ absent
      → t.goroutine ≢ absent
      → IsCoherent s
      → IsCoherent t
  moved s t same as_cancelled as_subscribed there still v = record {
    waits_cancelled = λ quits here. as_cancelled ∙ v.waits_cancelled quits (sym same ∙ here);
    waits_for = λ quits here. still;
    last_left = λ here. as_subscribed ∙ v.last_left (sym same ∙ here);
    unread = λ here nothing. absurd (still nothing);
    uncancelled = λ here something. as_cancelled ∙ v.uncancelled (sym same ∙ here) there;
    over = λ here. absurd (there (v.over (sym same ∙ here)));
  }

  Step-IsCoherent : {s t : Stream A} → Step s t → IsCoherent s → IsCoherent t
  Step-IsCoherent (started id at without) v = record {
    waits_cancelled = λ quits here. ground (arith, at, here);
    waits_for = λ quits here. ground (arith, at, here);
    last_left = λ here. ground (arith, at, here);
    unread = λ here nothing. ground (arith, nothing);
    uncancelled = λ here something. refl;
    over = λ here. ground (arith, at, here);
  }
  Step-IsCoherent (joined id at something) v = record {
    waits_cancelled = v.waits_cancelled;
    waits_for = v.waits_for;
    last_left = λ here. ground (arith, at, here);
    unread = λ here nothing. absurd (something nothing);
    uncancelled = v.uncancelled;
    over = v.over;
  }
  Step-IsCoherent {s} (left id at held others) v = record {
    waits_cancelled = v.waits_cancelled;
    waits_for = v.waits_for;
    last_left = λ here. ground (arith, at, here);
    unread =
        λ here nothing. absurd (member-not_nil id s.subscriptions held (v.unread here nothing));
    uncancelled = v.uncancelled;
    over = v.over;
  }
  Step-IsCoherent {s} (left_last id at held alone) v = record {
    waits_cancelled = λ quits here. refl;
    waits_for =
        λ quits here nothing. absurd (member-not_nil id s.subscriptions held (v.unread at nothing));
    last_left = λ here. is_empty-nil _ alone;
    unread = λ here nothing. ground (arith, here);
    uncancelled = λ here something. ground (arith, here);
    over = λ here. ground (arith, here);
  }
  Step-IsCoherent (closed at something) v = record {
    waits_cancelled = λ quits here. refl;
    waits_for = λ quits here. something;
    last_left = λ here. ground (arith, here);
    unread = λ here nothing. ground (arith, here);
    uncancelled = λ here something'. ground (arith, here);
    over = λ here. ground (arith, here);
  }
  Step-IsCoherent (closed_idle at nothing) v = record {
    waits_cancelled = λ quits here. ground (arith, here);
    waits_for = λ quits here. ground (arith, here);
    last_left = λ here. ground (arith, here);
    unread = λ here nothing'. ground (arith, here);
    uncancelled = λ here something. ground (arith, here);
    over = λ here. nothing;
  }
  Step-IsCoherent (stopped true at done) v = record {
    waits_cancelled = λ quits here. ground (arith, here);
    waits_for = λ quits here. ground (arith, here);
    last_left = λ here. ground (arith, here);
    unread = λ here nothing. ground (arith, here);
    uncancelled = λ here something. ground (arith, here);
    over = λ here. refl;
  }
  Step-IsCoherent (stopped false at done) v = record {
    waits_cancelled = λ quits here. ground (arith, here);
    waits_for = λ quits here. ground (arith, here);
    last_left = λ here. ground (arith, here);
    unread = λ here nothing. v.last_left at;
    uncancelled = λ here something. absurd (something refl);
    over = λ here. refl;
  }
  Step-IsCoherent (handed m at full) v = record {
    waits_cancelled = v.waits_cancelled;
    waits_for = v.waits_for;
    last_left = v.last_left;
    unread = v.unread;
    uncancelled = v.uncancelled;
    over = v.over;
  }
  Step-IsCoherent (failed e at full) v = record {
    waits_cancelled = v.waits_cancelled;
    waits_for = v.waits_for;
    last_left = v.last_left;
    unread = v.unread;
    uncancelled = v.uncancelled;
    over = v.over;
  }
  Step-IsCoherent {s} {t} (converted m at) v =
      moved s t refl refl refl (λ nothing. ground (arith, at, nothing))
        (λ nothing. ground (arith, nothing)) v
  Step-IsCoherent {s} {t} (forwarded m at free) v =
      moved s t refl refl refl (λ nothing. ground (arith, at, nothing))
        (λ nothing. ground (arith, nothing)) v
  Step-IsCoherent {s} {t} (broke e at) v =
      moved s t refl refl refl (λ nothing. ground (arith, at, nothing))
        (λ nothing. ground (arith, nothing)) v
  Step-IsCoherent {s} {t} (canceled at stop) v =
      moved s t refl refl refl (λ nothing. ground (arith, at, nothing))
        (λ nothing. ground (arith, nothing)) v
  Step-IsCoherent {s} {t} (reported e at free) v =
      moved s t refl refl refl (λ nothing. ground (arith, at, nothing))
        (λ nothing. ground (arith, nothing)) v

  -- In every state that can be reached, the context is cancelled exactly while `stop` waits, `stop`
  -- waits only for a goroutine that was started, and whoever is subscribed while `serve` selects has
  -- a consumer.
  pub Reach-IsCoherent : {s : Stream A} → Reach s → IsCoherent s
  Reach-IsCoherent start = record {
    waits_cancelled = λ quits here. ground (arith, here);
    waits_for = λ quits here. ground (arith, here);
    last_left = λ here. refl;
    unread = λ here nothing. refl;
    uncancelled = λ here something. absurd (something refl);
    over = λ here. refl;
  }
  Reach-IsCoherent (later run step) = Step-IsCoherent step (Reach-IsCoherent run)
