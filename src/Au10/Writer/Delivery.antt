-- ===== src/Au10/Writer/Delivery.antt =====
-- au10/streamwriter.go.
-- What the stream writer promises: one message or one error, and no call of itself.
use au10_service.Prelude.{
  ℕ, ◌+◌, ◌≡◌, refl, ◌∙◌, ◌≢◌, ◌↔◌, ◌⊎◌, inl, inr, List, [], ◌∷◌, ◌++◌, arith, length, Outcome, ok,
  Outcome-cases, ◌∙◌,
}
use au10_service.Text.{Bytes, codes, bytes_eq_iff}
use au10_service.Text.Errors.{Error, error_text}
use au10_service.Text.Format.{str, sprintf}
use au10_service.Au10.Log.{Journal}
use au10_service.Au10.Log.Records.{length-pushed-publish}
use au10_service.Au10.Post.{Time, u32}
use au10_service.Au10.Writer.{
  ProducerMessage, StreamWriter, Answer, errors_closed, failed, successes_closed, stored, complain,
  report_errors, answer_of, serialize, push_async, push, log_stream_topic,
}

complain_log-pushed :
    (stream : StreamWriter) (format : Bytes) (e : Error) (j : Journal)
    → stream.topic ≡ log_stream_topic
    → (complain stream format e j).pushed ≡ j.pushed
unfolding complain
complain_log-pushed stream format e j h = ground (arith, bytes_eq_iff stream.topic log_stream_topic)

-- Errors of writing the log's own stream never add a record to the log's stream, so the log does
-- not feed itself.
pub report_errors_log-pushed :
    (stream : StreamWriter) (es : List Error) (j : Journal)
    → stream.topic ≡ log_stream_topic
    → (report_errors stream es j).pushed ≡ j.pushed
unfolding report_errors
report_errors_log-pushed stream [] j h = refl
report_errors_log-pushed stream (e ∷ es) j h =
    report_errors_log-pushed stream es _ h ∙ complain_log-pushed stream _ e j h

complain_other-pushed :
    (stream : StreamWriter) (format : Bytes) (e : Error) (j : Journal)
    → stream.topic ≢ log_stream_topic
    → length (complain stream format e j).pushed ≡ length j.pushed + 1
unfolding complain
complain_other-pushed stream format e j h = ground (
  arith,
  bytes_eq_iff stream.topic log_stream_topic,
  length-pushed-publish stream.log 3 (sprintf format (str stream.topic ∷ str (error_text e) ∷ []))
      [] j,
)

-- Every other stream reports each of its errors as one record of the log.
pub report_errors_other-pushed :
    (stream : StreamWriter) (es : List Error) (j : Journal)
    → stream.topic ≢ log_stream_topic
    → length (report_errors stream es j).pushed ≡ length j.pushed + length es
unfolding report_errors
report_errors_other-pushed stream [] j h = omega arith
report_errors_other-pushed stream (e ∷ es) j h = omega (
  arith,
  report_errors_other-pushed stream es
      (complain stream (codes "Stream \"%s\" writing error: \"%s\".") e j) h,
  complain_other-pushed stream (codes "Stream \"%s\" writing error: \"%s\".") e j h,
)

answer_of_iff :
    (answer : Answer) (id : ℕ) (time : Time)
    → (answer_of answer ≡ ok (id, time))
      ↔ ((offset : ℕ) × (answer ≡ stored offset time) × (id ≡ u32 offset))
unfolding answer_of
answer_of_iff errors_closed id time = (λ h. ground arith, λ (o, same, eq). ground arith)
answer_of_iff (failed e) id time = (λ h. ground arith, λ (o, same, eq). ground arith)
answer_of_iff successes_closed id time = (λ h. ground arith, λ (o, same, eq). ground arith)
answer_of_iff (stored offset t) id time =
    (λ h. (offset, ground arith, ground arith), λ (o, same, eq). ground arith)

module _ {ℓ} {A : Type ℓ} (marshal : A → Outcome Error Bytes) where
  -- `Push` succeeds exactly when the value was serialized and the producer says that it is stored;
  -- its identifier is then the offset cut to 32 bits, and its time the stored one.
  pub push_iff :
      (stream : StreamWriter) (source : A) (answer : Answer) (input : List ProducerMessage) (id : ℕ)
      (time : Time)
      → ((push marshal stream source answer input).1 ≡ ok (id, time)) ↔ (
          ((value : Bytes) × (marshal source ≡ ok value))
          × ((offset : ℕ) × (answer ≡ stored offset time) × (id ≡ u32 offset)))
  unfolding push serialize
  push_iff stream source answer input id time = elim (Outcome-cases (marshal source)) [
    | inl (value, e) ↦ (
      λ h. ((value, e), (answer_of_iff answer id time).0 (ground arith)),
      λ (m, a). let done = (answer_of_iff answer id time).1 a in ground arith,
    )
    | inr (inl (f, e)) ↦ (λ h. ground arith, λ (m, a). ground (arith, m.1))
    | inr (inr e) ↦ (λ h. ground arith, λ (m, a). ground (arith, m.1))
  ]

  -- A push, of either kind, gives the producer exactly one message, of this writer's topic and key
  -- and of the serialized value, and the asynchronous one then succeeds; or the value cannot be
  -- serialized, and then both give the producer nothing and do not succeed.
  pub pushes_one_or_none :
      (stream : StreamWriter) (source : A) (answer : Answer) (input : List ProducerMessage)
      → ((value : Bytes) × (marshal source ≡ ok value)
          × ((push marshal stream source answer input).0
              ≡ input ++ record { topic = stream.topic; key = stream.key; value = value } ∷ [])
          × (push_async marshal stream source input ≡ (
            input ++ record { topic = stream.topic; key = stream.key; value = value } ∷ [],
            ok tt,
          )))
        ⊎ (((value : Bytes) → marshal source ≢ ok value)
            × ((push marshal stream source answer input).0 ≡ input)
            × ((push_async marshal stream source input).0 ≡ input)
            × ((push_async marshal stream source input).1 ≢ ok tt)
            × ((r : ℕ × Time) → (push marshal stream source answer input).1 ≢ ok r))
  unfolding push push_async serialize
  pushes_one_or_none stream source answer input = elim (Outcome-cases (marshal source)) [
    | inl (value, e) ↦ inl (value, e, ground arith, ground arith)
    | inr (inl (f, e)) ↦ inr (
      λ value h. ground arith,
      ground arith,
      ground arith,
      λ h. ground arith,
      λ r h. ground arith,
    )
    | inr (inr e) ↦ inr (
      λ value h. ground arith,
      ground arith,
      ground arith,
      λ h. ground arith,
      λ r h. ground arith,
    )
  ]
