-- ===== src/Au10/Consuming/Claims.antt =====
-- au10/streamreader.go: which messages of a claim reach `serve`, and what the watching goroutines do.
use au10_service.Prelude.{
  ◌≡◌, refl, sym, ap, subst, ◌≢◌, ◌⊎◌, inl, inr, List, [], ◌∷◌, ◌++◌, map, arith, Outcome, ok,
  Outcome-cases, append_assoc, append-nil, sym, subst, ap,
}
use au10_service.Au10.Consuming.{Claimed, consume_claim}
use au10_service.Au10.Publisher.{ConsumerMessage}
use au10_service.Text.{Bytes}
use au10_service.Text.Errors.{Error}

module _ {A : Type 0} (convert : ConsumerMessage → Outcome Error A) (topic : Bytes) where
  -- All of the messages were converted, forwarded in their order and marked.
  abbrev pub IsConsumed : List ConsumerMessage → Claimed A → Claimed A → Type 0
  IsConsumed ms c c' =
      (items : List A) × (map convert ms ≡ map ok items)
      × (c'.forwarded ≡ c.forwarded ++ items)
      × (c'.marked ≡ c.marked ++ ms)

  -- The messages before the first that cannot be converted were; that one and those behind it were
  -- neither forwarded nor marked, so that Kafka delivers them again.
  abbrev pub IsHalted : List ConsumerMessage → Claimed A → Claimed A → Type 0
  IsHalted ms c c' =
      (before : List ConsumerMessage) × (m : ConsumerMessage) × (after : List ConsumerMessage) × (ms
        ≡ before ++ m ∷ after)
      × ((a : A) → convert m ≢ ok a)
      × IsConsumed before c c'

  IsConsumed-first :
      (m : ConsumerMessage) (a : A) (ms : List ConsumerMessage) (c c' : Claimed A)
      → convert m ≡ ok a
      → IsConsumed ms (record { forwarded = c.forwarded ++ a ∷ []; marked = c.marked ++ m ∷ [] }) c'
      → IsConsumed (m ∷ ms) c c'
  IsConsumed-first m a ms c c' converted (items, same, forwarded, marked) = (
    a ∷ items,
    rw (converted, same) refl,
    rw (forwarded, append_assoc c.forwarded (a ∷ []) items) refl,
    rw (marked, append_assoc c.marked (m ∷ []) ms) refl,
  )

  IsConsumed-none : (c : Claimed A) → IsConsumed [] c c
  IsConsumed-none c = ([], refl, sym (append-nil c.forwarded), sym (append-nil c.marked))

  consume_claim-next :
      (m : ConsumerMessage) (a : A) (ms : List ConsumerMessage) (c : Claimed A)
      → convert m ≡ ok a
      → consume_claim convert topic (m ∷ ms) c
        ≡ consume_claim convert topic ms
            (record { forwarded = c.forwarded ++ a ∷ []; marked = c.marked ++ m ∷ [] })
  unfolding consume_claim
  consume_claim-next m a ms c converted = rw (consume_claim, converted) refl

  -- How a claim ends, and what it leaves.
  abbrev pub ClaimVerdict :
      List ConsumerMessage → Claimed A → Claimed A × Outcome Error (Unit {0}) → Type 0
  ClaimVerdict ms c r = ((r.1 ≡ ok tt) × IsConsumed ms c r.0) ⊎ ((r.1 ≢ ok tt) × IsHalted ms c r.0)

  first-ClaimVerdict :
      (m : ConsumerMessage) (a : A) (ms : List ConsumerMessage) (c : Claimed A)
      (r : Claimed A × Outcome Error (Unit {0}))
      → convert m ≡ ok a
      → ClaimVerdict ms
          (record { forwarded = c.forwarded ++ a ∷ []; marked = c.marked ++ m ∷ [] })
          r
      → ClaimVerdict (m ∷ ms) c r
  first-ClaimVerdict m a ms c (c', result) converted (inl (ended, all)) =
      inl (ended, IsConsumed-first m a ms c c' converted all)
  first-ClaimVerdict m a ms c (c', result) converted
        (inr (ended, (before, bad, after, split, unread, all))) =
      inr (
        ended,
        (
          m ∷ before,
          bad,
          after,
          ap (λ items. m ∷ items) split,
          unread,
          IsConsumed-first m a before c c' converted all,
        ),
      )

  -- A claim either ends without an error, and then all of its messages were converted, forwarded to
  -- `serve` in their order and marked as read; or it ends with an error or a panic at the first
  -- message that cannot be converted, and then this is so for exactly the messages before it.
  pub consume_claim-ClaimVerdict :
      (ms : List ConsumerMessage) (c : Claimed A)
      → ClaimVerdict ms c (consume_claim convert topic ms c)
  unfolding consume_claim
  consume_claim-ClaimVerdict [] c = inl (refl, IsConsumed-none c)
  consume_claim-ClaimVerdict (m ∷ ms) c = elim (Outcome-cases (convert m)) [
    | inl (a, converted) ↦
        let c1 : Claimed A = record {
          forwarded = c.forwarded ++ a ∷ [];
          marked = c.marked ++ m ∷ [];
        } in
        subst (ClaimVerdict (m ∷ ms) c) (sym (consume_claim-next m a ms c converted)) (
          first-ClaimVerdict m a ms c (consume_claim convert topic ms c1) converted
            (consume_claim-ClaimVerdict ms c1))
    | inr (inl (e, fails)) ↦
        rw (consume_claim, fails)
          (inr (
            (λ same. ground arith),
            ([], m, ms, refl, (λ a same. ground arith), IsConsumed-none c),
          ))
    | inr (inr panics) ↦
        rw (consume_claim, panics)
          (inr (
            (λ same. ground arith),
            ([], m, ms, refl, (λ a same. ground arith), IsConsumed-none c),
          ))
  ]
