-- ===== src/Au10/Dialling/Attempts.antt =====
-- au10/service.go: how often `DialOrPanic` tries, and how it ends.
use au10_service.Prelude.{
  ℕ, zero, suc, ◌+◌, ◌≤◌, ◌<◌, ◌≡◌, refl, subst, ◌⊎◌, inl, inr, true, false, arith, ltb, ◌==◌,
  Bool-cases, length, subst,
}
use au10_service.Text.{Bytes}
use au10_service.Text.Errors.{Error}
use au10_service.Au10.Log.{LogService, Journal}
use au10_service.Au10.Dialling.{
  Service, OpenedLog, log_opened, log_failed, dial, dialled, panicked, DialState, DialEnd,
  dial_from, dial_or_panic, attempted, logged, printed_line, dial_record, no_log,
}

-- The node has a type and a name.
abbrev pub IsNamed : Service → Type 0
IsNamed node = ((length node.node_type == 0) ≡ false) × ((length node.node_name == 0) ≡ false)

abbrev pub Fails : (ℕ → OpenedLog) → ℕ → Type 0
Fails opened k = (e : Error) × (opened k ≡ log_failed e)

-- From attempt `i` on, the first attempt that opens the log ends the loop with it, or none up to the
-- fifth does and the loop panics; it sleeps between two attempts only.
abbrev pub DialVerdict : (ℕ → OpenedLog) → ℕ → ℕ → DialState × DialEnd → Type 0
DialVerdict opened i sleeps r =
    ((n : ℕ) × (log : LogService) × (i ≤ n)
      × (n ≤ 5)
      × (opened n ≡ log_opened log)
      × ((k : ℕ) → i ≤ k → k < n → Fails opened k)
      × (r.1 ≡ dialled log)
      × (r.0.sleeps + i ≡ sleeps + n))
    ⊎ (((k : ℕ) → i ≤ k → k ≤ 5 → Fails opened k)
        × ((line : Bytes) × (r.1 ≡ panicked line))
        × (r.0.sleeps + i ≡ sleeps + 5))

dial-named :
    (node : Service) (opened : OpenedLog) (j : Journal)
    → IsNamed node
    → dial node opened j ≡ logged node opened j
unfolding dial
dial-named node opened j (typed, named) = rw (typed, named)

earlier_lem :
    (opened : ℕ → OpenedLog) (i : ℕ) {n : ℕ}
    → Fails opened i
    → ((k : ℕ) → i + 1 ≤ k → k < n → Fails opened k)
    → (k : ℕ) → i ≤ k
    → k < n
    → Fails opened k
earlier_lem opened i {n = n} now later k low high = elim (eq-or-lt i k low) [
  | inl same ↦ subst (Fails opened) same now
  | inr below ↦ later k below high
]
  where
    eq-or-lt : (i k : ℕ) → i ≤ k → (i ≡ k) ⊎ (i + 1 ≤ k)
    eq-or-lt i k low = omega arith

-- A failed attempt before the others.
extend :
    (opened : ℕ → OpenedLog) (i sleeps : ℕ) (r : DialState × DialEnd)
    → Fails opened i
    → DialVerdict opened (i + 1) (sleeps + 1) r
    → DialVerdict opened i sleeps r
extend opened i sleeps r now (inl (n, log, low, high, found, failed, ends, slept)) =
    inl (n, log, omega arith, high, found, earlier_lem opened i now failed, ends, omega arith)
extend opened i sleeps r now (inr (failed, ends, slept)) = inr (
  λ k low high.
      earlier_lem opened i {n = 6} now (λ k low below. failed k low (omega arith)) k low
        (omega arith),
  ends,
  omega arith,
)

attempted-cases :
    (node : Service) (opened : ℕ → OpenedLog) (i sleeps : ℕ) (j : Journal) (o : OpenedLog)
    (again : DialState → DialState × DialEnd)
    → opened i ≡ o
    → i ≤ 5
    → ((state : DialState) → i < 5 → DialVerdict opened (i + 1) state.sleeps (again state))
    → DialVerdict opened i sleeps (attempted node i again sleeps (logged node o j))
attempted-cases node opened i sleeps j (log_opened log) again same high rest =
    inl (i, log, omega arith, high, same, λ k low below. absurd (omega arith), refl, omega arith)
attempted-cases node opened i sleeps j (log_failed e) again same high rest =
    elim (Bool-cases (ltb i 5)) [
      | inl below ↦
          let after : DialState = record {
            journal = printed_line (dial_record node (no_log e)) j;
            sleeps = sleeps + 1;
          } in
          rw below (extend opened i sleeps (again after) (e, same) (rest after (ground arith)))
      | inr last ↦
          let five : i ≡ 5 = ground arith in
          rw last
            (inr (λ k low up. subst (Fails opened) (omega arith) (e, same), (_, refl), omega arith))
    ]

dial_from-cases :
    (fuel i : ℕ) (node : Service) (opened : ℕ → OpenedLog) (state : DialState)
    → IsNamed node
    → fuel + i ≡ 6
    → i ≤ 5
    → DialVerdict opened i state.sleeps (dial_from fuel i node opened state)
unfolding dial_from
dial_from-cases zero i node opened state named enough high = absurd (omega arith)
dial_from-cases (suc fuel) i node opened state named enough high =
    rw (dial-named node (opened i) state.journal named) (
      attempted-cases node opened i state.sleeps state.journal (opened i)
        (dial_from fuel (i + 1) node opened) refl high
        (λ later below.
          dial_from-cases fuel (i + 1) node opened later named (omega arith) (omega arith)))

-- With a node type and a node name: the first of five attempts that opens the log ends the loop
-- with it, all attempts before it having failed; or all five fail and the loop panics. It sleeps
-- once between two attempts, and never runs out of fuel.
pub dial_or_panic-cases :
    (node : Service) (opened : ℕ → OpenedLog) (j : Journal)
    → IsNamed node
    → DialVerdict opened 1 0 (dial_or_panic node opened j)
unfolding dial_or_panic
dial_or_panic-cases node opened j named =
    dial_from-cases 5 1 node opened (record { journal = j; sleeps = 0 }) named refl (omega arith)

-- Without a node type or a node name it panics on the first attempt, whatever the log would do.
pub dial_or_panic-unnamed :
    (node : Service) (opened : ℕ → OpenedLog) (j : Journal)
    → ((length node.node_type == 0) ≡ true) ⊎ ((length node.node_name == 0) ≡ true)
    → ((line : Bytes) × ((dial_or_panic node opened j).1 ≡ panicked line))
      × ((dial_or_panic node opened j).0.sleeps ≡ 0)
unfolding dial_or_panic dial_from dial
dial_or_panic-unnamed node opened j (inl e) = rw e ((_, refl), refl)
dial_or_panic-unnamed node opened j (inr e) = elim (Bool-cases (length node.node_type == 0)) [
  | inl untyped ↦ rw untyped ((_, refl), refl)
  | inr typed ↦ rw (typed, e) ((_, refl), refl)
]
