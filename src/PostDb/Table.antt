-- ===== src/PostDb/Table.antt =====
-- What the database holds after a history of calls, as PostgreSQL documents transactions: a
-- statement takes effect at the commit that follows it, a rollback forgets those since `begin`, and
-- a call that fails has no effect.
use au10_service.Prelude.{
  ◌≡◌, refl, sym, ◌∙◌, ◌≢◌, ◌⊎◌, inl, inr, true, false, none, some, List, [], ◌∷◌, ◌++◌, arith,
  Bool-cases, Option-cases, Outcome, ok, err, panic, append_assoc, append-nil, sym, ◌∙◌,
}
use au10_service.Text.Errors.{Error}
use au10_service.PostDb.Action.{
  Statement, DbEvent, begin, commit, rollback, exec, History, Store, DbAction, continue,
  keep_result,
}
use au10_service.PostDb.{
  PgDb, ask, begin_trans, commit_trans, rollback_trans, run_statement, Journal, handled,
}

pub record Table : Type 0 where
  pub pending : List Statement
  pub applied : List Statement

abbrev pub settle : DbEvent → Table → Table
settle begin t = record t { pending = [] }
settle commit t = record { pending = []; applied = t.applied ++ t.pending }
settle rollback t = record t { pending = [] }
settle (exec statement) t = record t { pending = t.pending ++ statement ∷ [] }

abbrev pub table : History → Table
table [] = record { pending = []; applied = [] }
table ((event, none) ∷ history) = settle event (table history)
table ((event, some e) ∷ history) = table history

-- The statements that were committed, whatever rows each of them finds.
abbrev pub applied : Store → List Statement
applied s = (table s.history).applied

abbrev pub pending : Store → List Statement
pending s = (table s.history).pending

-- A part of a transaction: nothing is committed yet, and if it succeeds the statements wait.
pub record Waits (s s' : Store) (result : Outcome Error (Unit {0})) (added : List Statement)
    : Type 0 where
  pub kept : applied s' ≡ applied s
  pub still_open : s'.is_open ≡ s.is_open
  pub waiting : result ≡ ok tt → pending s' ≡ pending s ++ added

pub run_statement-Waits :
    (db : PgDb) (statement : Statement) (s : Store)
    → Waits s (run_statement db statement s).0 (run_statement db statement s).1 (statement ∷ [])
unfolding run_statement ask
run_statement-Waits db statement s = ground arith

-- Two parts, one after the other.
pub continue-Waits :
    (s : Store) (first : Store × Outcome Error (Unit {0})) (second : DbAction (Unit {0}))
    {qs rs : List Statement}
    → Waits s first.0 first.1 qs
    → Waits first.0 (second first.0).0 (second first.0).1 rs
    → Waits s (continue first (λ _. second)).0 (continue first (λ _. second)).1 (qs ++ rs)
continue-Waits s (s', ok u) second {qs} {rs} v w = record {
  kept = ground arith;
  still_open = ground arith;
  waiting = λ same. w.waiting same ∙ (rw (v.waiting refl) (append_assoc (pending s) qs rs));
}
continue-Waits s (s', err e) second {qs} {rs} v w = record {
  kept = v.kept;
  still_open = v.still_open;
  waiting = λ same. ground arith;
}
continue-Waits s (s', panic) second {qs} {rs} v w = record {
  kept = v.kept;
  still_open = v.still_open;
  waiting = λ same. ground arith;
}

-- A whole transaction: all its statements, or none.
abbrev pub AllOrNothing : Store → Store × Outcome Error (Unit {0}) → List Statement → Type 0
AllOrNothing s r added =
    ((r.1 ≡ ok tt) × (applied r.0 ≡ applied s ++ added))
    ⊎ ((r.1 ≢ ok tt) × (applied r.0 ≡ applied s))

pub nothing-Waits : (s : Store) → Waits s s (ok tt) []
nothing-Waits s = record {
  kept = refl;
  still_open = refl;
  waiting = λ same. sym (append-nil (pending s));
}

pub begin_trans_lem :
    (db : PgDb) (s : Store)
    → (applied (begin_trans db s).0 ≡ applied s)
      × ((begin_trans db s).1 ≡ ok tt
          → ((begin_trans db s).0.is_open ≡ true) × (pending (begin_trans db s).0 ≡ []))
unfolding begin_trans ask
begin_trans_lem db s = elim (Option-cases (db.driver.answer s.history begin)) [
  | inl e ↦ rw e (refl, λ same. (refl, refl))
  | inr (fault, e) ↦ rw e (refl, λ same. ground arith)
]

-- What follows a `begin` that succeeds.
pub after_begin :
    (s : Store) (begun : Store × Outcome Error (Unit {0})) (rest : DbAction (Unit {0}))
    (added : List Statement)
    → applied begun.0 ≡ applied s
    → (begun.1 ≡ ok tt → AllOrNothing begun.0 (rest begun.0) added)
    → AllOrNothing s (continue begun (λ _. rest)) added
after_begin s (s', ok u) rest added same whole = rw (sym same) (whole refl)
after_begin s (s', err e) rest added same whole = inr (ground arith, same)
after_begin s (s', panic) rest added same whole = inr (ground arith, same)

-- The deferred rollback after what the transaction came to.
abbrev pub finish : PgDb → Store × Outcome Error (Unit {0}) → Store × Outcome Error (Unit {0})
finish db (s, result) = keep_result result (rollback_trans db s)

finish-closed :
    (db : PgDb) (r : Store × Outcome Error (Unit {0})) → r.0.is_open ≡ false → finish db r ≡ r
unfolding rollback_trans
finish-closed db (s, result) closed = rw closed

handled-lost :
    (s : Store) (result : Outcome Error (Unit {0})) (handling : Journal × Outcome Error (Unit {0}))
    → result ≢ ok tt
    → ((keep_result result (handled handling s)).1 ≢ ok tt)
      × (applied (keep_result result (handled handling s)).0 ≡ applied s)
handled-lost s result (j, ok u) failed = (failed, refl)
handled-lost s result (j, err e) failed = (failed, refl)
handled-lost s result (j, panic) failed = (ground arith, refl)

pub finish-open :
    (db : PgDb) (r : Store × Outcome Error (Unit {0}))
    → r.1 ≢ ok tt
    → ((finish db r).1 ≢ ok tt) × (applied (finish db r).0 ≡ applied r.0)
unfolding rollback_trans ask
finish-open db (s, result) failed = elim (Bool-cases s.is_open) [
  | inl opened ↦ elim (Option-cases (db.driver.answer s.history rollback)) [
    | inl e ↦ rw (opened, e) (failed, refl)
    | inr (fault, e) ↦
        rw (opened, e)
          (handled-lost (record s { history = (rollback, some fault) ∷ s.history; is_open = true })
            result _ failed)
  ]
  | inr closed ↦ rw closed (failed, refl)
]

-- A part that waits, then a commit, with a rollback deferred.
pub committed :
    (db : PgDb) (s : Store) (body : Store × Outcome Error (Unit {0})) (qs : List Statement)
    → Waits s body.0 body.1 qs
    → s.is_open ≡ true
    → pending s ≡ []
    → AllOrNothing s (finish db (continue body (λ _. commit_trans db))) qs
unfolding commit_trans rollback_trans ask
committed db s (s', err e) qs w opened fresh =
    let (lost, same) = finish-open db (s', err e) (ground arith) in inr (lost, same ∙ w.kept)
committed db s (s', panic) qs w opened fresh =
    let (lost, same) = finish-open db (s', panic) (ground arith) in inr (lost, same ∙ w.kept)
committed db s (s', ok u) qs w opened fresh =
    elim (Option-cases (db.driver.answer s'.history commit)) [
      | inl e ↦ inl (rw (w.still_open, opened, e) (refl, rw (w.kept, w.waiting refl, fresh)))
      | inr (fault, e) ↦ inr (
          rw (w.still_open, opened, e)
            (let (lost, same) =
                finish-open db
                  (
                    record s' { history = (commit, some fault) ∷ s'.history; is_open = true },
                    err fault,
                  )
                  (ground arith) in
              (lost, same ∙ w.kept)))
    ]
