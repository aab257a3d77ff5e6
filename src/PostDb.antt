-- ===== src/PostDb.antt =====
-- postdb/db.go: the connection to the database, one transaction and the query of a post. What pgx
-- answers is a parameter: a `Driver` says of each call, by all that was asked before, which error
-- it returns, if any, and of each query the rows.
pub mod Action
pub mod Query
pub mod Table
pub mod Connection
pub mod Rows
use au10_service.Prelude.{
  ℕ, true, false, Option, none, some, List, [], ◌∷◌, if◌then◌else◌, Outcome, ok, err, panic, deref,
  deref,
}
use au10_service.Text.{codes}
use au10_service.Text.Errors.{Error, text, errorf, error_text}
use au10_service.Text.Format.{str, num}
use au10_service.Au10.Log.{Journal}
use au10_service.Au10.Post.{DbPost, DbMessage, Time, negsuc}
use au10_service.PostDb.Action.{
  Statement, DbEvent, begin, commit, rollback, exec, History, Store, DbAction,
}

-- One row of the query of a post: null columns are nil pointers.
pub record Row : Type 0 where
  pub author : Option ℕ
  pub message_id : Option ℕ
  pub message_kind : Option ℕ
  pub message_size : Option ℕ

-- Scanning a row may fail.
pub record Driver : Type 0 where
  pub answer : History → DbEvent → Option Error
  pub query : History → ℕ → Outcome Error (List (Outcome Error Row))

pub record PgDb : Type 0 where
  pub driver : Driver
  pub handle_fatal_error : Error → Journal → Journal × Outcome Error (Unit {0})

abbrev pub answered : DbEvent → Store → Option Error → Store × Outcome Error (Unit {0})
answered event s none = (record s { history = (event, none) ∷ s.history }, ok tt)
answered event s (some e) = (record s { history = (event, some e) ∷ s.history }, err e)

-- A call of the driver.
unfoldable pub ask : PgDb → DbEvent → DbAction (Unit {0})
ask db event s = answered event s (db.driver.answer s.history event)

abbrev started : Store × Outcome Error (Unit {0}) → Store × Outcome Error (Unit {0})
started (s, ok u) = (record s { is_open = true }, ok u)
started (s, err e) = (s, err e)
started (s, panic) = (s, panic)

abbrev ended : Store × Outcome Error (Unit {0}) → Store × Outcome Error (Unit {0})
ended (s, ok u) = (record s { is_open = false }, ok u)
ended (s, err e) = (s, err e)
ended (s, panic) = (s, panic)

-- `pgDB.Begin`.
unfoldable pub begin_trans : PgDb → DbAction (Unit {0})
begin_trans db s = started (ask db begin s)

-- `dbTrans.Commit`.
unfoldable pub commit_trans : PgDb → DbAction (Unit {0})
commit_trans db s =
    if s.is_open
    then ended (ask db commit s)
    else (s, err (text (codes "failed to commit as tx is closed")))

abbrev handled : Journal × Outcome Error (Unit {0}) → Store → Store × Outcome Error (Unit {0})
handled (j, result) s = (record s { journal = j }, result)

abbrev handle_failure : PgDb → Store × Outcome Error (Unit {0}) → Store × Outcome Error (Unit {0})
handle_failure db (s, err e) =
    handled
      (db.handle_fatal_error
        (errorf (codes "failed to rollback database transaction: \"%s\"") (str (error_text e) ∷ []))
        s.journal)
      s
handle_failure db (s, ok u) = (s, ok u)
handle_failure db (s, panic) = (s, panic)

-- `dbTrans.Rollback`.
unfoldable pub rollback_trans : PgDb → DbAction (Unit {0})
rollback_trans db s = if s.is_open then handle_failure db (ask db rollback s) else (s, ok tt)

-- `InsertPost`, `InsertMessage` and `AppendMessage`.
unfoldable pub run_statement : PgDb → Statement → DbAction (Unit {0})
run_statement db statement s = ask db (exec statement) s

-- The loop of `GetPost`: the author that is known so far, and the messages after it.
unfoldable pub read_rows :
    Option ℕ → List (Outcome Error Row) → Outcome Error (Option ℕ × List DbMessage)
read_rows author [] = ok (author, [])
read_rows author (err e ∷ rows) = err e
read_rows author (panic ∷ rows) = panic
read_rows author (ok row ∷ rows) =
    let known : Option ℕ = elim author [ none ↦ row.author | some a ↦ some a ] in
    let rest = read_rows known rows in
    elim row.message_id [
      | none ↦ rest
      | some id ↦ elim (deref {E = Error} row.message_kind) [
        | err e ↦ err e
        | panic ↦ panic
        | ok kind ↦ elim (deref {E = Error} row.message_size) [
          | err e ↦ err e
          | panic ↦ panic
          | ok size ↦ elim rest [
            | err e ↦ err e
            | panic ↦ panic
            | ok (found, messages) ↦
                ok (found, record { id = id; kind = kind; size = size } ∷ messages)
          ]
        ]
      ]
    ]

-- `UnixNano` of the zero `time.Time`.
abbrev pub zero_time : Time
zero_time = negsuc 6795364578871345151

-- `pgDB.GetPost`; the time and the place of the post keep their zero values.
unfoldable pub get_post : PgDb → History → ℕ → Outcome Error DbPost
get_post db history id = elim (db.driver.query history id) [
  | err e ↦ err e
  | panic ↦ panic
  | ok rows ↦ elim (read_rows none rows) [
    | err e ↦ err e
    | panic ↦ panic
    | ok (none, messages) ↦ err (errorf (codes "post with ID %d does not exists") (num id ∷ []))
    | ok (some author, messages) ↦ ok (record {
      id = id;
      author = author;
      time = zero_time;
      longitude = 0;
      latitude = 0;
      messages = messages;
    })
  ]
]
