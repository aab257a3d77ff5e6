-- ===== src/Node/Storing.antt =====
-- publisher/main.go, `storePost` and `storeMessage`: storing is all or nothing.
use au10_service.Prelude.{
  ℕ, ◌≡◌, refl, ap, subst, ◌∙◌, inl, inr, true, Option, none, some, List, [], ◌∷◌, ◌++◌, map, arith,
  Outcome, ok, err, panic, deref, deref, subst, ◌∙◌, ap,
}
use au10_service.Text.Errors.{Error}
use au10_service.Au10.Post.{Post, MessageData, GeoPoint}
use au10_service.Au10.Publisher.{PublisherMessageData}
use au10_service.PostDb.Action.{
  ◌>>=◌, ◌>>◌, lift, deferring, Statement, Store, DbAction, insert_post, insert_message,
  append_message, continue, DbEvent, exec, commit, begin,
}
use au10_service.PostDb.{PgDb, rollback_trans, begin_trans, commit_trans, run_statement, ask}
use au10_service.PostDb.Table.{
  Waits, AllOrNothing, applied, continue-Waits, run_statement-Waits, nothing-Waits, begin_trans_lem,
  after_begin, committed, finish, finish-open, pending,
}
use au10_service.Node.{insert_messages, store_post, store_message, History}

abbrev pub message_statement : ℕ → MessageData → Statement
message_statement post m = insert_message m.id post m.kind m.size

-- What is stored of a post; without a place there is none.
abbrev pub statements_at : Post → Option GeoPoint → List Statement
statements_at post none = []
statements_at post (some place) =
    insert_post post.content.id post.content.author place.latitude place.longitude
    ∷ map (message_statement post.content.id) post.content.messages

abbrev pub post_statements : Post → List Statement
post_statements post = statements_at post post.content.location

insert_messages-Waits :
    (db : PgDb) (post : ℕ) (ms : List MessageData) (s : Store)
    → Waits s
        (insert_messages db post ms s).0
        (insert_messages db post ms s).1
        (map (message_statement post) ms)
unfolding insert_messages
insert_messages-Waits db post [] s = nothing-Waits s
insert_messages-Waits db post (m ∷ ms) s =
    continue-Waits s (run_statement db (message_statement post m) s) (insert_messages db post ms)
      (run_statement-Waits db (message_statement post m) s) (insert_messages-Waits db post ms _)

continue_assoc :
    (r : Store × Outcome Error (Unit {0})) (second third : DbAction (Unit {0}))
    → continue (continue r (λ _. second)) (λ _. third)
      ≡ continue r (λ _. λ s. continue (second s) (λ _. third))
continue_assoc (s, ok u) second third = refl
continue_assoc (s, err e) second third = refl
continue_assoc (s, panic) second third = refl

-- The rest of `storePost` after `Begin`.
abbrev stored_at : PgDb → Post → Option GeoPoint → DbAction (Unit {0})
stored_at db post place = deferring (rollback_trans db) (do
  location ← lift (deref place)
  run_statement db
      (insert_post post.content.id post.content.author location.latitude location.longitude)
  insert_messages db post.content.id post.content.messages
  commit_trans db)

stored_at-AllOrNothing :
    (db : PgDb) (post : Post) (place : Option GeoPoint) (s : Store)
    → s.is_open ≡ true
    → pending s ≡ []
    → AllOrNothing s (stored_at db post place s) (statements_at post place)
stored_at-AllOrNothing db post none s opened fresh = inr (finish-open db (s, panic) (ground arith))
stored_at-AllOrNothing db post (some place) s opened fresh =
    subst (λ r. AllOrNothing s (finish db r) (statements_at post (some place)))
      (continue_assoc (run_statement db first s) rest (commit_trans db))
      (committed db s (continue (run_statement db first s) (λ _. rest)) _
        (continue-Waits s (run_statement db first s) rest (run_statement-Waits db first s)
          (insert_messages-Waits db post.content.id post.content.messages _))
        opened fresh)
  where
    first : Statement
    first = insert_post post.content.id post.content.author place.latitude place.longitude

    rest : DbAction (Unit {0})
    rest = insert_messages db post.content.id post.content.messages

-- A post is stored whole, with all its messages in order, and the result is no error, or else the
-- result is an error or a panic and nothing of it is stored.
pub store_post-AllOrNothing :
    (db : PgDb) (post : Post) (s : Store)
    → AllOrNothing s (store_post db post s) (post_statements post)
unfolding store_post
store_post-AllOrNothing db post s =
    after_begin s (begin_trans db s) (stored_at db post post.content.location)
      (post_statements post) (begin_trans_lem db s).0
      (λ begun.
        let (opened, fresh) = (begin_trans_lem db s).1 begun in
        stored_at-AllOrNothing db post post.content.location _ opened fresh)

-- A chunk is filed and the result is no error, or else nothing is filed. What is filed has the
-- post's identifier where the table of messages has the message's, and the other way round.
pub store_message-AllOrNothing :
    (db : PgDb) (message : PublisherMessageData) (s : Store)
    → AllOrNothing s
        (store_message db message s)
        (append_message message.post message.id message.chunk ∷ [])
unfolding store_message
store_message-AllOrNothing db message s =
    after_begin s (begin_trans db s) _ _ (begin_trans_lem db s).0 (λ begun.
      let (opened, fresh) = (begin_trans_lem db s).1 begun in
      committed db _ (run_statement db (append_message message.post message.id message.chunk) _) _
        (run_statement-Waits db _ _) opened fresh)

-- A driver that never fails.
abbrev pub IsHealthy : PgDb → Type 0
IsHealthy db = (history : History) (event : DbEvent) → db.driver.answer history event ≡ none

insert_messages-ok :
    (db : PgDb) (post : ℕ) (ms : List MessageData) (s : Store)
    → IsHealthy db
    → (insert_messages db post ms s).1 ≡ ok tt
unfolding insert_messages run_statement ask
insert_messages-ok db post [] s healthy = refl
insert_messages-ok db post (m ∷ ms) s healthy =
    rw (healthy s.history (exec (message_statement post m)))
      (insert_messages-ok db post ms _ healthy)

pub finish-commit :
    (db : PgDb) (r : Store × Outcome Error (Unit {0}))
    → IsHealthy db
    → r.1 ≡ ok tt
    → r.0.is_open ≡ true
    → (finish db (continue r (λ _. commit_trans db))).1 ≡ ok tt
unfolding commit_trans rollback_trans ask
finish-commit db (s, ok u) healthy done opened = rw (opened, healthy s.history commit)
finish-commit db (s, err e) healthy done opened = ground arith
finish-commit db (s, panic) healthy done opened = ground arith

store_post-eq-ok :
    (db : PgDb) (post : Post) (place : GeoPoint) (s : Store)
    → IsHealthy db
    → post.content.location ≡ some place
    → (store_post db post s).1 ≡ ok tt
unfolding store_post begin_trans run_statement ask
store_post-eq-ok db post place s healthy found =
    rw
      (
        healthy s.history begin,
        found,
        healthy _
            (exec (insert_post post.content.id post.content.author place.latitude place.longitude)),
      )
      (finish-commit db (insert_messages db post.content.id post.content.messages _) healthy
        (insert_messages-ok db post.content.id post.content.messages _ healthy)
        (insert_messages-Waits db post.content.id post.content.messages _).still_open)

-- While the driver does not fail, a post with a place is stored whole and no error is returned.
pub store_post-ok :
    (db : PgDb) (post : Post) (place : GeoPoint) (s : Store)
    → IsHealthy db
    → post.content.location ≡ some place
    → ((store_post db post s).1 ≡ ok tt)
      × (applied (store_post db post s).0 ≡ applied s ++ statements_at post (some place))
store_post-ok db post place s healthy found = elim (store_post-AllOrNothing db post s) [
  | inl (done, whole) ↦ (done, whole ∙ ap (λ p. applied s ++ statements_at post p) found)
  | inr (lost, same) ↦ absurd (lost (store_post-eq-ok db post place s healthy found))
]
