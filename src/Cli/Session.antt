-- ===== src/Cli/Session.antt =====
-- cli/client.go, `DialOrDie` and `Close`, and cli/main.go as a whole: how a command ends, and what
-- becomes of the connection. `log.Fatalf` ends the process at once, so that the deferred `Close` does
-- not run behind it. What gRPC's `Dial` returns is an argument.
use au10_service.Prelude.{
  ◌≡◌, ◌≢◌, Bool, true, false, Option, none, some, List, [], ◌∷◌, Outcome, ok, err, panic,
}
use au10_service.Cli.{Remote, main}
use au10_service.Au10.Post.{Time}
use au10_service.Text.{Bytes, codes}
use au10_service.Text.Errors.{Error, errorf, error_text}
use au10_service.Text.Format.{str, sprintf}

-- How a command leaves the process.
pub record Session (S : Type 0) : Type 0 where
  pub state : S
  pub printed : List Bytes
  pub connected : Bool
  pub closed : Bool
  pub ending : Outcome Error (Unit {0})

-- The first test of `DialOrDie` is of an error that nothing has set.
unfoldable pub dial_or_die : Bytes → Option Error → List Bytes × Outcome Error (Unit {0})
dial_or_die address none =
    (sprintf (codes "Connecting to \"%s\"...") (str address ∷ []) ∷ codes "Connected." ∷ [], ok tt)
dial_or_die address (some e) = (
  sprintf (codes "Connecting to \"%s\"...") (str address ∷ []) ∷ [],
  err (errorf (codes "Failed to connect to access point: %s") (str (error_text e) ∷ [])),
)

abbrev pub has_not_failed : Outcome Error (Unit {0}) → Bool
has_not_failed (ok done) = true
has_not_failed (err e) = false
has_not_failed panic = true

module _ {S : Type 0} where
  abbrev pub client_close : Session S → Session S
  client_close session = record session { closed = true }

  -- The deferred `Close` runs unless `log.Fatalf` was called.
  abbrev pub leave : Session S → Outcome Error (Unit {0}) → Session S
  leave session (ok done) = client_close (record session { ending = ok done })
  leave session (err e) = record session { ending = err e }
  leave session panic = client_close (record session { ending = panic })

  abbrev pub left_with : List Bytes → Option (S × Outcome Error (Unit {0})) → Option (Session S)
  left_with lines none = none
  left_with lines (some (s, r)) = some (
      leave
        (record { state = s; printed = lines; connected = true; closed = false; ending = ok tt }) r)

  abbrev pub dialled_then :
      S
      → List Bytes × Outcome Error (Unit {0})
      → Option (S × Outcome Error (Unit {0}))
      → Option (Session S)
  dialled_then s (lines, ok done) command = left_with lines command
  dialled_then s (lines, err e) command =
      some
        (record { state = s; printed = lines; connected = false; closed = false; ending = err e })
  dialled_then s (lines, panic) command =
      some
        (record { state = s; printed = lines; connected = false; closed = false; ending = panic })

  -- A command that comes to an end.
  abbrev pub Ends : Option (S × Outcome Error (Unit {0})) → Type 0
  Ends command = (s : S) × (r : Outcome Error (Unit {0})) × (command ≡ some (s, r))

  -- Where a session is left that has run this command.
  abbrev pub LeftWith : Option (S × Outcome Error (Unit {0})) → Option (Session S) → Type 0
  LeftWith command session =
      (e : Session S) × (session ≡ some e)
      × (command ≡ some (e.state, e.ending))
      × (e.connected ≡ true)
      × (e.closed ≡ has_not_failed e.ending)

module _ {S : Type 0} (remote : Remote S) where
  -- `main` with its dialling.
  unfoldable pub session_main :
      Option Error → (Time → Bytes) → Bytes → Bytes → Bytes → S → Option (Session S)
  session_main failure show address login command s =
      dialled_then s (dial_or_die address failure) (main remote show login command s)

  -- What a session comes to, by what dialling returns.
  abbrev pub IsLeft :
      Option Error → S → Option (S × Outcome Error (Unit {0})) → Option (Session S) → Type 0
  IsLeft none s command session = LeftWith command session
  IsLeft (some refused) s command session =
      (e : Session S) × (session ≡ some e)
      × (e.state ≡ s)
      × (e.ending ≢ ok tt)
      × (e.connected ≡ false)
      × (e.closed ≡ false)
