-- ===== src/PostDb/Connection.antt =====
-- postdb/db.go: `Dial`. What pgx's `Connect` makes of a URL is an argument.
use au10_service.Prelude.{◌≡◌, refl, [], ◌∷◌, ◌++◌, Outcome, ok, ◌>>=◌, append_assoc}
use au10_service.Text.{Bytes, codes}
use au10_service.Text.Errors.{Error}
use au10_service.Text.Format.{str, sprintf}
use au10_service.Au10.Log.{Journal}
use au10_service.PostDb.{Driver, PgDb}

unfoldable pub connection_url : Bytes → Bytes → Bytes → Bytes → Bytes
connection_url host name login password =
    sprintf (codes "postgresql://%s:%s@%s/%s?sslmode=disable")
      (str login ∷ str password ∷ str host ∷ str name ∷ [])

unfoldable pub dial :
    (Bytes → Outcome Error Driver)
    → Bytes
    → Bytes
    → Bytes
    → Bytes
    → (Error → Journal → Journal × Outcome Error (Unit {0}))
    → Outcome Error PgDb
dial connect host name login password handle_fatal_error = do
  driver ← connect (connection_url host name login password)
  ok (record { driver = driver; handle_fatal_error = handle_fatal_error })

-- A password with an at sign gives the connection of its first part, with a host that begins with
-- its second part: the URL is the same.
dial-ambiguous :
    (connect : Bytes → Outcome Error Driver) (host name login first second : Bytes)
    (handle_fatal_error : Error → Journal → Journal × Outcome Error (Unit {0}))
    → dial connect host name login (first ++ b'@' ∷ second) handle_fatal_error
      ≡ dial connect (second ++ b'@' ∷ host) name login first handle_fatal_error
unfolding dial connection_url sprintf
dial-ambiguous connect host name login first second handle_fatal_error =
    let rest = b'/' ∷ (name ++ codes "?sslmode=disable") in
    rw
      (
        append_assoc first (b'@' ∷ second) (b'@' ∷ (host ++ rest)),
        append_assoc second (b'@' ∷ host) rest,
      )
      refl
