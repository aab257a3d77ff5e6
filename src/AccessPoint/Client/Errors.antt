-- ===== src/AccessPoint/Client/Errors.antt =====
-- accesspoint/lib/client.go.
-- What `RegisterError` and `checkRights` do: the status, what it tells, and what they leave alone.
use au10_service.Prelude.{
  ℕ, ◌+◌, ◌≡◌, refl, ◌≢◌, inl, inr, true, false, Option, none, some, List, [], ◌∷◌, ◌++◌, arith,
  ◌==◌, if◌then◌else◌, Bool-cases, length, ok, err,
}
use au10_service.Text.{Bytes, codes}
use au10_service.Text.Format.{Arg, sprintf}
use au10_service.Au10.Group.{Group, is_allowed}
use au10_service.Au10.Log.Records.{length-pushed-publish}
use au10_service.Au10.User.{block_by_protocol_mismatch}
use au10_service.AccessPoint.Status.{Status, find_status, invalid_argument, permission_denied}
use au10_service.AccessPoint.Action.{World, Action, ◌>>=◌}
use au10_service.AccessPoint.Client.{
  Client, log_error, report_error, block_on, external_desc, register_error, register_desc, reject,
  check_rights,
}

-- The description that a caller gets, as a function: the real one with the rights to the log, and
-- otherwise only the word of the code.
abbrev pub told : Client → ℕ → Bytes → Bytes
told client code desc =
    if is_allowed client.service.log.membership client.user.rights
    then desc
    else elim (find_status code) [ some word ↦ word | none ↦ codes "unknown error" ]

report_error-ok :
    (client : Client) (code : ℕ) (desc : Bytes) (w : World)
    → ((report_error client code desc w).1 ≡ ok tt)
      × ((report_error client code desc w).0.inputs ≡ w.inputs)
unfolding report_error log_error
report_error-ok client code [] w = (refl, refl)
report_error-ok client code (d ∷ ds) w = (refl, refl)

block_on-ok :
    (client : Client) (code : ℕ) (w : World)
    → ((block_on client code w).1 ≡ ok tt) × ((block_on client code w).0.inputs ≡ w.inputs)
unfolding block_on
block_on-ok client code w = ground arith

external_desc-ok :
    (client : Client) (code : ℕ) (desc : Bytes) (w : World)
    → ((external_desc client code desc w).1 ≡ ok (told client code desc))
      × ((external_desc client code desc w).0.inputs ≡ w.inputs)
unfolding external_desc log_error
external_desc-ok client code desc w = ground arith

pub register_desc_lem :
    (client : Client) (code : ℕ) (format : Bytes) (args : List Arg) (w : World)
    → ((register_desc client code format args w).1 ≡ ok (told client code (sprintf format args)))
      × ((register_desc client code format args w).0.inputs ≡ w.inputs)
unfolding register_desc
register_desc_lem client code format args w =
    let desc = sprintf format args in
    let w1 = (report_error client code desc w).0 in
    let w2 = (block_on client code w1).0 in
    ground (
      arith,
      report_error-ok client code desc w,
      block_on-ok client code w1,
      external_desc-ok client code desc w2,
    )

-- The status that a caller gets: none for the code OK.
abbrev pub told_status : Client → ℕ → Bytes → Option Status
told_status client code desc =
    if code == 0 then none else some (record { code = code; message = told client code desc })

-- `RegisterError` returns no error for the code OK, and for any other a status of this code; it
-- touches no stream of the publisher. The status tells the description to a caller with the rights to
-- the log, and to any other caller only the word of the code.
pub register_error_lem :
    (client : Client) (code : ℕ) (format : Bytes) (args : List Arg) (w : World)
    → ((register_error client code format args w).1
        ≡ ok (told_status client code (sprintf format args)))
      × ((register_error client code format args w).0.inputs ≡ w.inputs)
unfolding register_error
register_error_lem client code format args w =
    let (desc, kept) = register_desc_lem client code format args w in
    (ground (arith, desc), ground (arith, desc, kept))

-- What a call that ends with `RegisterError` returns is this status.
pub register_error-reject {ℓ} :
    {A : Type ℓ} (client : Client) (code : ℕ) (format : Bytes) (args : List Arg) (w : World)
    → code ≢ 0
    → (status : Status) × ((register_error client code format args w).1 ≡ ok (some status))
      × ((reject {A = A} client code format args w).1 ≡ err status)
unfolding register_error
register_error-reject client code format args w nonzero =
    let (desc, kept) = register_desc_lem client code format args w in
    (
      record { code = code; message = told client code (sprintf format args) },
      ground (arith, desc, nonzero),
      ground (arith, desc),
    )

-- A call ends with a status of this code, and gave the publisher's streams nothing.
abbrev pub Refuses {ℓ} : {A : Type ℓ} → Action A → World → ℕ → Type ℓ
Refuses m w code =
    (status : Status) × ((m w).1 ≡ err status) × (status.code ≡ code) × ((m w).0.inputs ≡ w.inputs)

pub reject-Refuses {ℓ} :
    {A : Type ℓ} (client : Client) (code : ℕ) (format : Bytes) (args : List Arg) (w : World)
    → Refuses (reject {A = A} client code format args) w code
reject-Refuses client code format args w = (
  record { code = code; message = told client code (sprintf format args) },
  ground (arith, register_desc_lem client code format args w),
  refl,
  ground (arith, register_desc_lem client code format args w),
)

pub >>=-Refuses {ℓ κ} :
    {A : Type ℓ} {B : Type κ} (m : Action A) (f : A → Action B) (w : World) (code : ℕ)
    → Refuses m w code
    → Refuses (m >>= f) w code
>>=-Refuses m f w code (status, e, c, i) = (status, ground arith, c, ground arith)

-- A call that refuses after one that passed and changed nothing.
pub after-Refuses {ℓ κ} :
    {A : Type ℓ} {B : Type κ} (m : Action A) (f : A → Action B) (w : World) (a : A) (code : ℕ)
    → m w ≡ (w, ok a)
    → Refuses (f a) w code
    → Refuses (m >>= f) w code
after-Refuses m f w a code e (status, r, c, i) = (status, ground arith, c, ground arith)

-- A caller without the rights to the log gets the same answer whatever went wrong: the status
-- depends on the code alone.
pub register_error_hides :
    (client : Client) (code : ℕ) (format format' : Bytes) (args args' : List Arg) (w w' : World)
    → is_allowed client.service.log.membership client.user.rights ≡ false
    → (register_error client code format args w).1 ≡ (register_error client code format' args' w').1
register_error_hides client code format format' args args' w w' h = ground (
  arith,
  register_error_lem client code format args w,
  register_error_lem client code format' args' w',
)

report_error-pushed :
    (client : Client) (code : ℕ) (desc : Bytes) (w : World)
    → length (report_error client code desc w).0.journal.pushed ≡ length w.journal.pushed + 1
unfolding report_error log_error
report_error-pushed client code [] w = length-pushed-publish _ _ _ _ _
report_error-pushed client code (d ∷ ds) w = length-pushed-publish _ _ _ _ _

block_on-pushed :
    (client : Client) (code : ℕ) (w : World)
    → length (block_on client code w).0.journal.pushed
      ≡ length w.journal.pushed + (if code == invalid_argument then 1 else 0)
unfolding block_on block_by_protocol_mismatch
block_on-pushed client code w = elim (Bool-cases (code == invalid_argument)) [
  | inl e ↦ rw e (length-pushed-publish _ _ _ _ _)
  | inr n ↦ rw n (omega arith)
]

-- How many records `RegisterError` gives the log for a code of the table: one for the error, and
-- one more, the blocking of the user, exactly for InvalidArgument.
pub register_error-pushed :
    (client : Client) (code : ℕ) (format : Bytes) (args : List Arg) (w : World) (word : Bytes)
    → find_status code ≡ some word
    → length (register_error client code format args w).0.journal.pushed
      ≡ length w.journal.pushed + (if code == invalid_argument then 2 else 1)
unfolding register_error register_desc external_desc
register_error-pushed client code format args w word known =
    let desc = sprintf format args in
    let w1 = (report_error client code desc w).0 in
    ground (
      arith,
      report_error-ok client code desc w,
      block_on-ok client code w1,
      report_error-pushed client code desc w,
      block_on-pushed client code w1,
    )

pub check_rights-grants :
    (client : Client) (membership : Group) (format : Bytes) (args : List Arg) (w : World)
    → is_allowed membership client.user.rights ≡ true
    → check_rights client membership format args w ≡ (w, ok tt)
unfolding check_rights
check_rights-grants client membership format args w h = rw h

pub check_rights-denies :
    (client : Client) (membership : Group) (format : Bytes) (args : List Arg) (w : World)
    → is_allowed membership client.user.rights ≡ false
    → Refuses (check_rights client membership format args) w permission_denied
unfolding check_rights
check_rights-denies client membership format args w h =
    rw h (reject-Refuses client permission_denied (codes "permission denied for " ++ format) args w)
