-- ===== src/Au10/Dialling.antt =====
-- au10/service.go: connecting to the service, and the attempts of `DialOrPanic`. What `NewLog`
-- returns on each attempt is an argument.
pub mod Attempts
use au10_service.Prelude.{ℕ, zero, suc, ◌+◌, List, [], ◌∷◌, ◌++◌, ltb, ◌==◌, if◌then◌else◌, length}
use au10_service.Text.{Bytes, codes}
use au10_service.Text.Errors.{Error, text, errorf, error_text}
use au10_service.Text.Format.{str, sprintf}
use au10_service.Au10.Log.{LogService, Journal}
use au10_service.Au10.Log

-- `strings.Join`.
unfoldable pub join : Bytes → List Bytes → Bytes
join separator [] = []
join separator (s ∷ []) = s
join separator (s ∷ t ∷ rest) = s ++ separator ++ join separator (t ∷ rest)

pub data OpenedLog : Type 0 where
  log_opened : LogService → OpenedLog
  log_failed : Error → OpenedLog

-- The three results of `Dial`, one of which is not nil.
pub data Dialled : Type 0 where
  connected : LogService → Dialled
  bad_config no_connection : Error → Dialled

pub record Service : Type 0 where
  pub node_type : Bytes
  pub node_name : Bytes
  pub stream_brokers : List Bytes

abbrev pub no_log : Error → Error
no_log e = errorf (codes "failed to open service log: \"%s\"") (str (error_text e) ∷ [])

-- `Dial` after its two tests.
abbrev pub logged : Service → OpenedLog → Journal → Journal × Dialled
logged node (log_failed e) j = (j, no_connection (no_log e))
logged node (log_opened log) j = (
  Log.info log (codes "Connected to the network. Stream brokers: \"%s\".")
      (str (join (codes ", ") node.stream_brokers) ∷ []) j,
  connected log,
)

unfoldable pub dial : Service → OpenedLog → Journal → Journal × Dialled
dial node opened j =
    if length node.node_type == 0
    then (j, bad_config (text (codes "node type name is empty")))
    else if length node.node_name == 0
    then (j, bad_config (text (codes "node name is empty")))
    else logged node opened j

-- How `DialOrPanic` ends: with the service, with a panic, or not within the fuel.
pub data DialEnd : Type 0 where
  dialled : LogService → DialEnd
  panicked : Bytes → DialEnd
  out_of_fuel : DialEnd

pub record DialState : Type 0 where
  pub journal : Journal
  pub sleeps : ℕ

-- The record that is printed; `%s` prints a list of strings in brackets.
abbrev dial_record : Service → Error → Bytes
dial_record node e =
    sprintf (codes "Failed to connect to Au10 service: \"%s\". Stream borkers: \"%s\".") (
      str (error_text e)
      ∷ str (codes "[" ++ join (codes " ") node.stream_brokers ++ codes "]")
      ∷ [])

abbrev printed_line : Bytes → Journal → Journal
printed_line line j = record j { printed = j.printed ++ line ∷ [] }

-- The rest of an attempt after `Dial`; `again` is the next one.
abbrev attempted :
    Service → ℕ → (DialState → DialState × DialEnd) → ℕ → Journal × Dialled → DialState × DialEnd
attempted node i again sleeps (j, connected log) =
    (record { journal = j; sleeps = sleeps }, dialled log)
attempted node i again sleeps (j, bad_config e) = (
  record { journal = printed_line (dial_record node e) j; sleeps = sleeps },
  panicked (dial_record node e),
)
attempted node i again sleeps (j, no_connection e) =
    if ltb i 5
    then again (record { journal = printed_line (dial_record node e) j; sleeps = sleeps + 1 })
    else (
      record { journal = printed_line (dial_record node e) j; sleeps = sleeps },
      panicked (dial_record node e),
    )

-- The loop of `DialOrPanic` from attempt `i`.
unfoldable pub dial_from : ℕ → ℕ → Service → (ℕ → OpenedLog) → DialState → DialState × DialEnd
dial_from zero i node opened state = (state, out_of_fuel)
dial_from (suc fuel) i node opened state =
    attempted node i (dial_from fuel (i + 1) node opened) state.sleeps
      (dial node (opened i) state.journal)

abbrev pub dial_fuel : ℕ
dial_fuel = 5

unfoldable pub dial_or_panic : Service → (ℕ → OpenedLog) → Journal → DialState × DialEnd
dial_or_panic node opened j = dial_from dial_fuel 1 node opened (record { journal = j; sleeps = 0 })
