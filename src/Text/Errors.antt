-- ===== src/Text/Errors.antt =====
-- Go `error` values, as what their `Error` method prints: `errors.New` and `fmt.Errorf` build a
-- text, `strconv.ParseUint` a `NumError`.
use au10_service.Prelude.{ℕ, ◌+◌, ◌/◌, ◌%◌, ◌||◌, List, [], ◌∷◌, ◌++◌, ltb, ◌==◌, if◌then◌else◌}
use au10_service.Text.{Bytes, codes}
use au10_service.Text.Decimal.{NumFault, bad_syntax, out_of_range}
use au10_service.Text.Format.{Arg, sprintf}

pub data Error : Type 0 where
  text : Bytes → Error
  num_error : NumFault → Bytes → Error

abbrev pub errorf : Bytes → List Arg → Error
errorf format args = text (sprintf format args)

hex_digit : ℕ → ℕ
hex_digit d = if ltb d 10 then b'0' + d else b'W' + d

-- `strconv.Quote` on one byte of an ASCII text; bytes above are kept.
quote_byte : ℕ → Bytes
unfolding hex_digit
quote_byte c =
    if c == b'"' || c == 92
    then 92 ∷ c ∷ []
    else if c == 10
    then codes "\\n"
    else if c == 13
    then codes "\\r"
    else if c == 9
    then codes "\\t"
    else if ltb c 32 || c == 127
    then 92 ∷ b'x' ∷ hex_digit (c / 16) ∷ hex_digit (c % 16) ∷ []
    else c ∷ []

quote_bytes : Bytes → Bytes
unfolding quote_byte
quote_bytes [] = []
quote_bytes (c ∷ s) = quote_byte c ++ quote_bytes s

fault_text : NumFault → Bytes
fault_text bad_syntax = codes "invalid syntax"
fault_text out_of_range = codes "value out of range"

unfoldable pub error_text : Error → Bytes
unfolding quote_bytes fault_text
error_text (text s) = s
error_text (num_error fault s) =
    codes "strconv.ParseUint: parsing \"" ++ quote_bytes s ++ codes "\": " ++ fault_text fault
