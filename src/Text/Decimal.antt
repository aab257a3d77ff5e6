-- ===== src/Text/Decimal.antt =====
-- `strconv.FormatUint(n, 10)` and `strconv.ParseUint(s, 10, bits)`, as far as the source uses them.
use au10_service.Prelude.{
  ℕ, zero, suc, ◌+◌, ◌-◌, ◌*◌, ◌/◌, ◌%◌, ◌≤◌, ◌<◌, ◌≡◌, refl, ◌≢◌, ◌||◌, List, [], ◌∷◌, arith, ltb,
  if◌then◌else◌, All, Outcome, ok, err, panic,
}

-- What `ParseUint` reports: text that is no number, or a number that does not fit.
pub data NumFault : Type 0 where
  bad_syntax out_of_range : NumFault

-- Puts the digits of `n` before `out`; the fuel bounds the number of digits.
digits : ℕ → ℕ → List ℕ → List ℕ
digits zero n out = out
digits (suc fuel) n out =
    let rest = digits fuel (n / 10) ((b'0' + n % 10) ∷ out) in
    if ltb n 10 then (b'0' + n) ∷ out else rest

unfoldable pub format_uint : ℕ → List ℕ
unfolding digits
format_uint n = digits (suc n) n []

abbrev pub max_uint32 : ℕ
max_uint32 = 4294967295

scan : ℕ → List ℕ → ℕ → Outcome NumFault ℕ
scan bound [] n = ok n
scan bound (c ∷ s) n =
    let rest = scan bound s (n * 10 + (c - b'0')) in
    if ltb c b'0' || ltb b'9' c
    then err bad_syntax
    else if ltb bound (n * 10 + (c - b'0'))
    then err out_of_range
    else rest

unfoldable pub parse_uint32 : List ℕ → Outcome NumFault ℕ
unfolding scan
parse_uint32 [] = err bad_syntax
parse_uint32 (c ∷ s) = scan max_uint32 (c ∷ s) 0

-- A character from '0' to '9'.
abbrev pub IsDigit : ℕ → Type 0
IsDigit char = (char ≤ b'9') × (b'0' ≤ char)

-- The number that decimal digits denote, read after the number `front`.
abbrev pub decimal_value : ℕ → List ℕ → ℕ
decimal_value front [] = front
decimal_value front (char ∷ text) = decimal_value (front * 10 + (char - b'0')) text

scan-digits :
    (fuel n : ℕ) (out : List ℕ)
    → n < fuel
    → n ≤ max_uint32
    → scan max_uint32 (digits fuel n out) 0 ≡ scan max_uint32 out n
unfolding scan digits
scan-digits zero n out h fits = absurd (omega arith)
scan-digits (suc fuel) n out h fits =
    ground (arith, scan-digits fuel (n / 10) ((b'0' + n % 10) ∷ out))

digits-ne-nil : (fuel n : ℕ) (out : List ℕ) → out ≢ [] → digits fuel n out ≢ []
unfolding digits
digits-ne-nil zero n out h = h
digits-ne-nil (suc fuel) n out h =
    ground (arith, digits-ne-nil fuel (n / 10) ((b'0' + n % 10) ∷ out))

format_uint-ne-nil : (n : ℕ) → format_uint n ≢ []
unfolding format_uint
format_uint-ne-nil n = ground (arith, digits-ne-nil n (n / 10) ((b'0' + n % 10) ∷ []))

parse_uint32-scan : (s : List ℕ) → s ≢ [] → parse_uint32 s ≡ scan max_uint32 s 0
unfolding parse_uint32
parse_uint32-scan [] h = absurd (h refl)
parse_uint32-scan (c ∷ s) h = refl

-- Every uint32 is read back from its decimal print.
pub parse_uint32-format_uint : (n : ℕ) → n ≤ max_uint32 → parse_uint32 (format_uint n) ≡ ok n
unfolding format_uint scan
parse_uint32-format_uint n h =
    ground
      (arith, parse_uint32-scan (format_uint n) (format_uint-ne-nil n), scan-digits (suc n) n [])

-- What a text has to be for the scan after `front` to come to `number`.
abbrev pub IsNumeral : ℕ → List ℕ → ℕ → Type 0
IsNumeral front text number =
    (number ≤ max_uint32) × (number ≡ decimal_value front text) × All IsDigit text

scan-IsNumeral :
    (text : List ℕ) (front : ℕ) {number : ℕ}
    → scan max_uint32 text front ≡ ok number
    → front ≤ max_uint32
    → IsNumeral front text number
unfolding scan
scan-IsNumeral [] front done small = ground arith
scan-IsNumeral (char ∷ text) front {number} done small =
    ground (arith, scan-IsNumeral text (front * 10 + (char - b'0')) {number = number})

-- What is accepted is a non-empty text of digits, and the result is the number that it denotes.
pub parse_uint32-IsNumeral :
    (text : List ℕ) {number : ℕ}
    → parse_uint32 text ≡ ok number
    → IsNumeral 0 text number × (text ≢ [])
unfolding parse_uint32
parse_uint32-IsNumeral [] done = ground arith
parse_uint32-IsNumeral (char ∷ text) done =
    (scan-IsNumeral (char ∷ text) 0 done (omega arith), ground arith)

front-le-decimal_value : (text : List ℕ) (front : ℕ) → front ≤ decimal_value front text
front-le-decimal_value [] front = omega arith
front-le-decimal_value (char ∷ text) front =
    omega (arith, front-le-decimal_value text (front * 10 + (char - b'0')))

IsNumeral-scan :
    (text : List ℕ) (front : ℕ) {number : ℕ}
    → IsNumeral front text number
    → scan max_uint32 text front ≡ ok number
unfolding scan
IsNumeral-scan [] front numeral = ground arith
IsNumeral-scan (char ∷ text) front {number = number} (small, same, valid) = ground (
  arith,
  IsNumeral-scan text (front * 10 + (char - b'0')) {number = number} (small, same, valid.1),
  front-le-decimal_value text (front * 10 + (char - b'0')),
)

-- Leading zeros and all, each such text is accepted.
pub IsNumeral-parse_uint32 :
    (text : List ℕ) {number : ℕ}
    → IsNumeral 0 text number
    → text ≢ []
    → parse_uint32 text ≡ ok number
unfolding parse_uint32
IsNumeral-parse_uint32 [] numeral filled = absurd (filled refl)
IsNumeral-parse_uint32 (char ∷ text) numeral filled = IsNumeral-scan (char ∷ text) 0 numeral

scan-ne-panic : (bound : ℕ) (s : List ℕ) (n : ℕ) → scan bound s n ≢ panic
unfolding scan
scan-ne-panic bound [] n = ground arith
scan-ne-panic bound (c ∷ s) n = ground (arith, scan-ne-panic bound s (n * 10 + (c - b'0')))

-- Parsing never panics.
pub parse_uint32-ne-panic : (s : List ℕ) → parse_uint32 s ≢ panic
unfolding parse_uint32
parse_uint32-ne-panic [] = ground arith
parse_uint32-ne-panic (c ∷ s) = scan-ne-panic max_uint32 (c ∷ s) 0
