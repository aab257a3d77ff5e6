-- ===== src/Text/Utf8.antt =====
-- Which byte strings are valid UTF-8, as the Unicode standard lays it down: what encoding/json writes
-- of a string is read back only for these.
use au10_service.Prelude.{
  ℕ, zero, suc, Bool, true, false, ◌&&◌, Option, none, some, [], ◌∷◌, ltb, leb, ◌==◌, if◌then◌else◌,
}
use au10_service.Text.{Bytes}

abbrev between : ℕ → ℕ → ℕ → Bool
between low high c = leb low c && leb c high

-- What follows a first byte: how many bytes, and the bounds of the next one.
abbrev lead : ℕ → Option (ℕ × ℕ × ℕ)
lead c =
    if ltb c 128
    then some (0, 128, 191)
    else if between 194 223 c
    then some (1, 128, 191)
    else if c == 224
    then some (2, 160, 191)
    else if c == 237
    then some (2, 128, 159)
    else if between 225 239 c
    then some (2, 128, 191)
    else if c == 240
    then some (3, 144, 191)
    else if between 241 243 c
    then some (3, 128, 191)
    else if c == 244
    then some (3, 128, 143)
    else none

unfoldable pub utf8_from : ℕ → ℕ → ℕ → Bytes → Bool
utf8_from zero low high [] = true
utf8_from (suc n) low high [] = false
utf8_from zero low high (c ∷ s) = elim (lead c) [
  | none ↦ false
  | some (n, low', high') ↦ utf8_from n low' high' s
]
utf8_from (suc n) low high (c ∷ s) = between low high c && utf8_from n 128 191 s

abbrev pub is_utf8 : Bytes → Bool
is_utf8 = utf8_from 0 128 191
