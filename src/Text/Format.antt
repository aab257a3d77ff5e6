-- ===== src/Text/Format.antt =====
-- `fmt.Sprintf`, for the verbs that the modelled formats use: %s and %d. A doubled percent sign
-- prints one; a verb without an argument, of another kind or at the end prints Go's mark for it.
-- Flags, widths and arguments that no verb takes are left out: no format of the source has them.
use au10_service.Prelude.{ℕ, ◌≡◌, refl, List, [], ◌∷◌, ◌++◌, ◌==◌, if◌then◌else◌}
use au10_service.Text.{Bytes, codes}
use au10_service.Text.Decimal.{format_uint}

pub data Arg : Type 0 where
  str : Bytes → Arg
  num : ℕ → Arg

missing : ℕ → Bytes
missing verb = codes "%!" ++ verb ∷ codes "(MISSING)"

bad_verb : ℕ → Arg → Bytes
unfolding format_uint
bad_verb verb (str s) = codes "%!" ++ verb ∷ codes "(string=" ++ s ++ codes ")"
bad_verb verb (num n) = codes "%!" ++ verb ∷ codes "(uint32=" ++ format_uint n ++ codes ")"

show_arg : ℕ → Arg → Bytes
unfolding bad_verb format_uint
show_arg verb (str s) = if verb == b's' then s else bad_verb verb (str s)
show_arg verb (num n) = if verb == b'd' then format_uint n else bad_verb verb (num n)

-- The text after a percent sign.
mutual
  unfolding show_arg missing

  sprintf_text : Bytes → List Arg → Bytes
  sprintf_text [] args = []
  sprintf_text (c ∷ s) args =
      let verb = sprintf_verb s args in
      let rest = sprintf_text s args in if c == b'%' then verb else c ∷ rest

  sprintf_verb : Bytes → List Arg → Bytes
  sprintf_verb [] args = codes "%!(NOVERB)"
  sprintf_verb (v ∷ s) [] =
      let rest = sprintf_text s [] in if v == b'%' then b'%' ∷ rest else missing v ++ rest
  sprintf_verb (v ∷ s) (a ∷ args) =
      let same = sprintf_text s (a ∷ args) in
      let next = sprintf_text s args in if v == b'%' then b'%' ∷ same else show_arg v a ++ next

unfoldable pub sprintf : Bytes → List Arg → Bytes
unfolding sprintf_text sprintf_verb
sprintf format args = sprintf_text format args

two_verbs : sprintf (codes "a%sb%d%%") (str (codes "x") ∷ num 42 ∷ []) ≡ codes "axb42%"
unfolding sprintf
two_verbs = refl
