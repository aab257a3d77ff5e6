-- ===== src/AccessPoint/Convertor/RoundTrip.antt =====
-- accesspoint/lib/convertor.go.
-- Identifiers read back, kinds refused, declarations kept.
use au10_service.Prelude.{
  ℕ, ◌≤◌, ◌≡◌, refl, ap, ◌≢◌, ◌↔◌, ◌⊎◌, inl, inr, Option, none, List, [], ◌∷◌, map, arith, ◌==◌,
  ==_iff, Bool-cases, All, Outcome-cases, ap,
}
use au10_service.Text.{Bytes}
use au10_service.Text.Decimal.{
  max_uint32, parse_uint32, parse_uint32-format_uint, parse_uint32-IsNumeral,
  IsNumeral-parse_uint32, IsNumeral, bad_syntax, out_of_range, parse_uint32-ne-panic,
}
use au10_service.Text.Errors.{Error}
use au10_service.Au10.Post.{MessageDeclaration, message_kind_text}
use au10_service.AccessPoint.Convertor.{
  id_from_proto, id_to_proto, ProtoMessageDeclaration, message_text,
  messages_declaration_from_proto, message_declaration_from_proto, message_kind_from_proto,
}

-- Every 32-bit identifier is read back from its text, and no error is noted.
pub id_from_proto-id_to_proto :
    (id : ℕ) (error : Option Error)
    → id ≤ max_uint32
    → id_from_proto (id_to_proto id) error ≡ (id, error)
unfolding id_from_proto id_to_proto
id_from_proto-id_to_proto id error h = rw (parse_uint32-format_uint id h, id_from_proto)

-- With no error before it, an identifier is accepted exactly when its text is one or more digits
-- that denote a number of 32 bits; it is then that number.
pub id_from_proto_iff :
    (source : Bytes) (id : ℕ)
    → (id_from_proto source none ≡ (id, none)) ↔ (IsNumeral 0 source id × (source ≢ []))
unfolding id_from_proto
id_from_proto_iff source id = (sound, complete)
  where
    sound : id_from_proto source none ≡ (id, none) → IsNumeral 0 source id × (source ≢ [])
    sound same = elim (Outcome-cases (parse_uint32 source)) [
      | inl (number, e) ↦ parse_uint32-IsNumeral source {number = id} (ground arith)
      | inr (inl (bad_syntax, e)) ↦ ground arith
      | inr (inl (out_of_range, e)) ↦ ground arith
      | inr (inr e) ↦ absurd (parse_uint32-ne-panic source e)
    ]

    complete : IsNumeral 0 source id × (source ≢ []) → id_from_proto source none ≡ (id, none)
    complete (numeral, filled) = rw (IsNumeral-parse_uint32 source numeral filled, id_from_proto)

abbrev pub IsTextDeclaration : ProtoMessageDeclaration → Type 0
IsTextDeclaration m = m.kind ≡ message_text

abbrev pub from_declaration : ProtoMessageDeclaration → MessageDeclaration
from_declaration m = record { kind = message_kind_text; size = m.size }

pub declarations_ok :
    (ms : List ProtoMessageDeclaration)
    → All IsTextDeclaration ms
    → messages_declaration_from_proto ms none ≡ (map from_declaration ms, none)
unfolding messages_declaration_from_proto message_declaration_from_proto message_kind_from_proto
declarations_ok [] all = refl
declarations_ok (m ∷ ms) all = ground (arith, declarations_ok ms all.1)

declarations_sound :
    (ms : List ProtoMessageDeclaration)
    → (messages_declaration_from_proto ms none).1 ≡ none
    → All IsTextDeclaration ms
unfolding messages_declaration_from_proto message_declaration_from_proto message_kind_from_proto
declarations_sound [] h = tt
declarations_sound (m ∷ ms) h = elim (Bool-cases (m.kind == message_text)) [
  | inl e ↦ ((==_iff m.kind message_text).0 e, declarations_sound ms (ground arith))
  | inr n ↦ ground arith
]

declarations_error :
    (ms : List ProtoMessageDeclaration) (error : Option Error)
    → ((messages_declaration_from_proto ms error).1 ≡ none)
      ⊎ ((messages_declaration_from_proto ms error).0 ≡ [])
unfolding messages_declaration_from_proto
declarations_error [] error = inr refl
declarations_error (m ∷ ms) error = ground arith

-- Declarations are converted with no error exactly when all of them are texts; they keep their
-- number, order and sizes, and with an error none is returned.
pub messages_declaration_from_proto_iff :
    (ms : List ProtoMessageDeclaration)
    → (((messages_declaration_from_proto ms none).1 ≡ none) ↔ All IsTextDeclaration ms)
      × (((messages_declaration_from_proto ms none ≡ (map from_declaration ms, none)))
          ⊎ ((messages_declaration_from_proto ms none).0 ≡ []))
messages_declaration_from_proto_iff ms = (
  (declarations_sound ms, λ all. ap (λ r. r.1) (declarations_ok ms all)),
  elim (declarations_error ms none) [
    | inl fine ↦ inl (declarations_ok ms (declarations_sound ms fine))
    | inr nothing ↦ inr nothing
  ],
)
