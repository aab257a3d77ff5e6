-- ===== src/Au10/Codec.antt =====
-- `encoding/json` as a parameter: how a value becomes text and text a value.
use au10_service.Prelude.{◌≡◌, Outcome, ok}
use au10_service.Text.{Bytes}
use au10_service.Text.Errors.{Error}

pub record Codec (A : Type 0) : Type 0 where
  pub marshal : A → Outcome Error Bytes
  pub unmarshal : Bytes → Outcome Error A

-- What is marshalled is unmarshalled to the same value.
abbrev pub IsFaithful : {A : Type 0} → Codec A → Type 0
IsFaithful {A} codec =
    (a : A) (value : Bytes) → codec.marshal a ≡ ok value → codec.unmarshal value ≡ ok a

-- The same, for the values that the codec can render.
abbrev pub IsFaithfulOn : {A : Type 0} → (A → Type 0) → Codec A → Type 0
IsFaithfulOn {A} P codec =
    (a : A) (value : Bytes) → P a → codec.marshal a ≡ ok value → codec.unmarshal value ≡ ok a
