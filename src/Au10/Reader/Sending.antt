-- ===== src/Au10/Reader/Sending.antt =====
-- au10/streamreader.go: to whom `serve` sends, and when sending is a panic.
use au10_service.Prelude.{
  ℕ, ◌≡◌, refl, ◌↔◌, inl, inr, true, false, List, [], ◌∷◌, arith, ◌==◌, Bool-cases,
}
use au10_service.Au10.Reader.{member, reached, any_shut}

-- While every channel is open, all are reached.
pub reached-open : (ids : List ℕ) → (reached [] ids ≡ ids) × (any_shut [] ids ≡ false)
unfolding reached any_shut member
reached-open [] = (refl, refl)
reached-open (id ∷ ids) = ground (arith, reached-open ids)

-- One of these subscriptions has a closed channel.
abbrev pub MeetsShut : List ℕ → List ℕ → Type 0
MeetsShut shut ids = (id : ℕ) × (member id shut ≡ true) × (member id ids ≡ true)

any_shut-MeetsShut : (shut ids : List ℕ) → any_shut shut ids ≡ true → MeetsShut shut ids
unfolding any_shut member
any_shut-MeetsShut shut [] met = absurd (ground arith)
any_shut-MeetsShut shut (id ∷ ids) met = elim (Bool-cases (member id shut)) [
  | inl closed ↦ (id, closed, ground arith)
  | inr free ↦
      let (other, closed, there) = any_shut-MeetsShut shut ids (ground (arith, met, free)) in
      (other, closed, ground (arith, there))
]

MeetsShut-any_shut :
    (shut ids : List ℕ) (id : ℕ)
    → member id shut ≡ true
    → member id ids ≡ true
    → any_shut shut ids ≡ true
unfolding any_shut member
MeetsShut-any_shut shut [] id closed there = absurd (ground arith)
MeetsShut-any_shut shut (other ∷ ids) id closed there = elim (Bool-cases (id == other)) [
  | inl same ↦ ground arith
  | inr differ ↦ ground (arith, MeetsShut-any_shut shut ids id closed)
]

pub any_shut_iff : (shut ids : List ℕ) → (any_shut shut ids ≡ true) ↔ MeetsShut shut ids
any_shut_iff shut ids = (
  any_shut-MeetsShut shut ids,
  λ (id, closed, there). MeetsShut-any_shut shut ids id closed there,
)
