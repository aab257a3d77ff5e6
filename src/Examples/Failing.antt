-- ===== src/Examples/Failing.antt =====
-- Telling of errors, at a concrete input.
use au10_service.Prelude.{◌≡◌, refl, ◌↔◌, none, [], ◌∷◌}
use au10_service.Au10.Failing.Telling.{AllRead, telling-ends_iff}
use au10_service.Au10.Failing.{Failing, Moves, choosing, leaving, moved_to, reading, telling}
use au10_service.Au10.Reader.{member}

-- `serve` is about to tell two subscriptions, and nothing reads the second one's channel.
abbrev half_left : Failing
half_left = record {
  serving = telling none (0 ∷ 1 ∷ []);
  subscriptions = 0 ∷ 1 ∷ [];
  owners = moved_to leaving 1 (λ id. reading);
  told = [];
}

telling-ends_iff_example :
    ((t : Failing) × Moves half_left t × (t.serving ≡ choosing))
    ↔ AllRead half_left.owners (0 ∷ 1 ∷ [])
unfolding member
telling-ends_iff_example = telling-ends_iff half_left none (0 ∷ 1 ∷ []) refl (refl, (refl, tt))
