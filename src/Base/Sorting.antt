-- ===== src/Base/Sorting.antt =====
-- Sorting by a comparison, for `ORDER BY` and `std::partial_sort`. A sorted list is determined up to
-- the items that the comparison does not tell apart; here the later of these comes first.
use mathlib.Core.Bool.{Bool}
use mathlib.Core.List.{List, [], ◌∷◌}
use agent_pulse.Base.Tests.{if◌then◌else◌}

module _ {A : Type 0} (precedes : A → A → Bool) where
  -- An item goes before the first that it precedes.
  unfoldable pub sort_insert : A → List A → List A
  sort_insert a [] = a ∷ []
  sort_insert a (b ∷ bs) = if precedes a b then a ∷ b ∷ bs else b ∷ sort_insert a bs

  unfoldable pub sort_by : List A → List A
  unfolding sort_insert
  sort_by [] = []
  sort_by (a ∷ items) = sort_insert a (sort_by items)
