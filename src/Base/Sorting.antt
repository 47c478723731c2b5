-- ===== src/Base/Sorting.antt =====
-- `ORDER BY`, with rows that compare equal in the order of the table.
use mathlib.Core.Bool.{Bool}
use mathlib.Core.List.{List, [], ◌∷◌}
use match_mate_dating_web.Base.Tests.{if◌then◌else◌}

module _ {ℓ} {A : Type ℓ} where
  abbrev pub insert_by : (A → A → Bool) → A → List A → List A
  insert_by before a [] = a ∷ []
  insert_by before a (b ∷ bs) =
      let rest = insert_by before a bs in if before b a then b ∷ rest else a ∷ b ∷ bs

  abbrev pub sort_by : (A → A → Bool) → List A → List A
  sort_by before [] = []
  sort_by before (a ∷ rest) = insert_by before a (sort_by before rest)
