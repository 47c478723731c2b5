-- ===== src/Base/Maps.antt =====
-- Go maps from texts, as lists of entries; `lookup` and `insert` as Go's `m[k]` and `m[k] = v`.
use Prim.Native.String.{String}
use mathlib.Core.Option.{Option, none, some}
use mathlib.Core.List.{List, [], ◌∷◌}
use match_mate_dating_web.Base.Tests.{◌==◌, string_eq, if◌then◌else◌}

module _ {ℓ} {V : Type ℓ} where
  abbrev pub lookup : String → List (String × V) → Option V
  lookup k [] = none
  lookup k ((j, v) ∷ m) = let rest = lookup k m in if j == k then some v else rest

  abbrev pub insert : String → V → List (String × V) → List (String × V)
  insert k v [] = (k, v) ∷ []
  insert k v ((j, w) ∷ m) = let rest = insert k v m in if j == k then (k, v) ∷ m else (j, w) ∷ rest

  -- `m[k]`, with the value for a missing key.
  abbrev pub lookup_or : V → String → List (String × V) → V
  lookup_or d k m = elim (lookup k m) [ none ↦ d | some v ↦ v ]
