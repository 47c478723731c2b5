-- ===== src/Matchmaking/Engine/Score.antt =====
-- The scores of engine.go: personality, mapSimilarity, jaccard, languageLocation, weighted, clamp,
-- explain. `to_lower` is `strings.ToLower`.
-- A quotient of floats that `math.Round` rounds is the nearest integer, halves up: the quotients
-- here are of integers far below 2^53, where the division of floats keeps the order to a half.
pub mod Bounds
use match_mate_dating_web.Base.{
  ℕ, suc, ◌+◌, ◌-◌, ◌*◌, ◌/◌, Bool, true, false, not, ◌&&◌, ◌||◌, Option, none, some, List, [], ◌∷◌,
  ◌++◌, String, ltb, leb, ◌==◌, nat_eq, string_eq, if◌then◌else◌, length, count,
}
use match_mate_dating_web.Base.Maps.{lookup, lookup_or, insert}
use match_mate_dating_web.Matchmaking.Domain.{Participant}

-- `int(math.Round(float64(a) / float64(b)))`
abbrev pub round_div : ℕ → ℕ → ℕ
round_div a b = (2 * a + b) / (2 * b)

unfoldable pub clamp : ℕ → ℕ
clamp v = if ltb 100 v then 100 else v

-- `math.Abs(float64(a - b))`
abbrev pub distance : ℕ → ℕ → ℕ
distance a b = if ltb a b then b - a else a - b

-- The loop of `personality`: the total difference and the number of shared traits.
unfoldable pub trait_totals : List (String × ℕ) → List (String × ℕ) → ℕ × ℕ
trait_totals [] b = (0, 0)
trait_totals ((key, av) ∷ a) b =
    let (total, shared) = trait_totals a b in
    elim (lookup key b) [ none ↦ (total, shared) | some bv ↦ (total + distance av bv, shared + 1) ]

-- `clamp(100 - …)`: the truncated difference is what `clamp` makes of a negative one.
unfoldable pub personality : List (String × ℕ) → List (String × ℕ) → Option ℕ
unfolding trait_totals
personality a b =
    let (total, shared) = trait_totals a b in
    if shared == 0 then none else some (clamp (100 - total * 25 / shared))

-- The loop of `mapSimilarity`: how many shared keys have the same value, and how many there are.
unfoldable pub same_totals : List (String × String) → List (String × String) → ℕ × ℕ
same_totals [] b = (0, 0)
same_totals ((key, av) ∷ a) b =
    let (same, total) = same_totals a b in
    elim (lookup key b) [
      | none ↦ (same, total)
      | some bv ↦ (if av == bv then same + 1 else same, total + 1)
    ]

unfoldable pub map_similarity : List (String × String) → List (String × String) → Option ℕ
unfolding same_totals
map_similarity a b =
    let (same, total) = same_totals a b in if total == 0 then none else some (same * 100 / total)

-- A value of `set`, by its two bits.
abbrev pub Mask : Type 0
Mask = Bool × Bool

abbrev pub mask_left : Mask → Mask
mask_left m = (true, m.1)

abbrev pub mask_right : Mask → Mask
mask_right m = (m.0, true)

module _ (to_lower : String → String) where
  -- `for _, v := range …  { set[strings.ToLower(v)] |= … }`
  unfoldable pub mark : (Mask → Mask) → List String → List (String × Mask) → List (String × Mask)
  mark bit [] set = set
  mark bit (v ∷ vs) set =
      mark bit vs (insert (to_lower v) (bit (lookup_or (false, false) (to_lower v) set)) set)

abbrev pub is_shared : String × Mask → Bool
is_shared e = e.1.0 && e.1.1

unfoldable pub jaccard : (String → String) → List String → List String → Option ℕ
unfolding mark
jaccard to_lower a b =
    if length a == 0 || length b == 0
    then none
    else let set = mark to_lower mask_right b (mark to_lower mask_left a []) in
      some (round_div (count is_shared set * 100) (length set))

-- The two branches of `languageLocation`, without and with a score for the languages.
abbrev pub location_only : Bool → Bool → Option ℕ
location_only known same = if not known then none else (if same then some 100 else some 40)

abbrev pub with_location : ℕ → Bool → Bool → ℕ
with_location language known same =
    if known
    then (if same then language * 70 / 100 + 30 else language * 70 / 100 + 10)
    else language

unfoldable pub language_location : (String → String) → Participant → Participant → Option ℕ
language_location to_lower a b =
    let known = not (a.broad_location == "") && not (b.broad_location == "") in
    let same = a.broad_location == b.broad_location in
    elim (jaccard to_lower a.languages b.languages) [
      | none ↦ location_only known same
      | some language ↦ some (clamp (with_location language known same))
    ]

-- The loop of `weighted`: the weighted sum and the sum of the weights in use.
unfoldable pub weighted_totals : List (String × ℕ) → List (String × ℕ) → ℕ × ℕ
weighted_totals [] weights = (0, 0)
weighted_totals ((name, score) ∷ scores) weights =
    let (sum, active) = weighted_totals scores weights in
    let weight = lookup_or 0 name weights in (sum + score * weight, active + weight)

unfoldable pub weighted : List (String × ℕ) → List (String × ℕ) → ℕ
unfolding weighted_totals
weighted scores weights =
    let (sum, active) = weighted_totals scores weights in
    if active == 0 then 0 else round_div sum active

abbrev pub reason_if : Bool → String → List String
reason_if true text = text ∷ []
reason_if false text = []

abbrev pub or_default : List String → List String
or_default [] = "Passed all reciprocal eligibility rules" ∷ []
or_default (r ∷ rs) = r ∷ rs

unfoldable pub explain : List (String × ℕ) → List String
explain c = or_default (
    reason_if (leb 90 (lookup_or 0 "relationship" c)) "Same approved relationship intention"
    ++ (reason_if (leb 40 (lookup_or 0 "interests" c)) "Meaningful shared interests"
        ++ (reason_if (leb 70 (lookup_or 0 "lifestyle" c)) "Compatible lifestyle preferences"
            ++ (reason_if (leb 40 (lookup_or 0 "values" c)) "Several shared values"
                ++ reason_if (leb 60 (lookup_or 0 "language_location" c))
                    "Shared language or broad location"))))
