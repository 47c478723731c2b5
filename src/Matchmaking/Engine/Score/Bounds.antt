-- ===== src/Matchmaking/Engine/Score/Bounds.antt =====
-- Bounds of the scores of engine.go.
use match_mate_dating_web.Base.{
  ℕ, zero, suc, ◌+◌, ◌-◌, ◌*◌, ◌/◌, ◌≤◌, Bool, not, ◌&&◌, Option, none, some, List, [], ◌∷◌, String,
  arith, ◌==◌, nat_eq, string_eq, length, count, All,
}
use native.Mathlib.Nat.{div-le_of_le-mul, mul-le-mul_right, div-lt_iff_lt-mul}
use match_mate_dating_web.Base.Maps.{lookup_or}
use match_mate_dating_web.Matchmaking.Domain.{Participant}
use match_mate_dating_web.Matchmaking.Engine.Score.{
  round_div, clamp, personality, same_totals, map_similarity, mark, is_shared, jaccard, mask_left,
  mask_right, language_location, location_only, with_location, weighted_totals, weighted,
  trait_totals,
}

abbrev pub IsPercentage : Option ℕ → Type 0
IsPercentage none = Unit
IsPercentage (some score) = score ≤ 100

clamp-le : (v : ℕ) → clamp v ≤ 100
unfolding clamp
clamp-le v = ground arith

pub personality-IsPercentage : (a b : List (String × ℕ)) → IsPercentage (personality a b)
unfolding personality
personality-IsPercentage a b =
    ground (arith, clamp-le (100 - (trait_totals a b).0 * 25 / (trait_totals a b).1))

-- Shared keys of equal value are shared keys.
same_totals-le : (a b : List (String × String)) → (same_totals a b).0 ≤ (same_totals a b).1
unfolding same_totals
same_totals-le [] b = ground arith
same_totals-le ((key, av) ∷ a) b = ground (arith, same_totals-le a b)

share_le : (part total : ℕ) → part ≤ total → part * 100 / total ≤ 100
share_le part total h = div-le_of_le-mul total (omega (arith, h))

-- A rounded share of a hundred: 100.5 is out of reach.
round_div-le : (sum total : ℕ) → sum ≤ 100 * total → round_div sum total ≤ 100
round_div-le sum zero h = omega arith
round_div-le sum (suc total) h = omega (
  arith,
  (div-lt_iff_lt-mul {k = 2 * suc total} {x = 2 * sum + suc total} {y = 101} (omega arith)).1
      (omega (arith, h)),
)

pub map_similarity-IsPercentage : (a b : List (String × String)) → IsPercentage (map_similarity a b)
unfolding map_similarity
map_similarity-IsPercentage a b =
    ground (arith, share_le (same_totals a b).0 (same_totals a b).1 (same_totals-le a b))

count-le {ℓ} : {A : Type ℓ} (p : A → Bool) (xs : List A) → count p xs ≤ length xs
count-le p [] = ground arith
count-le p (x ∷ xs) = ground (arith, count-le p xs)

pub jaccard-IsPercentage :
    (to_lower : String → String) (a b : List String) → IsPercentage (jaccard to_lower a b)
unfolding jaccard
jaccard-IsPercentage to_lower a b =
    let set = mark to_lower mask_right b (mark to_lower mask_left a []) in
    ground (
      arith,
      round_div-le (count is_shared set * 100) (length set) (omega (arith, count-le is_shared set)),
    )

pub language_location-IsPercentage :
    (to_lower : String → String) (a b : Participant) → IsPercentage (language_location to_lower a b)
unfolding language_location
language_location-IsPercentage to_lower a b = language (jaccard to_lower a.languages b.languages)
  where
    language :
        (s : Option ℕ)
        → IsPercentage (elim s [
          | none ↦
              location_only
                (not (a.broad_location == "") && not (b.broad_location == ""))
                (a.broad_location == b.broad_location)
          | some l ↦ some (
              clamp (
                with_location l
                  (not (a.broad_location == "") && not (b.broad_location == ""))
                  (a.broad_location == b.broad_location)))
        ])
    language none = ground arith
    language (some l) = clamp-le _

step :
    (sum active weight score : ℕ)
    → score ≤ 100
    → sum ≤ 100 * active
    → sum + score * weight ≤ 100 * (active + weight)
step sum active weight score le h = omega (arith, mul-le-mul_right weight le)

-- The weighted mean of percentages is one.
weighted_totals-le :
    (scores weights : List (String × ℕ))
    → All (λ e. e.1 ≤ 100) scores
    → (weighted_totals scores weights).0 ≤ 100 * (weighted_totals scores weights).1
unfolding weighted_totals
weighted_totals-le [] weights h = ground arith
weighted_totals-le ((name, score) ∷ scores) weights (le, h) =
    step (weighted_totals scores weights).0 (weighted_totals scores weights).1
      (lookup_or 0 name weights) score le (weighted_totals-le scores weights h)

pub weighted-le :
    (scores weights : List (String × ℕ))
    → All (λ e. e.1 ≤ 100) scores
    → weighted scores weights ≤ 100
unfolding weighted
weighted-le scores weights h = ground (
  arith,
  round_div-le (weighted_totals scores weights).0 (weighted_totals scores weights).1
      (weighted_totals-le scores weights h),
)
