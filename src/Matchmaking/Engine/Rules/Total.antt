-- ===== src/Matchmaking/Engine/Rules/Total.antt =====
-- The total score of a candidate (engine.go: Evaluate).
use match_mate_dating_web.Base.{
  ℕ, ◌≤◌, Option, none, some, List, [], ◌∷◌, ◌++◌, String, arith, string_eq, All,
}
use match_mate_dating_web.Matchmaking.Domain.{Participant, Ruleset}
use match_mate_dating_web.Matchmaking.Engine.Score.Bounds.{
  IsPercentage, personality-IsPercentage, map_similarity-IsPercentage, jaccard-IsPercentage,
  language_location-IsPercentage, weighted-le,
}
use match_mate_dating_web.Matchmaking.Engine.Rules.{
  component, relationship, components, candidate, evaluate, hard_rules,
}

abbrev ArePercentages : List (String × ℕ) → Type 0
ArePercentages = All (λ e. e.1 ≤ 100)

component-le : (name : String) (s : Option ℕ) → IsPercentage s → ArePercentages (component name s)
component-le name none h = tt
component-le name (some s) h = (h, tt)

both-le : (s t : List (String × ℕ)) → ArePercentages s → ArePercentages t → ArePercentages (s ++ t)
both-le [] t h k = k
both-le (e ∷ s) t (le, h) k = (le, both-le s t h k)

relationship-IsPercentage : (a b : Participant) → IsPercentage (relationship a b)
unfolding relationship
relationship-IsPercentage a b = ground arith

components-le :
    (to_lower : String → String) (a b : Participant) → ArePercentages (components to_lower a b)
unfolding components
components-le to_lower a b = both-le _ _ (component-le _ _ (relationship-IsPercentage a b)) (
    both-le _ _ (component-le _ _ (personality-IsPercentage a.personality b.personality)) (
      both-le _ _ (component-le _ _ (jaccard-IsPercentage to_lower a.interests b.interests)) (
        both-le _ _ (component-le _ _ (map_similarity-IsPercentage a.lifestyle b.lifestyle)) (
          both-le _ _ (component-le _ _ (jaccard-IsPercentage to_lower a.values b.values))
            (component-le _ _ (language_location-IsPercentage to_lower a b))))))

candidate-total_le :
    (to_lower : String → String) (a b : Participant) (r : Ruleset) (codes : List String)
    → (candidate to_lower a b r codes).total_score ≤ 100
unfolding candidate
candidate-total_le to_lower a b r [] = weighted-le _ r.weights (components-le to_lower a b)
candidate-total_le to_lower a b r (code ∷ codes) = omega arith

-- The total score of every candidate is at most 100 when no weight is negative.
pub evaluate-total_le :
    (to_lower : String → String) (a b : Participant) (r : Ruleset)
    → (evaluate to_lower a b r).total_score ≤ 100
unfolding evaluate
evaluate-total_le to_lower a b r = candidate-total_le to_lower a b r (hard_rules a b r)
