-- ===== src/Tests/Pairs.antt =====
-- Runs of the matching engine.
use match_mate_dating_web.Base.{◌≡◌, refl, true, false, [], ◌∷◌, String, ◌==◌, string_eq}
use match_mate_dating_web.Matchmaking.Domain.{Participant, Ruleset}
use match_mate_dating_web.Base.{some}
use match_mate_dating_web.Base.{List}
use match_mate_dating_web.Matchmaking.Domain.{EngineResult}
use match_mate_dating_web.Base.Text
use match_mate_dating_web.Matchmaking.Engine.Score
use match_mate_dating_web.Matchmaking.Engine.Pairs
use match_mate_dating_web.Matchmaking.Engine.Assignment.{hungarian_max}
use match_mate_dating_web.Matchmaking.Engine.Rules
use match_mate_dating_web.Matchmaking.Engine.Rules.{evaluate, hard_rules}
use match_mate_dating_web.Matchmaking.Engine.Rules.Symmetry.{evaluate_comm}
use match_mate_dating_web.Matchmaking.Engine.Rules.Safety.{evaluate-eligible, IsReady, Accepts}

abbrev lower : String → String
lower s = s

abbrev person : String → String → String → Participant
person id group other = record {
  account_id = id;
  participant_code = id;
  group = group;
  accepted_groups = other ∷ [];
  age = 30;
  minimum_age = 25;
  maximum_age = 35;
  active = true;
  verified = true;
  profile_approved = true;
  booking_confirmed = true;
  safety_excluded = false;
  blocked_account_ids = [];
  relationship_intent = "LONG_TERM";
  interests = "music" ∷ "tea" ∷ [];
  personality = ("openness", 4) ∷ [];
  lifestyle = ("smoking", "no") ∷ [];
  values = "family" ∷ [];
  languages = "si" ∷ [];
  broad_location = "Colombo";
  deal_breakers = ("smoking", "yes") ∷ [];
  prior_partner_ids = [];
}

abbrev rules : Ruleset
rules = record {
  version = "v1";
  weights =
      ("relationship", 25)
      ∷ ("personality", 20)
      ∷ ("interests", 20)
      ∷ ("lifestyle", 15)
      ∷ ("values", 10)
      ∷ ("language_location", 10)
      ∷ [];
  minimum_score = 50;
  allow_repeat_pairings = false;
  missing_data_policy = "IGNORE_AND_RENORMALIZE";
}

abbrev ann : Participant
ann = person "ann" "A" "B"

abbrev ben : Participant
ben = person "ben" "B" "A"

ann-ben-eligible : (evaluate lower ann ben rules).eligible ≡ true
unfolding evaluate hard_rules Rules.candidate Rules.unique_after Rules.breaks
ann-ben-eligible = refl

evaluate_comm_example :
    ((evaluate lower ann ben rules).eligible ≡ (evaluate lower ben ann rules).eligible)
    × (hard_rules ann ben rules ≡ hard_rules ben ann rules)
evaluate_comm_example = evaluate_comm lower ann ben rules

evaluate-eligible_example :
    ((ann.account_id == ben.account_id) ≡ false)
    × ((ann.group == ben.group) ≡ false)
    × (IsReady ann × IsReady ben)
    × Accepts ann ben rules
    × Accepts ben ann rules
evaluate-eligible_example = evaluate-eligible lower ann ben rules ann-ben-eligible

-- The pairs with the weights 5 and 6, though the best weight of the first row is 7.
best_pairs : hungarian_max ((7 ∷ 5 ∷ []) ∷ (6 ∷ 1 ∷ []) ∷ []) ≡ some (some 1 ∷ some 0 ∷ [])
unfolding hungarian_max
best_pairs = refl

abbrev couple : List Participant
couple = ann ∷ ben ∷ []

abbrev couple_result : EngineResult
couple_result = record {
  candidates = evaluate lower ann ben rules ∷ [];
  pairings =
      record {
        participant_a = "ann";
        participant_b = "ben";
        participant_a_code = "ann";
        participant_b_code = "ben";
        score = (evaluate lower ann ben rules).total_score;
        safe_reasons = (evaluate lower ann ben rules).safe_reasons;
        source = "ALGORITHM";
      }
      ∷ [];
  unmatched = [];
}
