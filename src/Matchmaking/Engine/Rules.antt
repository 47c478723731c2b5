-- ===== src/Matchmaking/Engine/Rules.antt =====
-- The rules of engine.go: ValidateRuleset, validateParticipants, hardRules, breaks, contains,
-- unique, Evaluate. `to_lower` is `strings.ToLower`.
pub mod Total
pub mod Symmetry
pub mod Safety
use match_mate_dating_web.Base.{
  ℕ, suc, ◌+◌, Bool, true, false, not, ◌&&◌, ◌||◌, Option, none, some, List, [], ◌∷◌, ◌++◌, String,
  ltb, leb, ◌==◌, nat_eq, string_eq, if◌then◌else◌, length, any,
}
use match_mate_dating_web.Base.Maps.{lookup, lookup_or, insert}
use match_mate_dating_web.Base.Result.{Result, ok, err, ◌>>◌, fail_if}
use match_mate_dating_web.Base.Text.{trim_space}
use match_mate_dating_web.Matchmaking.Domain.{Participant, Ruleset, Candidate}
use match_mate_dating_web.Matchmaking.Engine.Score.{
  personality, jaccard, map_similarity, language_location, weighted, explain,
}

abbrev pub component_order : List String
component_order =
    "relationship" ∷ "personality" ∷ "interests" ∷ "lifestyle" ∷ "values" ∷ "language_location" ∷ []

-- The errors of the engine, one for each text.
pub data InputError : Type 0 where
  invalid_ruleset : InputError
  unknown_component : InputError
  missing_weight : InputError
  weights_not_100 : InputError
  too_few_participants : InputError
  too_many_participants : InputError
  missing_identity : InputError
  account_id_not_unique : InputError
  code_not_unique : InputError
  invalid_age : InputError
  invalid_personality : InputError
  not_two_groups : InputError

abbrev pub add_weight : Option ℕ → Result InputError ℕ → Result InputError ℕ
add_weight none rest = err missing_weight
add_weight (some weight) (err e) = err e
add_weight (some weight) (ok total) = ok (weight + total)

-- The loop over `componentOrder`.
unfoldable pub weight_total : List (String × ℕ) → List String → Result InputError ℕ
weight_total weights [] = ok 0
weight_total weights (name ∷ names) = add_weight (lookup name weights) (weight_total weights names)

abbrev pub must_be_100 : Result InputError ℕ → Result InputError Unit
must_be_100 (err e) = err e
must_be_100 (ok total) = if total == 100 then ok tt else err weights_not_100

unfoldable pub validate_ruleset : Ruleset → Result InputError Unit
unfolding weight_total
validate_ruleset r =
    if trim_space r.version == ""
      || ltb 100 r.minimum_score
      || not (r.missing_data_policy == "IGNORE_AND_RENORMALIZE")
    then err invalid_ruleset
    else if not (length r.weights == length component_order)
    then err unknown_component
    else must_be_100 (weight_total r.weights component_order)

abbrev pub contains : List String → String → Bool
contains values value = any (λ v. v == value) values

abbrev pub is_off_scale : String × ℕ → Bool
is_off_scale e = ltb e.1 1 || ltb 5 e.1

-- The body of the loop of `validateParticipants`, with the ids and the codes seen before.
unfoldable pub validate_participant :
    List String → List String → Participant → Result InputError Unit
validate_participant ids codes p =
    if trim_space p.account_id == ""
      || trim_space p.participant_code == ""
      || trim_space p.group == ""
    then err missing_identity
    else if contains ids p.account_id
    then err account_id_not_unique
    else if contains codes p.participant_code
    then err code_not_unique
    else if ltb p.age 18
        || ltb 120 p.age
        || ltb p.minimum_age 18
        || ltb 120 p.maximum_age
        || ltb p.maximum_age p.minimum_age
    then err invalid_age
    else if any is_off_scale p.personality
    then err invalid_personality
    else ok tt

unfoldable pub validate_each : List String → List String → List Participant → Result InputError Unit
unfolding validate_participant
validate_each ids codes [] = ok tt
validate_each ids codes (p ∷ ps) =
    validate_participant ids codes p
    >> validate_each (p.account_id ∷ ids) (p.participant_code ∷ codes) ps

-- `maxPrototypePeople`
abbrev pub max_people : ℕ
max_people = 10000

unfoldable pub validate_participants : List Participant → Result InputError Unit
unfolding validate_each
validate_participants ps =
    if ltb (length ps) 2
    then err too_few_participants
    else if ltb max_people (length ps)
    then err too_many_participants
    else validate_each [] [] ps

-- `other.Lifestyle[key]` is the empty string for a missing key.
unfoldable pub breaks : Participant → Participant → Bool
breaks owner other = any (λ e. lookup_or "" e.0 other.lifestyle == e.1) owner.deal_breakers

-- `unique`: the first occurrence of each value stays, after those of `seen`.
unfoldable pub unique_after : List String → List String → List String
unique_after seen [] = []
unique_after seen (v ∷ vs) =
    let again = unique_after seen vs in
    let fresh = unique_after (v ∷ seen) vs in if contains seen v then again else v ∷ fresh

abbrev pub reject_if : Bool → String → List String → List String
reject_if true code codes = code ∷ codes
reject_if false code codes = codes

abbrev pub outside_range : ℕ → Participant → Bool
outside_range age p = ltb age p.minimum_age || ltb p.maximum_age age

unfoldable pub hard_rules : Participant → Participant → Ruleset → List String
unfolding breaks unique_after
hard_rules a b r = unique_after [] (
    reject_if (a.account_id == b.account_id || a.group == b.group) "EVENT_POLICY_MISMATCH" (
      reject_if (not a.active || not b.active || not a.verified || not b.verified)
        "ACCOUNT_INELIGIBLE"
        (reject_if (not a.profile_approved || not b.profile_approved) "PROFILE_INCOMPLETE" (
          reject_if (not a.booking_confirmed || not b.booking_confirmed) "BOOKING_NOT_CONFIRMED" (
            reject_if
              (not (contains a.accepted_groups b.group) || not (contains b.accepted_groups a.group))
              "PARTNER_PREFERENCE_MISMATCH"
              (reject_if (outside_range b.age a || outside_range a.age b) "AGE_RANGE_MISMATCH" (
                reject_if
                  (contains a.blocked_account_ids b.account_id
                    || contains b.blocked_account_ids a.account_id)
                  "BLOCKED_RELATIONSHIP"
                  (reject_if (a.safety_excluded || b.safety_excluded) "SAFETY_EXCLUSION" (
                    reject_if (breaks a b || breaks b a) "DEAL_BREAKER_MISMATCH" (
                      reject_if
                        (not r.allow_repeat_pairings
                          && (contains a.prior_partner_ids b.account_id
                              || contains b.prior_partner_ids a.account_id))
                        "REPEAT_PAIR_NOT_ALLOWED" []))))))))))

-- `if score, ok := …; ok { components[name] = score }`
abbrev pub component : String → Option ℕ → List (String × ℕ)
component name none = []
component name (some score) = (name, score) ∷ []

unfoldable pub relationship : Participant → Participant → Option ℕ
relationship a b =
    if not (a.relationship_intent == "") && not (b.relationship_intent == "")
    then (if a.relationship_intent == b.relationship_intent then some 100 else some 60)
    else none

module _ (to_lower : String → String) where
  unfoldable pub components : Participant → Participant → List (String × ℕ)
  unfolding relationship
  components a b =
      component "relationship" (relationship a b)
      ++ (component "personality" (personality a.personality b.personality)
          ++ (component "interests" (jaccard to_lower a.interests b.interests)
              ++ (component "lifestyle" (map_similarity a.lifestyle b.lifestyle)
                  ++ (component "values" (jaccard to_lower a.values b.values)
                      ++ component "language_location" (language_location to_lower a b)))))

  -- The candidate of a pair, by its rejection codes.
  unfoldable pub candidate : Participant → Participant → Ruleset → List String → Candidate
  unfolding components
  candidate a b r (code ∷ codes) = record {
    participant_a = a.account_id;
    participant_b = b.account_id;
    eligible = false;
    rejection_codes = code ∷ codes;
    components = [];
    total_score = 0;
    safe_reasons = [];
  }
  candidate a b r [] = record {
    participant_a = a.account_id;
    participant_b = b.account_id;
    eligible = true;
    rejection_codes = [];
    components = components a b;
    total_score = weighted (components a b) r.weights;
    safe_reasons = explain (components a b);
  }

  unfoldable pub evaluate : Participant → Participant → Ruleset → Candidate
  evaluate a b r = candidate a b r (hard_rules a b r)
