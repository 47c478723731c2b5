-- ===== src/Matchmaking/Domain.antt =====
-- services/matchmaking-service/internal/domain/types.go. The integers of the input are natural
-- numbers: Generate's validation refuses negative ones before anything else reads them, and an
-- Evaluate that is called with negative weights is not modelled. Nor are weights so large that their
-- sum or their products with a score leave the int64. A Go map is the list of its entries, in any
-- order.
use match_mate_dating_web.Base.{ℕ, Bool, List, String}

pub record Participant : Type 0 where
  pub account_id : String
  pub participant_code : String
  pub group : String
  pub accepted_groups : List String
  pub age : ℕ
  pub minimum_age : ℕ
  pub maximum_age : ℕ
  pub active : Bool
  pub verified : Bool
  pub profile_approved : Bool
  pub booking_confirmed : Bool
  pub safety_excluded : Bool
  pub blocked_account_ids : List String
  pub relationship_intent : String
  pub interests : List String
  pub personality : List (String × ℕ)
  pub lifestyle : List (String × String)
  pub values : List String
  pub languages : List String
  pub broad_location : String
  pub deal_breakers : List (String × String)
  pub prior_partner_ids : List String

pub record Ruleset : Type 0 where
  pub version : String
  pub weights : List (String × ℕ)
  pub minimum_score : ℕ
  pub allow_repeat_pairings : Bool
  pub missing_data_policy : String

pub record Candidate : Type 0 where
  pub participant_a : String
  pub participant_b : String
  pub eligible : Bool
  pub rejection_codes : List String
  pub components : List (String × ℕ)
  pub total_score : ℕ
  pub safe_reasons : List String

pub record Pairing : Type 0 where
  pub participant_a : String
  pub participant_b : String
  pub participant_a_code : String
  pub participant_b_code : String
  pub score : ℕ
  pub safe_reasons : List String
  pub source : String

pub record Unmatched : Type 0 where
  pub participant_id : String
  pub code : String
  pub reason : String

pub record EngineResult : Type 0 where
  pub candidates : List Candidate
  pub pairings : List Pairing
  pub unmatched : List Unmatched
