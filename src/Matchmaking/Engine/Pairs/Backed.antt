-- ===== src/Matchmaking/Engine/Pairs/Backed.antt =====
-- The evaluations behind the pairings that Generate of engine.go gives, and their scores.
use mathlib.Core.List.{Memᴰ}
use match_mate_dating_web.Base.{◌≡◌, ◌≤◌, ◌⊎◌, true, List, String}
use match_mate_dating_web.Base.Numerals.RoundTrip.{has_no_bar}
use match_mate_dating_web.Matchmaking.Domain.{
  Participant, Ruleset, Candidate, Pairing, EngineResult,
}
use match_mate_dating_web.Matchmaking.Engine.Rules.{evaluate}
use match_mate_dating_web.Matchmaking.Engine.Pairs.Generated.{IsOf}

module _ (to_lower : String → String) (r : Ruleset) where
  -- A pairing of two of the people `ps`, whose evaluation is one of the candidates, is eligible and
  -- has the minimum score, and gives the pairing its score and its reasons.
  pub record IsBacked (ps : List Participant) (res : EngineResult) (q : Pairing) : Type 0 where
    pub a : Participant
    pub b : Participant
    pub a_given : Memᴰ a ps
    pub b_given : Memᴰ b ps
    pub ids :
        ((q.participant_a ≡ a.account_id) × (q.participant_b ≡ b.account_id))
        ⊎ ((q.participant_a ≡ b.account_id) × (q.participant_b ≡ a.account_id))
    pub listed : Memᴰ (evaluate to_lower a b r) res.candidates
    pub eligible : (evaluate to_lower a b r).eligible ≡ true
    pub enough : r.minimum_score ≤ (evaluate to_lower a b r).total_score
    pub score : q.score ≡ (evaluate to_lower a b r).total_score
    pub reasons : q.safe_reasons ≡ (evaluate to_lower a b r).safe_reasons

  module _ (ps : List Participant) (res : EngineResult) where
    abbrev IsFree : Participant → Type 0
    IsFree p = Memᴰ p ps × (has_no_bar p.account_id ≡ true)

    abbrev IsListed : Candidate → Type 0
    IsListed c = IsOf to_lower r IsFree c × Memᴰ c res.candidates
