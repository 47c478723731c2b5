-- ===== src/Matchmaking/Engine/Rules/Symmetry.antt =====
-- A pair of participants in either order (engine.go: hardRules, Evaluate).
use match_mate_dating_web.Base.{
  ◌≡◌, refl, ap, ◌∙◌, Bool, not, ◌||◌, List, [], ◌∷◌, String, arith, ◌==◌, string_eq, eq_iff,
}
use match_mate_dating_web.Matchmaking.Domain.{Participant, Ruleset}
use match_mate_dating_web.Matchmaking.Engine.Rules.{
  contains, breaks, outside_range, hard_rules, candidate, evaluate,
}

or_comm : (p q : Bool) → (p || q) ≡ (q || p)
or_comm p q = ground arith

beq_comm : (s t : String) → (s == t) ≡ (t == s)
beq_comm s t = ground (arith, eq_iff s t, eq_iff t s)

either_order : (p q r s : Bool) → (p || q || r || s) ≡ (q || p || s || r)
either_order p q r s = ground arith

-- The rejection codes of a pair, with their order, do not depend on who is the first.
hard_rules_comm : (a b : Participant) (r : Ruleset) → hard_rules a b r ≡ hard_rules b a r
unfolding hard_rules
hard_rules_comm a b r =
    rw
      (
        beq_comm a.account_id b.account_id,
        beq_comm a.group b.group,
        either_order (not a.active) (not b.active) (not a.verified) (not b.verified),
        or_comm (not a.profile_approved) (not b.profile_approved),
        or_comm (not a.booking_confirmed) (not b.booking_confirmed),
        or_comm (not (contains a.accepted_groups b.group))
            (not (contains b.accepted_groups a.group)),
        or_comm (outside_range b.age a) (outside_range a.age b),
        or_comm (contains a.blocked_account_ids b.account_id)
            (contains b.blocked_account_ids a.account_id),
        or_comm a.safety_excluded b.safety_excluded,
        or_comm (breaks a b) (breaks b a),
        or_comm (contains a.prior_partner_ids b.account_id)
            (contains b.prior_partner_ids a.account_id),
      )
      refl

-- The same for whether a pair is eligible.
candidate-eligible :
    (to_lower : String → String) (a b : Participant) (r : Ruleset) (codes : List String)
    → (candidate to_lower a b r codes).eligible ≡ (candidate to_lower b a r codes).eligible
unfolding candidate
candidate-eligible to_lower a b r [] = refl
candidate-eligible to_lower a b r (code ∷ codes) = refl

-- Two participants in either order get the same rejection codes in the same order, and are eligible
-- or not.
pub evaluate_comm :
    (to_lower : String → String) (a b : Participant) (r : Ruleset)
    → ((evaluate to_lower a b r).eligible ≡ (evaluate to_lower b a r).eligible)
      × (hard_rules a b r ≡ hard_rules b a r)
unfolding evaluate
evaluate_comm to_lower a b r = (
  candidate-eligible to_lower a b r (hard_rules a b r)
      ∙ ap (λ codes. (candidate to_lower b a r codes).eligible) (hard_rules_comm a b r),
  hard_rules_comm a b r,
)
