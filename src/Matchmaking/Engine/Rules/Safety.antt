-- ===== src/Matchmaking/Engine/Rules/Safety.antt =====
-- What an eligible pair is (engine.go: hardRules, Evaluate).
use match_mate_dating_web.Base.{
  ◌≡◌, ◌≤◌, refl, true, false, not, ◌||◌, List, [], ◌∷◌, String, arith, ◌==◌, string_eq,
}
use match_mate_dating_web.Matchmaking.Domain.{Participant, Ruleset}
use match_mate_dating_web.Matchmaking.Engine.Rules.{
  contains, breaks, unique_after, hard_rules, candidate, evaluate,
}

-- What one participant asks of the other.
pub record Accepts (a b : Participant) (r : Ruleset) : Type 0 where
  pub group : contains a.accepted_groups b.group ≡ true
  pub age : (a.minimum_age ≤ b.age) × (b.age ≤ a.maximum_age)
  pub block : contains a.blocked_account_ids b.account_id ≡ false
  pub breaker : breaks a b ≡ false
  pub repeat : (r.allow_repeat_pairings || not (contains a.prior_partner_ids b.account_id)) ≡ true

-- What the event asks of each participant.
pub record IsReady (a : Participant) : Type 0 where
  pub active : a.active ≡ true
  pub verified : a.verified ≡ true
  pub approved : a.profile_approved ≡ true
  pub booked : a.booking_confirmed ≡ true
  pub safe : a.safety_excluded ≡ false

nothing_unique : (codes : List String) → unique_after [] codes ≡ [] → codes ≡ []
unfolding unique_after
nothing_unique [] h = refl
nothing_unique (code ∷ codes) h = cc

candidate-eligible_codes :
    (to_lower : String → String) (a b : Participant) (r : Ruleset) (codes : List String)
    → (candidate to_lower a b r codes).eligible ≡ true
    → codes ≡ []
unfolding candidate
candidate-eligible_codes to_lower a b r [] h = refl
candidate-eligible_codes to_lower a b r (code ∷ codes) h = cc

-- An eligible pair is of two accounts in two groups, both of them are active, verified, approved,
-- booked and not excluded, and each accepts the other: its group, its age, no block, no deal breaker
-- and, unless the ruleset allows it, no earlier pairing.
pub evaluate-eligible :
    (to_lower : String → String) (a b : Participant) (r : Ruleset)
    → (evaluate to_lower a b r).eligible ≡ true
    → ((a.account_id == b.account_id) ≡ false)
      × ((a.group == b.group) ≡ false)
      × (IsReady a × IsReady b)
      × Accepts a b r
      × Accepts b a r
unfolding evaluate hard_rules
evaluate-eligible to_lower a b r h =
    let none_left =
      nothing_unique _ (candidate-eligible_codes to_lower a b r (hard_rules a b r) h) in
    (
      ground (arith, none_left),
      ground (arith, none_left),
      (
        record {
          active = ground (arith, none_left);
          verified = ground (arith, none_left);
          approved = ground (arith, none_left);
          booked = ground (arith, none_left);
          safe = ground (arith, none_left);
        },
        record {
          active = ground (arith, none_left);
          verified = ground (arith, none_left);
          approved = ground (arith, none_left);
          booked = ground (arith, none_left);
          safe = ground (arith, none_left);
        },
      ),
      record {
        group = ground (arith, none_left);
        age = (ground (arith, none_left), ground (arith, none_left));
        block = ground (arith, none_left);
        breaker = ground (arith, none_left);
        repeat = ground (arith, none_left);
      },
      record {
        group = ground (arith, none_left);
        age = (ground (arith, none_left), ground (arith, none_left));
        block = ground (arith, none_left);
        breaker = ground (arith, none_left);
        repeat = ground (arith, none_left);
      },
    )
