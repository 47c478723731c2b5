-- ===== src/Matchmaking/Engine/Pairs.antt =====
-- Generate, optimize, pairKey and unmatchedReason of engine.go. `to_lower` is `strings.ToLower`.
-- Go compares texts by their bytes in UTF-8, which is the order of their code points.
pub mod Edges
pub mod Keys
pub mod Generated
pub mod Backed
use Prim.Native.String.{compare}
use Prim.Native.String
use Prim.Native.Nat.{Ordering}
use match_mate_dating_web.Base.{
  ℕ, zero, suc, ◌+◌, ◌*◌, Bool, true, false, not, ◌&&◌, ◌||◌, Option, none, some, List, [], ◌∷◌,
  ◌++◌, String, ◌==◌, string_eq, leb, if◌then◌else◌, length, any, filter, map, take,
}
use match_mate_dating_web.Base.Tests.{ltb}
use match_mate_dating_web.Base.Maps.{lookup, insert}
use match_mate_dating_web.Base.Result.{Result, ok, err, ◌>>=◌, ◌>>◌}
use match_mate_dating_web.Matchmaking.Domain.{
  Participant, Ruleset, Candidate, Pairing, Unmatched, EngineResult,
}
use match_mate_dating_web.Matchmaking.Engine.Assignment.{hungarian_max, repeated}
use match_mate_dating_web.Matchmaking.Engine.Rules.{
  InputError, not_two_groups, validate_ruleset, validate_participants, evaluate, contains,
  max_people,
}

abbrev pub text_less : String → String → Bool
text_less s t = elim (compare s t) [ Ordering.lt ↦ true | _ ↦ false ]

-- `sort.Slice` by a text; the keys that the engine sorts by are distinct.
module _ {A : Type 0} (key : A → String) where
  unfoldable pub insert_by : A → List A → List A
  insert_by x [] = x ∷ []
  insert_by x (y ∷ ys) =
      let rest = insert_by x ys in if text_less (key y) (key x) then y ∷ rest else x ∷ y ∷ ys

  unfoldable pub sort_by : List A → List A
  unfolding insert_by
  sort_by [] = []
  sort_by (x ∷ xs) = insert_by x (sort_by xs)

unfoldable pub pair_key : String → String → String
pair_key a b =
    if text_less a b then String.◌++◌ a (String.◌++◌ "|" b) else String.◌++◌ b (String.◌++◌ "|" a)

abbrev pub involves : String → Candidate → Bool
involves id c = c.participant_a == id || c.participant_b == id

unfoldable pub unmatched_reason : String → List Candidate → ℕ → String
unmatched_reason id candidates minimum =
    if not (any (λ c. involves id c && c.eligible) candidates)
    then "NO_ELIGIBLE_CANDIDATE"
    else if not (any (λ c. involves id c && (c.eligible && leb minimum c.total_score)) candidates)
    then "BELOW_MINIMUM_SCORE"
    else "GROUP_CAPACITY_IMBALANCE"

-- `cardinalityEdgeBonus`
abbrev pub edge_bonus : ℕ
edge_bonus = max_people * 100 + 1

abbrev pub EdgeMap : Type 0
EdgeMap = List (String × Candidate)

abbrev pub weight_of : EdgeMap → Participant → Participant → ℕ
weight_of edges a b = elim (lookup (pair_key a.account_id b.account_id) edges) [
  | none ↦ 0
  | some c ↦ edge_bonus + c.total_score
]

-- The square matrix of the weights, zero outside the two groups.
abbrev pub padded : ℕ → List ℕ → List ℕ
padded size ws = take size (ws ++ repeated size 0)

unfoldable pub weights : List Participant → List Participant → EdgeMap → List (List ℕ)
weights left right edges =
    let size = if ltb (length left) (length right) then length right else length left in
    take size (
      map (λ a. padded size (map (weight_of edges a) right)) left
      ++ repeated size (repeated size 0))

abbrev pub nth : {A : Type 0} → ℕ → List A → Option A
nth i [] = none
nth zero (x ∷ xs) = some x
nth (suc i) (x ∷ xs) = nth i xs

abbrev pub pairing : Participant → Participant → Candidate → Pairing
pairing a b c = record {
  participant_a = a.account_id;
  participant_b = b.account_id;
  participant_a_code = a.participant_code;
  participant_b_code = b.participant_code;
  score = c.total_score;
  safe_reasons = c.safe_reasons;
  source = "ALGORITHM";
}

abbrev pub pair_edge : Participant → Participant → Option Candidate → List Pairing
pair_edge a b none = []
pair_edge a b (some c) = pairing a b c ∷ []

abbrev pub pair_at : EdgeMap → Participant → Option Participant → List Pairing
pair_at edges a none = []
pair_at edges a (some b) = pair_edge a b (lookup (pair_key a.account_id b.account_id) edges)

-- The pairing of a row with its column, if both are participants and the pair is an edge.
unfoldable pub pair_of : List Participant → EdgeMap → Participant → Option ℕ → List Pairing
pair_of right edges a none = []
pair_of right edges a (some j) = pair_at edges a (nth j right)

-- The loop over the assignment, with the row of each answer.
unfoldable pub pairs :
    List Participant → List Participant → EdgeMap → List (Option ℕ) → List Pairing
unfolding pair_of
pairs left right edges [] = []
pairs [] right edges (j ∷ answer) = []
pairs (a ∷ left) right edges (j ∷ answer) = pair_of right edges a j ++ pairs left right edges answer

abbrev pub pairing_key : Pairing → String
pairing_key p = pair_key p.participant_a p.participant_b

-- `none` where hungarian_max has run out of fuel.
unfoldable pub optimize : List Participant → List Participant → EdgeMap → Option (List Pairing)
unfolding weights pairs sort_by
optimize left right edges = elim (hungarian_max (weights left right edges)) [
  | none ↦ none
  | some answer ↦ some (sort_by pairing_key (pairs left right edges answer))
]

-- The keys of the map of groups: each group once, in the order of the texts.
unfoldable pub group_keys : List Participant → List String
group_keys [] = []
group_keys (p ∷ ps) =
    let rest = group_keys ps in
    if contains rest p.group then rest else insert_by (λ g. g) p.group rest

abbrev pub is_edge : Ruleset → Candidate → Bool
is_edge r c = c.eligible && leb r.minimum_score c.total_score

abbrev pub edges_of : Ruleset → List Candidate → EdgeMap → EdgeMap
edges_of r [] edges = edges
edges_of r (c ∷ cs) edges =
    edges_of r cs
      (if is_edge r c then insert (pair_key c.participant_a c.participant_b) c edges else edges)

abbrev pub is_paired : List Pairing → Participant → Bool
is_paired pairings p =
    any (λ q. q.participant_a == p.account_id || q.participant_b == p.account_id) pairings

abbrev pub unmatched_of : List Candidate → ℕ → Participant → Unmatched
unmatched_of candidates minimum p = record {
  participant_id = p.account_id;
  code = p.participant_code;
  reason = unmatched_reason p.account_id candidates minimum;
}

module _ (to_lower : String → String) (r : Ruleset) where
  unfoldable pub candidates_of : List Participant → List Participant → List Candidate
  candidates_of [] right = []
  candidates_of (a ∷ left) right =
      map (λ b. evaluate to_lower a b r) right ++ candidates_of left right

  abbrev pub result_of : List Participant → List Candidate → List Pairing → EngineResult
  result_of people candidates pairings = record {
    candidates = candidates;
    pairings = pairings;
    unmatched =
        map (unmatched_of candidates r.minimum_score)
          (filter (λ p. not (is_paired pairings p)) people);
  }

  -- The two groups of `Generate` and what follows; `none` where the fuel is not enough.
  unfoldable pub generate_groups :
      List Participant → List String → Result InputError (Option EngineResult)
  unfolding candidates_of
  generate_groups people (k ∷ l ∷ []) =
      let left = filter (λ p. p.group == k) people in
      let right = filter (λ p. p.group == l) people in
      let candidates = candidates_of left right in
      elim (optimize left right (edges_of r candidates [])) [
        | none ↦ ok none
        | some pairings ↦ ok (some (result_of people candidates pairings))
      ]
  generate_groups people keys = err not_two_groups

  unfoldable pub generate : List Participant → Result InputError (Option EngineResult)
  unfolding generate_groups group_keys
  generate participants =
      validate_ruleset r
      >> (validate_participants participants
          >> generate_groups (sort_by (λ p. p.account_id) participants)
              (group_keys (sort_by (λ p. p.account_id) participants)))
