-- ===== src/Matchmaking/Engine/Pairs/Generated.antt =====
-- What holds of the candidates and the pairings that Generate of engine.go gives.
use mathlib.Core.Path.{subst}
use mathlib.Core.List.{Memᴰ}
use match_mate_dating_web.Base.{
  ℕ, ◌≡◌, refl, sym, ap, ◌∙◌, true, false, Option, some, List, [], ◌∷◌, ◌++◌, String, arith, map,
  ◌==◌, string_eq, if◌then◌else◌, filter, All, All-map, All-filter, Option-cases, inl, inr,
}
use match_mate_dating_web.Base.Result.{ok, bind-eq-ok}
use match_mate_dating_web.Matchmaking.Domain.{
  Participant, Ruleset, Candidate, Pairing, EngineResult,
}
use match_mate_dating_web.Matchmaking.Engine.Assignment.{hungarian_max}
use match_mate_dating_web.Matchmaking.Engine.Rules.{
  evaluate, candidate, hard_rules, validate_ruleset, validate_participants,
}
use match_mate_dating_web.Matchmaking.Engine.Pairs.{
  insert_by, sort_by, text_less, optimize, weights, pairs, edges_of, pairing_key, candidates_of,
  result_of, generate, generate_groups,
}
use match_mate_dating_web.Matchmaking.Engine.Pairs.Edges.{IsKeyed, pairs-AreKeyed}

module _ {A : Type 0} (P : A → Type 0) (key : A → String) where
  insert_by-All : (x : A) (xs : List A) → P x → All P xs → All P (insert_by key x xs)
  unfolding insert_by
  insert_by-All x [] p h = (p, tt)
  insert_by-All x (y ∷ ys) p h =
      elim (text_less (key y) (key x))
        as (λ b. All P (if b then y ∷ insert_by key x ys else x ∷ y ∷ ys)) [
          | true ↦ (h.0, insert_by-All x ys p h.1)
          | false ↦ (p, h)
        ]

  sort_by-All : (xs : List A) → All P xs → All P (sort_by key xs)
  unfolding sort_by
  sort_by-All [] h = tt
  sort_by-All (x ∷ xs) h = insert_by-All x (sort_by key xs) h.0 (sort_by-All xs h.1)

module _ {A : Type 0} where
  append-All : (P : A → Type 0) (xs ys : List A) → All P xs → All P ys → All P (xs ++ ys)
  append-All P [] ys h k = k
  append-All P (x ∷ xs) ys h k = (h.0, append-All P xs ys h.1 k)

  pub All-Memᴰ : (xs : List A) → All (λ x. Memᴰ x xs) xs
  All-Memᴰ [] = tt
  All-Memᴰ (x ∷ xs) = (Memᴰ.head refl, All-map xs (λ y m. Memᴰ.tail m) (All-Memᴰ xs))

module _ (to_lower : String → String) (r : Ruleset) where
  -- What is known of a candidate: it is the evaluation of two people of whom `P` holds.
  pub record IsOf (P : Participant → Type 0) (c : Candidate) : Type 0 where
    pub a : Participant
    pub b : Participant
    pub of_a : P a
    pub of_b : P b
    pub is : c ≡ evaluate to_lower a b r

  row-IsOf :
      (P : Participant → Type 0) (a : Participant) (right : List Participant)
      → P a
      → All P right
      → All (IsOf P) (map (λ b. evaluate to_lower a b r) right)
  row-IsOf P a [] p h = tt
  row-IsOf P a (b ∷ right) p h =
      (record { a = a; b = b; of_a = p; of_b = h.0; is = refl }, row-IsOf P a right p h.1)

  candidates_of-IsOf :
      (P : Participant → Type 0) (left right : List Participant)
      → All P left
      → All P right
      → All (IsOf P) (candidates_of to_lower r left right)
  unfolding candidates_of
  candidates_of-IsOf P [] right h k = tt
  candidates_of-IsOf P (a ∷ left) right h k =
      append-All (IsOf P) _ _ (row-IsOf P a right h.0 k) (candidates_of-IsOf P left right h.1 k)

  -- A generation that succeeds with a result has two groups of the people.
  record IsGenerated (people : List Participant) (res : EngineResult) : Type 0 where
    k : String
    l : String
    answer : List (Option ℕ)
    candidates :
        res.candidates
        ≡ candidates_of to_lower r
            (filter (λ p. p.group == k) people)
            (filter (λ p. p.group == l) people)
    pairings :
        res.pairings
        ≡ sort_by pairing_key (
            pairs
              (filter (λ p. p.group == k) people)
              (filter (λ p. p.group == l) people)
              (edges_of r
                (candidates_of to_lower r
                  (filter (λ p. p.group == k) people)
                  (filter (λ p. p.group == l) people))
                [])
              answer)

  optimize-eq-some :
      (left right : List Participant) (edges : List (String × Candidate)) (ps : List Pairing)
      → optimize left right edges ≡ some ps
      → (answer : List (Option ℕ)) × (ps ≡ sort_by pairing_key (pairs left right edges answer))
  unfolding optimize
  optimize-eq-some left right edges ps h =
      elim (Option-cases (hungarian_max (weights left right edges))) [
        | inl short ↦ absurd (ground (arith, h, short))
        | inr (answer, found) ↦ (answer, ground (arith, h, found))
      ]

  generate_groups-eq-ok :
      (people : List Participant) (keys : List String) (res : EngineResult)
      → generate_groups to_lower r people keys ≡ ok (some res)
      → IsGenerated people res
  unfolding generate_groups
  generate_groups-eq-ok people [] res h = absurd (cc)
  generate_groups-eq-ok people (k ∷ []) res h = absurd (cc)
  generate_groups-eq-ok people (k ∷ l ∷ m ∷ keys) res h = absurd (cc)
  generate_groups-eq-ok people (k ∷ l ∷ []) res h =
      let left = filter (λ p. p.group == k) people in
      let right = filter (λ p. p.group == l) people in
      let candidates = candidates_of to_lower r left right in
      elim (Option-cases (optimize left right (edges_of r candidates []))) [
        | inl short ↦ absurd (ground (arith, h, short))
        | inr (ps, found) ↦
            let (answer, sorted) =
              optimize-eq-some left right (edges_of r candidates []) ps found in
            let is : result_of to_lower r people candidates ps ≡ res = ground (arith, h, found) in
            record {
              k = k;
              l = l;
              answer = answer;
              candidates = sym (ap (λ x. x.candidates) is);
              pairings = sym (ap (λ x. x.pairings) is) ∙ sorted;
            }
      ]

  generate-IsGenerated :
      (ps : List Participant) (res : EngineResult)
      → generate to_lower r ps ≡ ok (some res)
      → IsGenerated (sort_by (λ p. p.account_id) ps) res
  unfolding generate
  generate-IsGenerated ps res h =
      let (_, _, valid) = bind-eq-ok (validate_ruleset r) _ (some res) h in
      let (_, _, done) = bind-eq-ok (validate_participants ps) _ (some res) valid in
      generate_groups-eq-ok _ _ res done

  -- What holds of the people holds, by their evaluation, of the candidates, and what holds of the
  -- candidates and of the account ids of what the pairings are made of.
  module _ (ps : List Participant) (res : EngineResult) (P : Participant → Type 0) (all : All P ps)
      (h : generate to_lower r ps ≡ ok (some res)) where
    group-All : (k : String) → All P (filter (λ p. p.group == k) (sort_by (λ p. p.account_id) ps))
    group-All k = All-filter P (λ p. p.group == k) _ (sort_by-All P (λ p. p.account_id) ps all)

    pub generate-IsOf : All (IsOf P) res.candidates
    generate-IsOf =
        let g = generate-IsGenerated ps res h in
        subst (All (IsOf P)) (sym g.candidates)
          (candidates_of-IsOf P _ _ (group-All g.k) (group-All g.l))

    pub generate-AreKeyed :
        (Q : Candidate → Type 0) (N : String → Type 0)
        → ((p : Participant) → P p → N p.account_id)
        → All Q res.candidates
        → All (IsKeyed r Q N) res.pairings
    generate-AreKeyed Q N named hold =
        let g = generate-IsGenerated ps res h in
        subst (All (IsKeyed r Q N)) (sym g.pairings) (
          sort_by-All (IsKeyed r Q N) pairing_key _ (
            pairs-AreKeyed r Q N _ _ _ g.answer (subst (All Q) g.candidates hold)
              (All-map _ (λ p. named p) (group-All g.k))
              (All-map _ (λ p. named p) (group-All g.l))))

  candidate-ids :
      (a b : Participant) (codes : List String)
      → ((candidate to_lower a b r codes).participant_a ≡ a.account_id)
        × ((candidate to_lower a b r codes).participant_b ≡ b.account_id)
  unfolding candidate
  candidate-ids a b [] = (refl, refl)
  candidate-ids a b (code ∷ codes) = (refl, refl)

  pub evaluate-ids :
      (a b : Participant)
      → ((evaluate to_lower a b r).participant_a ≡ a.account_id)
        × ((evaluate to_lower a b r).participant_b ≡ b.account_id)
  unfolding evaluate
  evaluate-ids a b = candidate-ids a b (hard_rules a b r)
