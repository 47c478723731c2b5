-- ===== src/Matchmaking/Engine/Pairs/Edges.antt =====
-- The candidates behind the pairs that an assignment gives (engine.go: Generate, optimize).
use mathlib.Core.Path.{subst}
use match_mate_dating_web.Base.{
  ℕ, zero, suc, ◌≡◌, refl, true, Option, none, some, List, [], ◌∷◌, ◌++◌, String, arith, ◌==◌,
  string_eq, eq_iff, All, Bool-cases, inl, inr,
}
use match_mate_dating_web.Base.Maps.{lookup, insert}
use match_mate_dating_web.Matchmaking.Domain.{Participant, Ruleset, Candidate, Pairing}
use match_mate_dating_web.Matchmaking.Engine.Pairs.{
  EdgeMap, is_edge, edges_of, pair_key, pair_of, pair_at, pair_edge, pairs, nth,
}

-- What holds of candidates (`Q`) and of account ids (`N`), up to a pairing.
module _ (r : Ruleset) (Q : Candidate → Type 0) (N : String → Type 0) where
  pub record IsEdge (k : String) (c : Candidate) : Type 0 where
    pub edge : is_edge r c ≡ true
    pub holds : Q c
    pub key : k ≡ pair_key c.participant_a c.participant_b

  -- A pairing whose key is that of a candidate that may be paired.
  pub record IsKeyed (q : Pairing) : Type 0 where
    pub candidate : Candidate
    pub found : IsEdge (pair_key q.participant_a q.participant_b) candidate
    pub ids : N q.participant_a × N q.participant_b
    pub score : q.score ≡ candidate.total_score
    pub reasons : q.safe_reasons ≡ candidate.safe_reasons

  abbrev AreEdges : EdgeMap → Type 0
  AreEdges = All (λ e. IsEdge e.0 e.1)

  abbrev AreNamed : List Participant → Type 0
  AreNamed = All (λ p. N p.account_id)

  insert-AreEdges :
      (k : String) (c : Candidate) (m : EdgeMap) → IsEdge k c → AreEdges m → AreEdges (insert k c m)
  insert-AreEdges k c [] h all = (h, tt)
  insert-AreEdges k c ((j, w) ∷ m) h all = elim (Bool-cases (j == k)) [
    | inl same ↦ rw same (h, all.1)
    | inr other ↦ rw other (all.0, insert-AreEdges k c m h all.1)
  ]

  edges_of-AreEdges :
      (cs : List Candidate) (m : EdgeMap) → All Q cs → AreEdges m → AreEdges (edges_of r cs m)
  edges_of-AreEdges [] m hold all = all
  edges_of-AreEdges (c ∷ cs) m hold all = elim (Bool-cases (is_edge r c)) [
    | inl edge ↦
        edges_of-AreEdges cs _ hold.1
          (rw edge (insert-AreEdges _ c m (record { edge = edge; holds = hold.0; key = refl }) all))
    | inr refused ↦ edges_of-AreEdges cs _ hold.1 (rw refused all)
  ]

  lookup-IsEdge :
      (k : String) (m : EdgeMap) (c : Candidate) → AreEdges m → lookup k m ≡ some c → IsEdge k c
  lookup-IsEdge k [] c all h = absurd (cc)
  lookup-IsEdge k ((j, w) ∷ m) c all h = elim (Bool-cases (j == k)) [
    | inl same ↦
        let is : w ≡ c = ground (arith, h, same) in
        subst (IsEdge k) is (subst (λ i. IsEdge i w) ((eq_iff j k).0 same) all.0)
    | inr other ↦ lookup-IsEdge k m c all.1 (ground (arith, h, other))
  ]

  append-AreKeyed :
      (xs ys : List Pairing) → All IsKeyed xs → All IsKeyed ys → All IsKeyed (xs ++ ys)
  append-AreKeyed [] ys h k = k
  append-AreKeyed (x ∷ xs) ys h k = (h.0, append-AreKeyed xs ys h.1 k)

  pair_edge-AreKeyed :
      (a b : Participant) (edges : EdgeMap) (o : Option Candidate)
      → AreEdges edges
      → N a.account_id × N b.account_id
      → lookup (pair_key a.account_id b.account_id) edges ≡ o
      → All IsKeyed (pair_edge a b o)
  pair_edge-AreKeyed a b edges none all named h = tt
  pair_edge-AreKeyed a b edges (some c) all named h = (
    record {
      candidate = c;
      found = lookup-IsEdge _ edges c all h;
      ids = named;
      score = refl;
      reasons = refl;
    },
    tt,
  )

  nth-AreKeyed :
      (edges : EdgeMap) (a : Participant) (right : List Participant) (j : ℕ)
      → AreEdges edges
      → N a.account_id
      → AreNamed right
      → All IsKeyed (pair_at edges a (nth j right))
  nth-AreKeyed edges a [] j all named names = tt
  nth-AreKeyed edges a (b ∷ right) zero all named names =
      pair_edge-AreKeyed a b edges _ all (named, names.0) refl
  nth-AreKeyed edges a (b ∷ right) (suc j) all named names =
      nth-AreKeyed edges a right j all named names.1

  pair_of-AreKeyed :
      (right : List Participant) (edges : EdgeMap) (a : Participant) (j : Option ℕ)
      → AreEdges edges
      → N a.account_id
      → AreNamed right
      → All IsKeyed (pair_of right edges a j)
  unfolding pair_of
  pair_of-AreKeyed right edges a none all named names = tt
  pair_of-AreKeyed right edges a (some j) all named names =
      nth-AreKeyed edges a right j all named names

  pairs_of-AreKeyed :
      (left right : List Participant) (edges : EdgeMap) (answer : List (Option ℕ))
      → AreEdges edges
      → AreNamed left
      → AreNamed right
      → All IsKeyed (pairs left right edges answer)
  unfolding pairs
  pairs_of-AreKeyed left right edges [] all lefts rights = tt
  pairs_of-AreKeyed [] right edges (j ∷ answer) all lefts rights = tt
  pairs_of-AreKeyed (a ∷ left) right edges (j ∷ answer) all lefts rights =
      append-AreKeyed _ _ (pair_of-AreKeyed right edges a j all lefts.0 rights)
        (pairs_of-AreKeyed left right edges answer all lefts.1 rights)

  -- Whatever assignment the optimizer gives, the pairings that are made from it are keyed.
  pub pairs-AreKeyed :
      (candidates : List Candidate) (left right : List Participant) (answer : List (Option ℕ))
      → All Q candidates
      → AreNamed left
      → AreNamed right
      → All IsKeyed (pairs left right (edges_of r candidates []) answer)
  pairs-AreKeyed candidates left right answer hold =
      pairs_of-AreKeyed left right (edges_of r candidates []) answer
        (edges_of-AreEdges candidates [] hold tt)
