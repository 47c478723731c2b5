-- ===== src/Matchmaking/Engine/Assignment.antt =====
-- hungarianMax of engine.go. The arrays have `n + 1` items and every index is in range; `item` gives
-- its default nowhere else. The search loop marks a new column in each round and the loop that
-- follows `way` goes back through columns that were marked, so each has `n + 1` rounds of fuel;
-- `none` says that the fuel was not enough. The weights are below 2^31, so that no `int64`
-- overflows.
use match_mate_dating_web.Base.{
  ℕ, zero, suc, ◌+◌, ◌-◌, Bool, true, false, Option, none, some, List, [], ◌∷◌, ◌==◌, nat_eq, ltb,
  if◌then◌else◌, length,
}
use match_mate_dating_web.Base.Integers.{ℤ, pos, ◌+ℤ◌, ◌-ℤ◌, less}

module _ {A : Type 0} where
  abbrev pub item : A → ℕ → List A → A
  item d i [] = d
  item d zero (x ∷ xs) = x
  item d (suc i) (x ∷ xs) = item d i xs

  abbrev pub set_item : ℕ → A → List A → List A
  set_item i a [] = []
  set_item zero a (x ∷ xs) = a ∷ xs
  set_item (suc i) a (x ∷ xs) = x ∷ set_item i a xs

  abbrev pub repeated : ℕ → A → List A
  repeated zero a = []
  repeated (suc n) a = a ∷ repeated n a

-- `math.MaxInt64`
abbrev pub max_int64 : ℤ
max_int64 = pos 9223372036854775807

abbrev pub int_at : ℕ → List ℤ → ℤ
int_at = item (pos 0)

abbrev pub nat_at : ℕ → List ℕ → ℕ
nat_at = item 0

abbrev pub max_of : ℕ → List ℕ → ℕ
max_of m [] = m
max_of m (w ∷ ws) = max_of (if ltb m w then w else m) ws

-- The first two loops: the largest weight.
unfoldable pub max_weight : ℕ → List (List ℕ) → ℕ
max_weight m [] = m
max_weight m (row ∷ rows) = max_weight (max_of m row) rows

-- `u`, `v` and `p`.
pub record Potentials : Type 0 where
  pub u : List ℤ
  pub v : List ℤ
  pub p : List ℕ

-- `minv`, `way`, `delta` and `j1` in the scan of the columns.
pub record Scan : Type 0 where
  pub minv : List ℤ
  pub way : List ℕ
  pub delta : ℤ
  pub j1 : ℕ

abbrev pub closer : ℤ → ℕ → ℕ → Scan → Scan
closer cur j0 j s =
    if less cur (int_at j s.minv)
    then record s { minv = set_item j cur s.minv; way = set_item j j0 s.way }
    else s

abbrev pub nearest : ℕ → Scan → Scan
nearest j s =
    if less (int_at j s.minv) s.delta then record s { delta = int_at j s.minv; j1 = j } else s

module _ (max : ℕ) (weight : List (List ℕ)) where
  -- The loop over the columns from `j` on, `left` of them.
  unfoldable pub scan : Potentials → List Bool → ℕ → ℕ → ℕ → Scan → Scan
  scan q used j0 zero j s = s
  scan q used j0 (suc left) j s =
      let i0 = nat_at j0 q.p in
      let cur =
        (pos max -ℤ pos (nat_at (j - 1) (item [] (i0 - 1) weight)))
        -ℤ int_at i0 q.u
        -ℤ int_at j q.v in
      scan q used j0 left (j + 1) (if item false j used then s else nearest j (closer cur j0 j s))

  -- The loop that moves the potentials by `delta`, from column `j` on.
  unfoldable pub shift : List Bool → ℤ → ℕ → ℕ → Potentials → List ℤ → Potentials × List ℤ
  shift used delta zero j q minv = (q, minv)
  shift used delta (suc left) j q minv =
      let i = nat_at j q.p in
      let moved = record q {
        u = set_item i (int_at i q.u +ℤ delta) q.u;
        v = set_item j (int_at j q.v -ℤ delta) q.v;
      } in
      shift used delta left (j + 1) (if item false j used then moved else q)
        (if item false j used then minv else set_item j (int_at j minv -ℤ delta) minv)

  -- The search for a free column: the potentials, `way` and the column.
  unfoldable pub search :
      ℕ → ℕ → Potentials → List Bool → List ℤ → List ℕ → ℕ → Option (Potentials × List ℕ × ℕ)
  unfolding scan shift
  search n zero q used minv way j0 = none
  search n (suc fuel) q used minv way j0 =
      let marked = set_item j0 true used in
      let s = scan q marked j0 n 1 (record { minv = minv; way = way; delta = max_int64; j1 = 0 }) in
      let (q', minv') = shift marked s.delta (n + 1) 0 q s.minv in
      let rest = search n fuel q' marked minv' s.way s.j1 in
      if nat_at s.j1 q'.p == 0 then some (q', s.way, s.j1) else rest

  -- The loop that follows `way` back to column 0.
  unfoldable pub augment : ℕ → List ℕ → ℕ → List ℕ → Option (List ℕ)
  augment zero way j0 p = none
  augment (suc fuel) way j0 p =
      let j1 = nat_at j0 way in
      let p' = set_item j0 (nat_at j1 p) p in
      let rest = augment fuel way j1 p' in if j1 == 0 then some p' else rest

  abbrev pub with_path : ℕ → Option (Potentials × List ℕ × ℕ) → Option (Potentials × List ℕ)
  with_path n none = none
  with_path n (some (q, way, j0)) = elim (augment (n + 1) way j0 q.p) [
    | none ↦ none
    | some p ↦ some (record q { p = p }, way)
  ]

  -- The loop over the rows from `i` on, `left` of them; `way` is kept from row to row.
  unfoldable pub assign_rows : ℕ → ℕ → ℕ → Potentials × List ℕ → Option Potentials
  unfolding search augment
  assign_rows n zero i (q, way) = some q
  assign_rows n (suc left) i (q, way) =
      elim (with_path n (
        search n (n + 1) (record q { p = set_item 0 i q.p }) (repeated (n + 1) false)
          (pos 0 ∷ repeated n max_int64) way 0)) [
            | none ↦ none
            | some r ↦ assign_rows n left (i + 1) r
          ]

-- The last loop: `answer[p[j]-1] = j - 1`, over the columns from `j` on. `none` is -1.
unfoldable pub fill_answer : ℕ → List ℕ → List (Option ℕ) → List (Option ℕ)
fill_answer j [] answer = answer
fill_answer j (r ∷ rows) answer =
    fill_answer (j + 1) rows (if ltb 0 r then set_item (r - 1) (some (j - 1)) answer else answer)

abbrev pub rows_of_columns : List ℕ → List ℕ
rows_of_columns [] = []
rows_of_columns (r ∷ rows) = rows

unfoldable pub hungarian_max : List (List ℕ) → Option (List (Option ℕ))
unfolding assign_rows fill_answer max_weight
hungarian_max weight =
    let n = length weight in
    elim (assign_rows (max_weight 0 weight) weight n n 1 (
      record { u = repeated (n + 1) (pos 0); v = repeated (n + 1) (pos 0); p = repeated (n + 1) 0 },
      repeated (n + 1) 0,
    )) [ none ↦ none | some q ↦ some (fill_answer 1 (rows_of_columns q.p) (repeated n none)) ]
