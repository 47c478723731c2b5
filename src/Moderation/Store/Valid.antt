-- ===== src/Moderation/Store/Valid.antt =====
-- The invariant of the moderation tables: the ids of appeals are distinct, and of equivalent actions
-- at most one is active.
use match_mate_dating_web.Base.{
  ℕ, ◌<◌, ◌≡◌, refl, Bool, true, false, not, ◌&&◌, ◌||◌, List, [], ◌∷◌, ◌++◌, arith, string_eq,
  nat_eq, eq_iff, any, any-append, inl, inr, Bool-cases, ltb, All,
}
use match_mate_dating_web.Base.Tables.{update_row}
use match_mate_dating_web.Base.Keys.{HasUniqueKeys}
use match_mate_dating_web.Moderation.Store.{Action, Db, is_active}
use match_mate_dating_web.Moderation.Store.Actions.{is_equivalent, collides, last_version}

-- No active action of the list has an equivalent active one behind it.
abbrev pub HasOneActive : List Action → Type 0
HasOneActive [] = Unit
HasOneActive (a ∷ rows) = ((is_active a.state && any (collides a) rows) ≡ false) × HasOneActive rows

pub record IsValid (db : Db) : Type 0 where
  pub unique_appeals : HasUniqueKeys (λ a. a.id) db.appeals
  pub one_active : HasOneActive db.actions

is_equivalent_sym : (a b : Action) → is_equivalent a b ≡ is_equivalent b a
is_equivalent_sym a b = ground (
  arith,
  eq_iff a.target_type b.target_type,
  eq_iff b.target_type a.target_type,
  eq_iff a.target_id b.target_id,
  eq_iff b.target_id a.target_id,
  eq_iff a.class b.class,
  eq_iff b.class a.class,
  eq_iff a.scope b.scope,
  eq_iff b.scope a.scope,
)

pub HasOneActive-append :
    (rows : List Action) (a : Action)
    → HasOneActive rows
    → any (collides a) rows ≡ false
    → HasOneActive (rows ++ a ∷ [])
HasOneActive-append [] a h k = (ground (arith), tt)
HasOneActive-append (b ∷ rows) a h k = (
  ground (arith, h.0, k, is_equivalent_sym a b, any-append (collides b) rows (a ∷ [])),
  HasOneActive-append rows a h.1 (ground (arith, k)),
)

-- The keys of an action stay, and it is not active after the change.
abbrev pub Ends : (Action → Action) → Type 0
Ends f = (a : Action) → ((b : Action) → collides b (f a) ≡ false) × (is_active (f a).state ≡ false)

any-collides-update_row :
    (p : Action → Bool) (f : Action → Action) (rows : List Action) (a : Action)
    → Ends f
    → any (collides a) rows ≡ false
    → any (collides a) (update_row p f rows) ≡ false
any-collides-update_row p f [] a e h = refl
any-collides-update_row p f (b ∷ rows) a e h =
    ground (arith, h, (e b).0 a, any-collides-update_row p f rows a e)

pub HasOneActive-update_row :
    (p : Action → Bool) (f : Action → Action) (rows : List Action)
    → Ends f
    → HasOneActive rows
    → HasOneActive (update_row p f rows)
HasOneActive-update_row p f [] e h = tt
HasOneActive-update_row p f (a ∷ rows) e h = elim (Bool-cases (p a)) [
  | inl t ↦ rw t (ground (arith, (e a).1), h.1)
  | inr o ↦ rw o (
    ground (arith, h.0, any-collides-update_row p f rows a e),
    HasOneActive-update_row p f rows e h.1,
  )
]

-- Any number above the last version is above the version of every equivalent action.
pub last_version-All :
    (a : Action) (rows : List Action) (n : ℕ)
    → last_version a rows < n
    → All (λ b. (not (is_equivalent a b) || ltb b.version n) ≡ true) rows
last_version-All a [] n h = tt
last_version-All a (b ∷ rows) n h =
    (ground (arith, h), last_version-All a rows n (ground (arith, h)))
