-- ===== src/Event/Store/Lifecycle.antt =====
-- The life of an event: the statuses it goes through, and what is fixed once it is no draft.
use mathlib.Core.Path.{subst, ◌∙◌}
use match_mate_dating_web.Base.{
  ◌≡◌, refl, sym, ap, Bool, true, false, some, List, [], ◌∷◌, ◌++◌, String, arith, eq_iff, ◌==◌,
  string_eq, nat_eq, inl, inr, ◌⊎◌, Bool-cases,
}
use match_mate_dating_web.Base.Tables.{
  find, find_passes, update_row, find-append, find-update_row_other, All-found,
}
use match_mate_dating_web.Base.Keys.{HasUniqueKeys, HasUniqueKeys-find}
use match_mate_dating_web.Event.Domain.{Status, Event, can_transition}
use match_mate_dating_web.Event.Store.{has_id, is_draft}

infix 40 ◌⟶*◌
pub data ◌⟶*◌ : Status → Status → Type 0 where
  here : {s : Status} → s ⟶* s
  then_step : {s t u : Status} → can_transition s t ≡ true → t ⟶* u → s ⟶* u

⟶*_trans : {s t u : Status} → s ⟶* t → t ⟶* u → s ⟶* u
⟶*_trans here k = k
⟶*_trans (then_step e h) k = then_step e (⟶*_trans h k)

no_way_back : (s t : Status) → can_transition s t ≡ true → is_draft t ≡ false
unfolding can_transition
no_way_back s t h = ground arith

⟶*-not_draft : {s t : Status} → s ⟶* t → is_draft s ≡ false → is_draft t ≡ false
⟶*-not_draft here k = k
⟶*-not_draft (then_step {s} {t} e h) k = ⟶*-not_draft h (no_way_back s t e)

-- All of an event but its status, its version and the time of its last change.
abbrev pub terms : Event → Event
terms e = record e { status = Status.draft; version = 0; updated_at = 0 }

-- The event keeps its id, moves along the transitions, and keeps its terms unless it is a draft.
pub record Follows (e e' : Event) : Type 0 where
  pub same_id : e'.id ≡ e.id
  pub path : e.status ⟶* e'.status
  pub frozen : (is_draft e.status ≡ true) ⊎ (terms e ≡ terms e')

abbrev pub Evolves : List Event → List Event → Type 0
Evolves old new =
    (id : String) (e : Event)
    → find (has_id id) old ≡ some e
    → (e' : Event) × (find (has_id id) new ≡ some e') × Follows e e'

Follows-refl : (e : Event) → Follows e e
Follows-refl e = record { same_id = refl; path = here; frozen = inr refl }

frozen_trans :
    (a b c : Event) → Follows a b → Follows b c → (is_draft a.status ≡ true) ⊎ (terms a ≡ terms c)
frozen_trans a b c h k = elim (Bool-cases (is_draft a.status)) [
  | inl draft ↦ inl draft
  | inr fixed ↦ elim (h.frozen) [
    | inl draft ↦ inl draft
    | inr ab ↦ elim (k.frozen) [
      | inl draft ↦ absurd (ground (arith, draft, ⟶*-not_draft h.path fixed))
      | inr bc ↦ inr (ab ∙ bc)
    ]
  ]
]

Follows-trans : (a b c : Event) → Follows a b → Follows b c → Follows a c
Follows-trans a b c h k = record {
  same_id = k.same_id ∙ h.same_id;
  path = ⟶*_trans h.path k.path;
  frozen = frozen_trans a b c h k;
}

pub Evolves-refl : (rows : List Event) → Evolves rows rows
Evolves-refl rows id e found = (e, found, Follows-refl e)

pub Evolves-trans : (a b c : List Event) → Evolves a b → Evolves b c → Evolves a c
Evolves-trans a b c h k id x found =
    let (y, found_y, xy) = h id x found in
    let (z, found_z, yz) = k id y found_y in (z, found_z, Follows-trans x y z xy yz)

pub append-Evolves : (rows : List Event) (e : Event) → Evolves rows (rows ++ e ∷ [])
append-Evolves rows e id x found =
    (x, ground (arith, find-append (has_id id) rows e), Follows-refl x)

-- Under distinct ids a row that a narrower test finds is the one that its id finds.
pub found_by_id :
    (p : Event → Bool) (rows : List Event) (old : Event)
    → HasUniqueKeys (λ e. e.id) rows
    → find p rows ≡ some old
    → find (has_id old.id) rows ≡ some old
found_by_id p rows old unique found =
    All-found (λ e. find (has_id e.id) rows ≡ some e) p rows old
      (HasUniqueKeys-find (λ e. e.id) rows unique) found

find-update_row_within :
    (p q : Event → Bool) (f : Event → Event) (rows : List Event) (old : Event)
    → ((a : Event) → q (f a) ≡ q a)
    → find p rows ≡ some old
    → find q rows ≡ some old
    → find q (update_row p f rows) ≡ some (f old)
find-update_row_within p q f [] old k h g = ground arith
find-update_row_within p q f (x ∷ rows) old k h g = ground (
  arith,
  k x,
  find_passes p rows old,
  find_passes q rows old,
  find-update_row_within p q f rows old k,
)

-- An update of one row is a step of the tables.
pub update_row-Evolves :
    (p : Event → Bool) (f : Event → Event) (rows : List Event) (old : Event)
    → HasUniqueKeys (λ e. e.id) rows
    → find p rows ≡ some old
    → ((a : Event) → p a ≡ true → a.id ≡ old.id)
    → ((a : Event) → (f a).id ≡ a.id)
    → Follows old (f old)
    → Evolves rows (update_row p f rows)
update_row-Evolves p f rows old unique found one keep follows id x at =
    elim (Bool-cases (old.id == id)) [
      | inl same ↦
          let e : old.id ≡ id = (eq_iff old.id id).0 same in
          let at_old : find (has_id old.id) rows ≡ some x =
            subst (λ k. find (has_id k) rows ≡ some x) (sym e) at in
          let by_id : find (has_id old.id) rows ≡ some old = found_by_id p rows old unique found in
          let old_is_x : old ≡ x = cc in
          (
            f old,
            subst (λ k. find (has_id k) (update_row p f rows) ≡ some (f old)) e
                (find-update_row_within p (has_id old.id) f rows old
                  (λ a. ap (λ k. k == old.id) (keep a)) found by_id),
            subst (λ y. Follows y (f old)) old_is_x follows,
          )
      | inr other ↦ (
        x,
        find-update_row_other p (has_id id) f rows (λ a h.
              ground (arith, one a h, keep a, eq_iff a.id id, eq_iff (f a).id id, eq_iff old.id id))
            ∙ at,
        Follows-refl x,
      )
    ]
