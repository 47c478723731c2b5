-- ===== src/Notification/Store/Valid.antt =====
-- The invariant of the notification tables, and that the writes keep it.
use mathlib.Core.Path.{subst}
use match_mate_dating_web.Base.{
  ℕ, ◌≡◌, Bool, true, false, Option, none, some, List, [], ◌∷◌, ◌++◌, arith, ltb, leb, string_eq,
  nat_eq, if◌then◌else◌, inl, inr, ◌⊎◌, All, Bool-cases, Option-cases, map,
}
use match_mate_dating_web.Base.Tables.{find, update_row, find-append}
use match_mate_dating_web.Base.Keys.{HasUniqueKeys, HasUniqueKeys-find}
use match_mate_dating_web.Base.Evolution.{find-update_row-either, find-map}
use match_mate_dating_web.Notification.Domain.{Template}
use match_mate_dating_web.Notification.Store.{
  Row, Attempt, StoredTemplate, Db, has_id, is_processing,
}
use match_mate_dating_web.Notification.Store.Attempts.{
  is_due, first_due, comes_first, has_template_id,
}

-- Whether the attempt is one of its delivery's: not later than the count, and before it while
-- another attempt is on.
abbrev pub fits : Attempt → Row → Bool
fits a r =
    if is_processing r.state
    then ltb a.attempt_number r.attempt_count
    else leb a.attempt_number r.attempt_count

abbrev pub fits_found : Attempt → Option Row → Bool
fits_found a none = false
fits_found a (some r) = fits a r

abbrev pub is_numbered : List Row → Attempt → Bool
is_numbered rows a = fits_found a (find (has_id a.delivery_id) rows)

pub record IsValid (db : Db) : Type 0 where
  pub unique_ids : HasUniqueKeys (λ r. r.id) db.deliveries
  pub unique_keys : HasUniqueKeys (λ r. r.business_key) db.deliveries
  pub unique_feed : HasUniqueKeys (λ f. f.delivery_id) db.feed
  pub numbered : All (λ a. is_numbered db.deliveries a ≡ true) db.attempts

first_due-either :
    (now : ℕ) (ts : List StoredTemplate) (r : Row) (rs : List Row) (rt : Row × Template)
    → first_due now ts (r ∷ rs) ≡ some rt
    → ((r ≡ rt.0) × (is_due now r ≡ true)) ⊎ (first_due now ts rs ≡ some rt)
unfolding first_due
first_due-either now ts r rs rt h = elim (Bool-cases (is_due now r)) [
  | inl due ↦ elim (Option-cases (find (has_template_id r.template_id) ts)) [
    | inl missing ↦ inr (ground (arith, h, due, missing))
    | inr (s, found) ↦ elim (Option-cases (first_due now ts rs)) [
      | inl last ↦ inl (ground (arith, h, due, found, last), due)
      | inr (other, more) ↦ elim (Bool-cases (comes_first r other.0)) [
        | inl first ↦ inl (ground (arith, h, due, found, more, first), due)
        | inr later ↦ inr (ground (arith, h, due, found, more, later))
      ]
    ]
  ]
  | inr waits ↦ inr (ground (arith, h, waits))
]

pub All-first_due :
    (P : Row → Type 0) (now : ℕ) (ts : List StoredTemplate) (rows : List Row) (rt : Row × Template)
    → All P rows
    → first_due now ts rows ≡ some rt
    → P rt.0 × (is_due now rt.0 ≡ true)
unfolding first_due
All-first_due P now ts [] rt all h = absurd (cc)
All-first_due P now ts (r ∷ rs) rt all h = elim (first_due-either now ts r rs rt h) [
  | inl (same, due) ↦ (subst P same all.0, subst (λ x. is_due now x ≡ true) same due)
  | inr later ↦ All-first_due P now ts rs rt all.1 later
]

-- The due row is the one that its id finds.
pub first_due-found :
    (now : ℕ) (db : Db) (rt : Row × Template)
    → IsValid db
    → first_due now db.templates db.deliveries ≡ some rt
    → (find (has_id rt.0.id) db.deliveries ≡ some rt.0) × (is_due now rt.0 ≡ true)
first_due-found now db rt valid h =
    All-first_due (λ r. find (has_id r.id) db.deliveries ≡ some r) now db.templates db.deliveries rt
      (HasUniqueKeys-find (λ r. r.id) db.deliveries valid.unique_ids) h

pub is_numbered-update_row :
    (p : Row → Bool) (f : Row → Row) (rows : List Row) (a : Attempt)
    → ((r : Row) → (f r).id ≡ r.id)
    → ((r : Row) → find p rows ≡ some r → fits a r ≡ true → fits a (f r) ≡ true)
    → is_numbered rows a ≡ true
    → is_numbered (update_row p f rows) a ≡ true
is_numbered-update_row p f rows a keep step h =
    elim (Option-cases (find (has_id a.delivery_id) rows)) [
      | inl missing ↦ absurd (ground (arith, h, missing))
      | inr (r, found) ↦
          let fit : fits a r ≡ true = ground (arith, h, found) in
          elim (find-update_row-either p (has_id a.delivery_id) f rows r (λ x. rw (keep x)) found) [
            | inl same ↦ rw same fit
            | inr (at, new) ↦ rw new (step r at fit)
          ]
    ]

pub is_numbered-append :
    (rows : List Row) (r : Row) (a : Attempt)
    → is_numbered rows a ≡ true
    → is_numbered (rows ++ r ∷ []) a ≡ true
is_numbered-append rows r a h = elim (Option-cases (find (has_id a.delivery_id) rows)) [
  | inl missing ↦ absurd (ground (arith, h, missing))
  | inr (x, found) ↦
      rw (find-append (has_id a.delivery_id) rows r, found) (ground (arith, h, found))
]

pub is_numbered-map :
    (f : Row → Row) (rows : List Row) (a : Attempt)
    → ((r : Row) → (f r).id ≡ r.id)
    → ((r : Row) → fits a r ≡ true → fits a (f r) ≡ true)
    → is_numbered rows a ≡ true
    → is_numbered (map f rows) a ≡ true
is_numbered-map f rows a keep step h = elim (Option-cases (find (has_id a.delivery_id) rows)) [
  | inl missing ↦ absurd (ground (arith, h, missing))
  | inr (r, found) ↦
      rw (find-map (has_id a.delivery_id) f rows r (λ x. rw (keep x)) found)
        (step r (ground (arith, h, found)))
]
