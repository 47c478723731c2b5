-- ===== src/Notification/Store/Effects.antt =====
-- The successful runs of the transactions, each with what it has read and written.
use match_mate_dating_web.Base.{
  ℕ, ◌+◌, ◌≡◌, Bool, true, false, Option, none, some, List, [], ◌∷◌, ◌++◌, String, arith, string_eq,
  nat_eq, any, inl, inr, ◌⊎◌, Bool-cases, Option-cases,
}
use match_mate_dating_web.Base.Tables.{find, update_row}
use match_mate_dating_web.Base.Result.{ok, Result-cases}
use match_mate_dating_web.Notification.Domain.{
  Action, DeliveryState, EventEnvelope, Plan, Template, Delivery,
}
use match_mate_dating_web.Notification.Store.{
  Row, Db, has_id, has_business_key, is_processing, is_pending,
}
use match_mate_dating_web.Notification.Store.Events.{
  has_event, pick_template, first_state, new_row, insert_row, suppressed_by, delivered_by, deliver,
  perform, apply_event, with_inbox,
}
use match_mate_dating_web.Notification.Store.Attempts.{
  AttemptResult, first_due, delivery_of, claimed, claim_row, claim_due, complete_attempt, completed,
  is_attempt, next_state,
}

pub insert_row-eq-ok :
    (r : Row) (rows after : List Row)
    → insert_row r rows ≡ ok after
    → (after ≡ rows)
      ⊎ ((any (has_business_key r.business_key) rows ≡ false)
          × (any (has_id r.id) rows ≡ false)
          × (after ≡ rows ++ r ∷ []))
unfolding insert_row
insert_row-eq-ok r rows after h = elim (Bool-cases (any (has_business_key r.business_key) rows)) [
  | inl known ↦ inl (ground (arith, h, known))
  | inr new ↦ inr (new, ground (arith, h, new), ground (arith, h, new))
]

module _ (fault : ℕ → Bool) (ids : ℕ → String) (e : EventEnvelope) (plan : Plan) (now max : ℕ)
    (db : Db) (r : Bool × Db) where
  -- An event that is new and is delivered has a template, and a row unless its key is taken.
  pub deliver-eq-ok :
      deliver fault ids e plan now max db ≡ ok r
      → let state = first_state plan now db in
        (t : Template) × (rows : List Row) × (insert_row
            (new_row (ids 0) e plan t state now max)
            db.deliveries
          ≡ ok rows)
        × (r ≡ (is_pending state, delivered_by plan state rows db))
  unfolding deliver
  deliver-eq-ok h = elim (Option-cases (pick_template plan db.templates)) [
    | inl missing ↦ absurd (ground (arith, h, missing))
    | inr (t, found) ↦
        elim (Result-cases
          (insert_row (new_row (ids 0) e plan t (first_state plan now db) now max) db.deliveries)) [
            | inl (refused, stops) ↦ absurd (ground (arith, h, found, stops))
            | inr (rows, goes) ↦ (t, rows, goes, ground (arith, h, found, goes))
          ]
  ]

  pub apply_event-eq-ok :
      apply_event fault ids e plan now max db ≡ ok r
      → ((any (has_event e.event_id) db.inbox ≡ true) × (r ≡ (false, db)))
        ⊎ ((any (has_event e.event_id) db.inbox ≡ false)
            × (perform fault ids plan.action e plan now max (with_inbox e now db) ≡ ok r))
  unfolding apply_event
  apply_event-eq-ok h = elim (Bool-cases (any (has_event e.event_id) db.inbox)) [
    | inl known ↦ inl (known, ground (arith, h, known))
    | inr new ↦ inr (new, ground (arith, h, new))
  ]

  pub ignore-eq-ok : perform fault ids Action.ignore e plan now max db ≡ ok r → r ≡ (false, db)
  unfolding perform
  ignore-eq-ok h = ground (arith, h)

  pub suppress-eq-ok :
      perform fault ids Action.suppress e plan now max db ≡ ok r
      → r ≡ (false, suppressed_by plan now db)
  unfolding perform
  suppress-eq-ok h = ground (arith, h)

module _ (fault : ℕ → Bool) (now lease : ℕ) (db : Db) (r : Option Delivery × Db) where
  pub claim_due-eq-ok :
      claim_due fault now lease db ≡ ok r
      → ((first_due now db.templates db.deliveries ≡ none) × (r ≡ (none, db)))
        ⊎ ((rt : Row × Template) × (first_due now db.templates db.deliveries ≡ some rt)
            × (r ≡ (
              some (claimed now (delivery_of rt.0 rt.1)),
              record db {
                deliveries =
                    update_row
                      (has_id rt.0.id)
                      (claim_row (rt.0.attempt_count + 1) now lease)
                      db.deliveries;
              },
            )))
  unfolding claim_due
  claim_due-eq-ok h = elim (Option-cases (first_due now db.templates db.deliveries)) [
    | inl nothing ↦ inl (nothing, ground (arith, h, nothing))
    | inr (rt, due) ↦ inr (rt, due, ground (arith, h, due))
  ]

module _ (fault : ℕ → Bool) (d : Delivery) (res : AttemptResult) (db : Db)
    (r : DeliveryState × Db) where
  pub complete_attempt-eq-ok :
      complete_attempt fault d res db ≡ ok r
      → (row : Row) × (find (has_id d.id) db.deliveries ≡ some row)
        × (is_processing row.state ≡ true)
        × (row.attempt_count ≡ d.attempt_count)
        × (any (is_attempt d.id row.attempt_count) db.attempts ≡ false)
        × (r ≡ (
          next_state res row.attempt_count row.max_attempts,
          completed d.id row.attempt_count row.max_attempts res db,
        ))
  unfolding complete_attempt
  complete_attempt-eq-ok h = elim (Option-cases (find (has_id d.id) db.deliveries)) [
    | inl missing ↦ absurd (ground (arith, h, missing))
    | inr (row, found) ↦ (
      row,
      found,
      ground (arith, h, found),
      ground (arith, h, found),
      ground (arith, h, found),
      ground (arith, h, found),
    )
  ]
