-- ===== src/Moderation/Store/Effects.antt =====
-- The successful runs of the transactions, each with what it has read and written.
use match_mate_dating_web.Base.{
  ℕ, ◌+◌, ◌≡◌, Bool, true, false, ◌||◌, some, [], ◌∷◌, ◌++◌, String, arith, string_eq, nat_eq,
  eq_iff, any, inl, inr, ◌⊎◌, Bool-cases, Option-cases,
}
use match_mate_dating_web.Base.Tables.{find, update_row}
use match_mate_dating_web.Base.Result.{ok, Result-cases}
use match_mate_dating_web.Moderation.Domain.{Principal, ReportStatus, CreateReportInput}
use match_mate_dating_web.Moderation.Store.{
  Case, Report, Action, Appeal, Db, has_id, has_action_id, has_appeal_id, is_investigating,
  is_actioned,
}
use match_mate_dating_web.Moderation.Store.Cases.{
  create_report, new_case, severity_of, assign, is_assignable, assign_row, change_status, allowed,
  same_status, with_status,
}
use match_mate_dating_web.Moderation.Store.Actions.{
  create_action, new_action, last_version, collides, with_action, create_appeal, new_appeal,
  is_open_action, is_appeal_of, decide_appeal, is_pending_appeal, decide_row, decided_by,
  expire_actions, expire_each, due_actions,
}
use match_mate_dating_web.Base.Text.{trim_space}

pub create_report-eq-ok :
    (sha to_lower : String → String) (fault last : ℕ → Bool) (ids : ℕ → String) (p : Principal)
    (i : CreateReportInput) (correlation : String) (now : ℕ) (db : Db) (r : Report × Db)
    → create_report sha to_lower fault last ids p i correlation now db ≡ ok r
    → (r.1.cases ≡ db.cases ++ new_case (ids 0) (severity_of i.category) now ∷ [])
      × (r.1.actions ≡ db.actions)
      × (r.1.appeals ≡ db.appeals)
unfolding create_report
create_report-eq-ok sha to_lower fault last ids p i correlation now db r h =
    (ground (arith, h), ground (arith, h), ground (arith, h))

pub assign-eq-ok :
    (fault : ℕ → Bool) (id assignee : String) (p : Principal) (reason correlation : String)
    (now : ℕ) (db after : Db)
    → assign fault id assignee p reason correlation now db ≡ ok after
    → (after.cases ≡ update_row (is_assignable id) (assign_row assignee now) db.cases)
      × (after.actions ≡ db.actions)
      × (after.appeals ≡ db.appeals)
unfolding assign
assign-eq-ok fault id assignee p reason correlation now db after h =
    elim (Option-cases (find (is_assignable id) db.cases)) [
      | inl missing ↦ absurd (ground (arith, h, missing))
      | inr (c, found) ↦
          (ground (arith, h, found), ground (arith, h, found), ground (arith, h, found))
    ]

pub change_status-eq-ok :
    (fault : ℕ → Bool) (id : String) (next : ReportStatus) (p : Principal)
    (reason correlation : String) (now : ℕ) (db after : Db)
    → change_status fault id next p reason correlation now db ≡ ok after
    → (after ≡ db)
      ⊎ ((c : Case) × (find (has_id id) db.cases ≡ some c)
          × (allowed c.status next ≡ true)
          × (after ≡ with_status id next p reason correlation now db))
unfolding change_status
change_status-eq-ok fault id next p reason correlation now db after h =
    elim (Option-cases (find (has_id id) db.cases)) [
      | inl missing ↦ absurd (ground (arith, h, missing))
      | inr (c, found) ↦ elim (Bool-cases (same_status c.status next)) [
        | inl same ↦ inl (ground (arith, h, found, same))
        | inr other ↦
            inr (c, found, ground (arith, h, found, other), ground (arith, h, found, other))
      ]
    ]

pub create_action-eq-ok :
    (fault : ℕ → Bool) (ids : ℕ → String) (case : String) (given : Action) (p : Principal)
    (correlation : String) (now : ℕ) (db : Db) (r : Action × Db)
    → create_action fault ids case given p correlation now db ≡ ok r
    → let a = new_action ids case p (last_version given db.actions + 1) now given in
      (c : Case) × (find (has_id case) db.cases ≡ some c)
      × ((is_investigating c.status || is_actioned c.status) ≡ true)
      × (any (collides a) db.actions ≡ false)
      × (r ≡ (a, with_action a p correlation now db))
unfolding create_action
create_action-eq-ok fault ids case given p correlation now db r h =
    elim (Option-cases (find (has_id case) db.cases)) [
      | inl missing ↦ absurd (ground (arith, h, missing))
      | inr (c, found) ↦
          (c, found, ground (arith, h, found), ground (arith, h, found), ground (arith, h, found))
    ]

pub create_appeal-eq-ok :
    (fault : ℕ → Bool) (ids : ℕ → String) (action reason : String) (p : Principal)
    (correlation : String) (now : ℕ) (db : Db) (r : Appeal × Db)
    → create_appeal fault ids action reason p correlation now db ≡ ok r
    → (a : Action) × (find (is_open_action action) db.actions ≡ some a)
      × (a.target_id ≡ p.subject)
      × (any (has_appeal_id (ids 0)) db.appeals ≡ false)
      × (any (is_appeal_of action p.subject) db.appeals ≡ false)
      × (r.0 ≡ new_appeal ids action reason p now)
      × (r.1.cases ≡ db.cases)
      × (r.1.actions ≡ db.actions)
      × (r.1.appeals ≡ db.appeals ++ r.0 ∷ [])
unfolding create_appeal
create_appeal-eq-ok fault ids action reason p correlation now db r h =
    elim (Option-cases (find (is_open_action action) db.actions)) [
      | inl missing ↦ absurd (ground (arith, h, missing))
      | inr (a, found) ↦ (
        a,
        found,
        ground (arith, h, found, eq_iff a.target_id p.subject),
        ground (arith, h, found),
        ground (arith, h, found),
        ground (arith, h, found),
        ground (arith, h, found),
        ground (arith, h, found),
        ground (arith, h, found),
      )
    ]

pub decide_appeal-eq-ok :
    (fault : ℕ → Bool) (id : String) (reverses : Bool) (p : Principal) (reason correlation : String)
    (now : ℕ) (db : Db) (r : Appeal × Db)
    → decide_appeal fault id reverses p reason correlation now db ≡ ok r
    → (ap : Appeal) × (a : Action) × (find (is_pending_appeal id) db.appeals ≡ some ap)
      × (find (has_action_id ap.action_id) db.actions ≡ some a)
      × (r ≡ (
        decide_row reverses p.subject (trim_space reason) now ap,
        decided_by reverses ap a p (trim_space reason) correlation now db,
      ))
unfolding decide_appeal
decide_appeal-eq-ok fault id reverses p reason correlation now db r h =
    elim (Option-cases (find (is_pending_appeal id) db.appeals)) [
      | inl missing ↦ absurd (ground (arith, h, missing))
      | inr (ap, found) ↦ elim (Option-cases (find (has_action_id ap.action_id) db.actions)) [
        | inl missing ↦ absurd (ground (arith, h, found, missing))
        | inr (a, at) ↦ (ap, a, found, at, ground (arith, h, found, at))
      ]
    ]

pub expire_actions-eq-ok :
    (fault : ℕ → Bool) (now limit : ℕ) (db : Db) (r : ℕ × Db)
    → expire_actions fault now limit db ≡ ok r
    → expire_each (λ n. fault (n + 3)) now (due_actions now limit db.actions) db ≡ ok r.1
unfolding expire_actions
expire_actions-eq-ok fault now limit db r h =
    elim (Result-cases
      (expire_each (λ n. fault (n + 3)) now (due_actions now limit db.actions) db)) [
        | inl (e, stops) ↦ absurd (ground (arith, h, stops))
        | inr (after, goes) ↦ ground (arith, h, goes)
      ]
