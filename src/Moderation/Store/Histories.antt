-- ===== src/Moderation/Store/Histories.antt =====
-- What the transactions do to cases, actions and appeals.
pub mod Runs
use mathlib.Core.Path.{subst}
use match_mate_dating_web.Base.{
  ℕ, ◌+◌, ◌≡◌, refl, sym, ap, Bool, true, false, not, ◌&&◌, ◌||◌, Option, none, some, List, [], ◌∷◌,
  ◌++◌, String, arith, ◌==◌, string_eq, nat_eq, inl, inr, ◌⊎◌, eq_iff, Bool-cases, any, ltb,
  if◌then◌else◌, All, map,
}
use match_mate_dating_web.Base.Tables.{find, update_row, find_passes, find-none-any, All-found}
use match_mate_dating_web.Base.Keys.{
  HasUniqueKeys, HasUniqueKeys-append, HasUniqueKeys-update_row, HasUniqueKeys-find,
}
use match_mate_dating_web.Base.Evolution.{
  Evolves, Evolves-refl, Evolves-trans, Evolves-append, Evolves-update_row,
}
use match_mate_dating_web.Base.Result.{Result, ok, err, ok_inj}
use match_mate_dating_web.Moderation.Domain.{Principal, ReportStatus, ActionState}
use match_mate_dating_web.Moderation.Store.{
  Case, Report, Action, Appeal, Db, Error, has_id, has_action_id, has_appeal_id, is_investigating,
  is_actioned, is_active, is_appealed, then_read, empty,
}
use match_mate_dating_web.Moderation.Store.Cases.{
  create_report, new_case, severity_of, assign, is_assignable, assign_row, change_status, allowed,
  with_status, status_row, record_case_view, get_case, assign_case, update_case_status,
}
use match_mate_dating_web.Moderation.Store.Actions.{
  create_action, new_action, last_version, collides, with_action, create_appeal, new_appeal,
  is_pending_appeal, decide_appeal, decide_row, decided_by, reverse_row, expire_actions,
  expire_each, expired_by, expire_row, due_actions, is_equivalent,
}
use match_mate_dating_web.Moderation.Store.Effects.{
  create_report-eq-ok, assign-eq-ok, change_status-eq-ok, create_action-eq-ok, create_appeal-eq-ok,
  decide_appeal-eq-ok, expire_actions-eq-ok,
}
use match_mate_dating_web.Moderation.Store.Valid.{
  IsValid, HasOneActive, HasOneActive-append, HasOneActive-update_row, Ends,
}
use match_mate_dating_web.Moderation.Store.Lifecycle.{
  CaseFollows, CaseFollows-refl, CaseFollows-trans, assign_row-CaseFollows, status_row-CaseFollows,
  actioned_row-CaseFollows, ActionFollows, ActionFollows-refl, ActionFollows-trans,
  expire_row-ActionFollows, reverse_row-ActionFollows, AppealFollows, AppealFollows-refl,
  AppealFollows-trans, decide_row-AppealFollows,
}
use match_mate_dating_web.Moderation.Store.Commands.{
  Command, reports, views, assigns, changes, acts, appeals, decides, expires, committed,
  committed_db, execute, run,
}

abbrev pub KeepsCases : List Case → List Case → Type 0
KeepsCases = Evolves (λ c. c.id) CaseFollows

abbrev pub KeepsActions : List Action → List Action → Type 0
KeepsActions = Evolves (λ a. a.id) ActionFollows

abbrev pub KeepsAppeals : List Appeal → List Appeal → Type 0
KeepsAppeals = Evolves (λ a. a.id) AppealFollows

-- A step from one state of the tables to another.
pub record Keeps (old new : Db) : Type 0 where
  pub case_rows : KeepsCases old.cases new.cases
  pub action_rows : KeepsActions old.actions new.actions
  pub appeal_rows : KeepsAppeals old.appeals new.appeals
  pub valid : IsValid new

pub cases_stay : (old new : List Case) → new ≡ old → KeepsCases old new
cases_stay old new h =
    subst (KeepsCases old) (sym h) (Evolves-refl (λ c. c.id) CaseFollows CaseFollows-refl old)

pub actions_stay : (old new : List Action) → new ≡ old → KeepsActions old new
actions_stay old new h =
    subst (KeepsActions old) (sym h) (Evolves-refl (λ a. a.id) ActionFollows ActionFollows-refl old)

pub appeals_stay : (old new : List Appeal) → new ≡ old → KeepsAppeals old new
appeals_stay old new h =
    subst (KeepsAppeals old) (sym h) (Evolves-refl (λ a. a.id) AppealFollows AppealFollows-refl old)

pub Keeps-refl : (db : Db) → IsValid db → Keeps db db
Keeps-refl db valid = record {
  case_rows = cases_stay db.cases db.cases refl;
  action_rows = actions_stay db.actions db.actions refl;
  appeal_rows = appeals_stay db.appeals db.appeals refl;
  valid = valid;
}

pub Keeps-trans : (a b c : Db) → Keeps a b → Keeps b c → Keeps a c
Keeps-trans a b c h k = record {
  case_rows =
      Evolves-trans (λ x. x.id) CaseFollows CaseFollows-trans a.cases b.cases c.cases h.case_rows
        k.case_rows;
  action_rows =
      Evolves-trans (λ x. x.id) ActionFollows ActionFollows-trans a.actions b.actions c.actions
        h.action_rows k.action_rows;
  appeal_rows =
      Evolves-trans (λ x. x.id) AppealFollows AppealFollows-trans a.appeals b.appeals c.appeals
        h.appeal_rows k.appeal_rows;
  valid = k.valid;
}

-- A step that leaves actions and appeals as they are.
pub only_cases :
    (old new : Db)
    → IsValid old
    → KeepsCases old.cases new.cases
    → new.actions ≡ old.actions
    → new.appeals ≡ old.appeals
    → Keeps old new
only_cases old new valid keeps same_actions same_appeals = record {
  case_rows = keeps;
  action_rows = actions_stay old.actions new.actions same_actions;
  appeal_rows = appeals_stay old.appeals new.appeals same_appeals;
  valid = record {
    unique_appeals = rw same_appeals valid.unique_appeals;
    one_active = rw same_actions valid.one_active;
  };
}

pub change_status-Keeps :
    (fault : ℕ → Bool) (id : String) (next : ReportStatus) (p : Principal)
    (reason correlation : String) (now : ℕ) (db after : Db)
    → IsValid db
    → change_status fault id next p reason correlation now db ≡ ok after
    → Keeps db after
change_status-Keeps fault id next p reason correlation now db after valid h =
    elim (change_status-eq-ok fault id next p reason correlation now db after h) [
      | inl same ↦ subst (Keeps db) (sym same) (Keeps-refl db valid)
      | inr (c, found, legal, same) ↦ subst (Keeps db) (sym same) (
          only_cases db (with_status id next p reason correlation now db) valid
            (Evolves-update_row (λ x. x.id) CaseFollows CaseFollows-refl (has_id id)
              (status_row next now) db.cases (λ x. refl)
              λ x at.
                let one : c ≡ x = cc in
                subst (λ y. CaseFollows y (status_row next now y)) one
                  (status_row-CaseFollows next now c legal))
            refl refl)
    ]

pub assign-Keeps :
    (fault : ℕ → Bool) (id assignee : String) (p : Principal) (reason correlation : String)
    (now : ℕ) (db after : Db)
    → IsValid db
    → assign fault id assignee p reason correlation now db ≡ ok after
    → Keeps db after
assign-Keeps fault id assignee p reason correlation now db after valid h =
    let (rows, same_actions, same_appeals) =
      assign-eq-ok fault id assignee p reason correlation now db after h in
    only_cases db after valid
      (subst (KeepsCases db.cases) (sym rows) (
        Evolves-update_row (λ x. x.id) CaseFollows CaseFollows-refl (is_assignable id)
          (assign_row assignee now) db.cases (λ x. refl)
          λ x at.
            assign_row-CaseFollows assignee now x
              (ground (arith, find_passes (is_assignable id) db.cases x at))))
      same_actions same_appeals

pub with_action-Keeps :
    (a : Action) (p : Principal) (correlation : String) (now : ℕ) (c : Case) (db : Db)
    → IsValid db
    → find (has_id a.case_id) db.cases ≡ some c
    → (is_investigating c.status || is_actioned c.status) ≡ true
    → any (collides a) db.actions ≡ false
    → Keeps db (with_action a p correlation now db)
with_action-Keeps a p correlation now c db valid found works free = record {
  case_rows =
      Evolves-update_row (λ x. x.id) CaseFollows CaseFollows-refl (has_id a.case_id)
        (status_row ReportStatus.actioned now) db.cases (λ x. refl)
        λ x at.
          let one : c ≡ x = cc in
          subst (λ y. CaseFollows y (status_row ReportStatus.actioned now y)) one
            (actioned_row-CaseFollows now c works);
  action_rows = Evolves-append (λ x. x.id) ActionFollows ActionFollows-refl db.actions a;
  appeal_rows = appeals_stay db.appeals db.appeals refl;
  valid = record {
    unique_appeals = valid.unique_appeals;
    one_active = HasOneActive-append db.actions a valid.one_active free;
  };
}

expire_row-Ends : Ends expire_row
expire_row-Ends a = (λ b. ground (arith), refl)

pub reverse_row-Ends : Ends reverse_row
reverse_row-Ends a = (λ b. ground (arith), refl)

-- An action that ends.
pub Ends-Keeps :
    (id : String) (f : Action → Action) (db : Db)
    → ((a : Action) → (f a).id ≡ a.id)
    → ((a : Action) → ActionFollows a (f a))
    → Ends f
    → IsValid db
    → KeepsActions db.actions (update_row (has_action_id id) f db.actions)
      × HasOneActive (update_row (has_action_id id) f db.actions)
Ends-Keeps id f db keep follows ends valid = (
  Evolves-update_row (λ x. x.id) ActionFollows ActionFollows-refl (has_action_id id) f db.actions
      keep (λ x at. follows x),
  HasOneActive-update_row (has_action_id id) f db.actions ends valid.one_active,
)

expired_by-Keeps : (now : ℕ) (a : Action) (db : Db) → IsValid db → Keeps db (expired_by now a db)
expired_by-Keeps now a db valid =
    let (rows, one) =
      Ends-Keeps a.id expire_row db (λ x. refl) expire_row-ActionFollows expire_row-Ends valid in
    record {
      case_rows = cases_stay db.cases db.cases refl;
      action_rows = rows;
      appeal_rows = appeals_stay db.appeals db.appeals refl;
      valid = record { unique_appeals = valid.unique_appeals; one_active = one };
    }

pub expire_each-Keeps :
    (fault : ℕ → Bool) (now : ℕ) (rows : List Action) (db after : Db)
    → IsValid db
    → expire_each fault now rows db ≡ ok after
    → Keeps db after
unfolding expire_each
expire_each-Keeps fault now [] db after valid h = subst (Keeps db) (ok_inj h) (Keeps-refl db valid)
expire_each-Keeps fault now (a ∷ rows) db after valid h =
    let step = expired_by-Keeps now a db valid in
    Keeps-trans db (expired_by now a db) after step (
      expire_each-Keeps (λ n. fault (n + 3)) now rows (expired_by now a db) after step.valid
        (ground (arith, h)))
