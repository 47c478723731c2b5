-- ===== src/Moderation/Store/Histories/Runs.antt =====
-- Any transactions, in any order.
use mathlib.Core.Path.{subst}
use match_mate_dating_web.Base.{
  ℕ, ◌+◌, ◌≡◌, refl, sym, ap, Bool, true, false, some, List, [], ◌∷◌, String, arith, ◌==◌,
  string_eq, nat_eq, inl, inr, Option-cases,
}
use match_mate_dating_web.Base.Tables.{find, find_passes, find-none-any, All-found}
use match_mate_dating_web.Base.Keys.{
  HasUniqueKeys-append, HasUniqueKeys-update_row, HasUniqueKeys-find,
}
use match_mate_dating_web.Base.Evolution.{Evolves-append, Evolves-update_row}
use match_mate_dating_web.Base.Result.{Result, ok, err}
use match_mate_dating_web.Base.Text.{trim_space}
use match_mate_dating_web.Moderation.Domain.{Principal}
use match_mate_dating_web.Moderation.Store.{
  Case, Action, Appeal, Db, Error, has_id, has_action_id, has_appeal_id, then_read, empty,
}
use match_mate_dating_web.Moderation.Store.Cases.{
  new_case, severity_of, record_case_view, get_case, assign_case, update_case_status,
}
use match_mate_dating_web.Moderation.Store.Actions.{
  create_action, new_action, last_version, create_appeal, is_pending_appeal, decide_appeal,
  decide_row, decided_by, reverse_row, due_actions,
}
use match_mate_dating_web.Moderation.Store.Effects.{
  create_report-eq-ok, create_action-eq-ok, create_appeal-eq-ok, decide_appeal-eq-ok,
  expire_actions-eq-ok,
}
use match_mate_dating_web.Moderation.Store.Valid.{IsValid, HasOneActive}
use match_mate_dating_web.Moderation.Store.Lifecycle.{
  CaseFollows, CaseFollows-refl, ActionFollows, reverse_row-ActionFollows, AppealFollows,
  AppealFollows-refl, decide_row-AppealFollows,
}
use match_mate_dating_web.Moderation.Store.Commands.{
  Command, reports, views, assigns, changes, acts, appeals, decides, expires, committed,
  committed_db, execute, run,
}
use match_mate_dating_web.Moderation.Store.Histories.{
  KeepsCases, KeepsActions, KeepsAppeals, Keeps, Keeps-refl, Keeps-trans, only_cases,
  change_status-Keeps, assign-Keeps, with_action-Keeps, Ends-Keeps, reverse_row-Ends,
  expire_each-Keeps, cases_stay, actions_stay,
}

create_action-Keeps :
    (fault : ℕ → Bool) (ids : ℕ → String) (case : String) (given : Action) (p : Principal)
    (correlation : String) (now : ℕ) (db : Db) (r : Action × Db)
    → IsValid db
    → create_action fault ids case given p correlation now db ≡ ok r
    → Keeps db r.1
create_action-Keeps fault ids case given p correlation now db r valid h =
    let a = new_action ids case p (last_version given db.actions + 1) now given in
    let (c, found, works, free, same) =
      create_action-eq-ok fault ids case given p correlation now db r h in
    subst (λ x. Keeps db x.1) (sym same)
      (with_action-Keeps a p correlation now c db valid found works free)

create_appeal-Keeps :
    (fault : ℕ → Bool) (ids : ℕ → String) (action reason : String) (p : Principal)
    (correlation : String) (now : ℕ) (db : Db) (r : Appeal × Db)
    → IsValid db
    → create_appeal fault ids action reason p correlation now db ≡ ok r
    → Keeps db r.1
create_appeal-Keeps fault ids action reason p correlation now db r valid h =
    let (a, _, _, new, _, same, same_cases, same_actions, more) =
      create_appeal-eq-ok fault ids action reason p correlation now db r h in
    let named : r.0.id ≡ ids 0 = ap (λ x. x.id) same in
    record {
      case_rows = cases_stay db.cases r.1.cases same_cases;
      action_rows = actions_stay db.actions r.1.actions same_actions;
      appeal_rows =
          subst (KeepsAppeals db.appeals) (sym more)
            (Evolves-append (λ x. x.id) AppealFollows AppealFollows-refl db.appeals r.0);
      valid = record {
        unique_appeals = rw more (
            HasUniqueKeys-append (λ x. x.id) db.appeals r.0 valid.unique_appeals
              (find-none-any (has_appeal_id (ids 0)) (λ x. x.id == r.0.id) db.appeals
                (λ x t. ground (arith, t, named)) new));
        one_active = rw same_actions valid.one_active;
      };
    }

-- The pending appeal is the one that its id finds.
pending_by_id :
    (id : String) (db : Db) (ap : Appeal)
    → IsValid db
    → find (is_pending_appeal id) db.appeals ≡ some ap
    → find (has_appeal_id ap.id) db.appeals ≡ some ap
pending_by_id id db ap valid found =
    All-found (λ a. find (has_appeal_id a.id) db.appeals ≡ some a) (is_pending_appeal id) db.appeals
      ap (HasUniqueKeys-find (λ a. a.id) db.appeals valid.unique_appeals) found

decided_by-Keeps :
    (reverses : Bool) (id : String) (waiting : Appeal) (a : Action) (p : Principal)
    (reason correlation : String) (now : ℕ) (db : Db)
    → IsValid db
    → find (is_pending_appeal id) db.appeals ≡ some waiting
    → KeepsActions db.actions (decided_by reverses waiting a p reason correlation now db).actions
      × HasOneActive (decided_by reverses waiting a p reason correlation now db).actions
    → Keeps db (decided_by reverses waiting a p reason correlation now db)
decided_by-Keeps reverses id waiting a p reason correlation now db valid found (rows, one) =
    record {
      case_rows = cases_stay db.cases db.cases refl;
      action_rows = rows;
      appeal_rows =
          Evolves-update_row (λ x. x.id) AppealFollows AppealFollows-refl (has_appeal_id waiting.id)
            (decide_row reverses p.subject reason now) db.appeals (λ x. refl)
            λ x at.
              let by_id = pending_by_id id db waiting valid found in
              let same : waiting ≡ x = cc in
              subst (λ y. AppealFollows y (decide_row reverses p.subject reason now y)) same
                (decide_row-AppealFollows reverses p.subject reason now waiting
                  (ground (arith, find_passes (is_pending_appeal id) db.appeals waiting found)));
      valid = record {
        unique_appeals =
            HasUniqueKeys-update_row (λ x. x.id) (has_appeal_id waiting.id)
              (decide_row reverses p.subject reason now) db.appeals (λ x. refl)
              valid.unique_appeals;
        one_active = one;
      };
    }

decision_actions :
    (reverses : Bool) (waiting : Appeal) (a : Action) (p : Principal) (reason correlation : String)
    (now : ℕ) (db : Db)
    → IsValid db
    → KeepsActions db.actions (decided_by reverses waiting a p reason correlation now db).actions
      × HasOneActive (decided_by reverses waiting a p reason correlation now db).actions
decision_actions true waiting a p reason correlation now db valid =
    Ends-Keeps waiting.action_id reverse_row db (λ x. refl) reverse_row-ActionFollows
      reverse_row-Ends valid
decision_actions false waiting a p reason correlation now db valid =
    (actions_stay db.actions db.actions refl, valid.one_active)

decide_appeal-Keeps :
    (fault : ℕ → Bool) (id : String) (reverses : Bool) (p : Principal) (reason correlation : String)
    (now : ℕ) (db : Db) (r : Appeal × Db)
    → IsValid db
    → decide_appeal fault id reverses p reason correlation now db ≡ ok r
    → Keeps db r.1
decide_appeal-Keeps fault id reverses p reason correlation now db r valid h =
    let (waiting, a, found, _, same) =
      decide_appeal-eq-ok fault id reverses p reason correlation now db r h in
    subst (λ x. Keeps db x.1) (sym same)
      (decided_by-Keeps reverses id waiting a p (trim_space reason) correlation now db valid found
        (decision_actions reverses waiting a p (trim_space reason) correlation now db valid))

committed-Keeps :
    {A : Type 0} (m : Result Error (A × Db)) (db : Db)
    → IsValid db
    → ((r : A × Db) → m ≡ ok r → Keeps db r.1)
    → Keeps db (committed m db)
committed-Keeps (ok r) db valid h = h r refl
committed-Keeps (err e) db valid h = Keeps-refl db valid

then_read-Keeps :
    {A : Type 0} (m : Result Error Db) (read : Db → Result Error A) (db : Db)
    → IsValid db
    → ((after : Db) → m ≡ ok after → Keeps db after)
    → Keeps db (then_read m read db).1
then_read-Keeps (ok after) read db valid h = h after refl
then_read-Keeps (err e) read db valid h = Keeps-refl db valid

record_case_view-Keeps :
    (fault : ℕ → Bool) (id : String) (p : Principal) (correlation : String) (now : ℕ)
    (db after : Db)
    → IsValid db
    → record_case_view fault id p correlation now db ≡ ok after
    → Keeps db after
unfolding record_case_view
record_case_view-Keeps fault id p correlation now db after valid h =
    elim (Option-cases (find (has_id id) db.cases)) [
      | inl missing ↦ absurd (ground (arith, h, missing))
      | inr (c, found) ↦
          only_cases db after valid (cases_stay db.cases after.cases (ground (arith, h, found)))
            (ground (arith, h, found)) (ground (arith, h, found))
    ]

committed_db-Keeps :
    (m : Result Error Db) (db : Db)
    → IsValid db
    → ((r : Db) → m ≡ ok r → Keeps db r)
    → Keeps db (committed_db m db)
committed_db-Keeps (ok r) db valid h = h r refl
committed_db-Keeps (err e) db valid h = Keeps-refl db valid

module _ (sha to_lower : String → String) where
  execute-Keeps : (c : Command) (db : Db) → IsValid db → Keeps db (execute sha to_lower c db)
  unfolding execute assign_case update_case_status
  execute-Keeps (reports fault last ids p i correlation now) db valid =
      committed-Keeps _ db valid λ r h.
        let (rows, same_actions, same_appeals) =
          create_report-eq-ok sha to_lower fault last ids p i correlation now db r h in
        only_cases db r.1 valid
          (subst (KeepsCases db.cases) (sym rows) (
            Evolves-append (λ x. x.id) CaseFollows CaseFollows-refl db.cases
              (new_case (ids 0) (severity_of i.category) now)))
          same_actions same_appeals
  execute-Keeps (views fault id p correlation now) db valid =
      committed_db-Keeps _ db valid
        λ after. record_case_view-Keeps fault id p correlation now db after valid
  execute-Keeps (assigns fault read_fault id assignee p reason correlation now) db valid =
      then_read-Keeps _ (get_case read_fault id) db valid
        λ after. assign-Keeps fault id assignee p reason correlation now db after valid
  execute-Keeps (changes fault read_fault id next p reason correlation now) db valid =
      then_read-Keeps _ (get_case read_fault id) db valid
        λ after. change_status-Keeps fault id next p reason correlation now db after valid
  execute-Keeps (acts fault ids case a p correlation now) db valid =
      committed-Keeps _ db valid
        λ r. create_action-Keeps fault ids case a p correlation now db r valid
  execute-Keeps (appeals fault ids action reason p correlation now) db valid =
      committed-Keeps _ db valid
        λ r. create_appeal-Keeps fault ids action reason p correlation now db r valid
  execute-Keeps (decides fault id reverses p reason correlation now) db valid =
      committed-Keeps _ db valid
        λ r. decide_appeal-Keeps fault id reverses p reason correlation now db r valid
  execute-Keeps (expires fault now limit) db valid = committed-Keeps _ db valid λ r h.
      expire_each-Keeps (λ n. fault (n + 3)) now (due_actions now limit db.actions) db r.1 valid
        (expire_actions-eq-ok fault now limit db r h)

  run-Keeps : (cs : List Command) (db : Db) → IsValid db → Keeps db (run sha to_lower cs db)
  unfolding run
  run-Keeps [] db valid = Keeps-refl db valid
  run-Keeps (c ∷ cs) db valid =
      let step = execute-Keeps c db valid in
      Keeps-trans db (execute sha to_lower c db) (run sha to_lower cs (execute sha to_lower c db))
        step (run-Keeps cs (execute sha to_lower c db) step.valid)

  pub run-IsValid : (cs : List Command) (db : Db) → IsValid db → IsValid (run sha to_lower cs db)
  run-IsValid cs db valid = (run-Keeps cs db valid).valid

  -- Whatever transactions follow on valid tables, a case is still there with its severity and its age,
  -- its status has moved along OPEN, TRIAGED, INVESTIGATING and then ACTIONED or DISMISSED, its version
  -- has not fallen, and once it is dismissed nothing of it changes.
  pub run-keeps_cases :
      (cs : List Command) (db : Db) (id : String) (c : Case)
      → IsValid db
      → find (has_id id) db.cases ≡ some c
      → (d : Case) × (find (has_id id) (run sha to_lower cs db).cases ≡ some d) × CaseFollows c d
  run-keeps_cases cs db id c valid found = (run-Keeps cs db valid).case_rows id c found

  -- Whatever transactions follow on valid tables, an action is still there and only its state has
  -- changed, and if it was not active it is not active again.
  pub run-keeps_actions :
      (cs : List Command) (db : Db) (id : String) (a : Action)
      → IsValid db
      → find (has_action_id id) db.actions ≡ some a
      → (b : Action) × (find (has_action_id id) (run sha to_lower cs db).actions ≡ some b)
        × ActionFollows a b
  run-keeps_actions cs db id a valid found = (run-Keeps cs db valid).action_rows id a found

  -- Whatever transactions follow on valid tables, an appeal is still there with its action, its
  -- appellant and its reason, and once it is decided nothing of it changes.
  pub run-keeps_appeals :
      (cs : List Command) (db : Db) (id : String) (a : Appeal)
      → IsValid db
      → find (has_appeal_id id) db.appeals ≡ some a
      → (b : Appeal) × (find (has_appeal_id id) (run sha to_lower cs db).appeals ≡ some b)
        × AppealFollows a b
  run-keeps_appeals cs db id a valid found = (run-Keeps cs db valid).appeal_rows id a found

  -- After any transactions from empty tables, of the actions with the same target, class and scope at
  -- most one is active.
  pub run-HasOneActive : (cs : List Command) → HasOneActive (run sha to_lower cs empty).actions
  run-HasOneActive cs =
      (run-IsValid cs empty (record { unique_appeals = tt; one_active = tt })).one_active
