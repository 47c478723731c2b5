-- ===== src/Moderation/Store.antt =====
-- The tables of services/moderation-service/migrations, for internal/store/postgres/repository.go.
-- Transactions run one after the other; `fault n` says that a call's n-th statement fails. The JSON
-- bodies of audit rows and facts are left out. Identifiers are in canonical form.
pub mod Cases
pub mod Actions
pub mod Commands
pub mod Valid
pub mod Lifecycle
pub mod Effects
pub mod Histories
use Prim.Native.Nat.{◌+◌, suc}
use match_mate_dating_web.Base.{
  ℕ, Bool, true, false, not, ◌&&◌, ◌||◌, Option, none, some, List, [], ◌∷◌, ◌++◌, String, ◌==◌,
  string_eq,
}
use match_mate_dating_web.Base.Result.{Result, ok, err}
use match_mate_dating_web.Moderation.Domain.{ReportStatus, Severity, ActionState, AppealState}

pub record Case : Type 0 where
  pub id : String
  pub status : ReportStatus
  pub severity : Severity
  pub assignee_id : String
  pub version : ℕ
  pub created_at : ℕ
  pub updated_at : ℕ

pub record Report : Type 0 where
  pub id : String
  pub case_id : String
  pub reporter_id : String
  pub reporter_role : String
  pub target_type : String
  pub target_id : String
  pub event_id : String
  pub category : String
  pub description : String
  pub dedupe_hash : String
  pub status : ReportStatus
  pub created_at : ℕ
  pub updated_at : ℕ

pub record Evidence : Type 0 where
  pub report_id : String
  pub reference : String
  pub media_type : String
  pub sha256 : String
  pub retain_until : Option ℕ
  pub created_at : ℕ

pub record Action : Type 0 where
  pub id : String
  pub case_id : String
  pub target_type : String
  pub target_id : String
  pub class : String
  pub scope : String
  pub reason : String
  pub actor_id : String
  pub version : ℕ
  pub effective_at : ℕ
  pub expires_at : Option ℕ
  pub state : ActionState
  pub created_at : ℕ

pub record Appeal : Type 0 where
  pub id : String
  pub action_id : String
  pub appellant_id : String
  pub reason : String
  pub state : AppealState
  pub decision_actor_id : String
  pub decision_reason : String
  pub created_at : ℕ
  pub decided_at : Option ℕ

pub record Audit : Type 0 where
  pub case_id : String
  pub actor_id : String
  pub operation : String
  pub target_type : String
  pub target_id : String
  pub reason : String
  pub correlation_id : String
  pub occurred_at : ℕ

pub record Fact : Type 0 where
  pub event_type : String
  pub aggregate_id : String
  pub actor_id : String
  pub correlation_id : String
  pub occurred_at : ℕ

pub record Db : Type 0 where
  pub cases : List Case
  pub reports : List Report
  pub evidence : List Evidence
  pub actions : List Action
  pub appeals : List Appeal
  pub audits : List Audit
  pub outbox : List Fact

abbrev pub empty : Db
empty = record {
  cases = [];
  reports = [];
  evidence = [];
  actions = [];
  appeals = [];
  audits = [];
  outbox = [];
}

-- The problems of the repository, and the errors of the driver.
pub data Error : Type 0 where
  duplicate_report case_not_found case_not_assignable case_status_transition_invalid : Error
  case_not_actionable action_already_active action_not_appealable appeal_forbidden : Error
  appeal_already_exists appeal_not_pending : Error
  store_failed check_violation unique_violation : Error

abbrev pub or_else : {A : Type 0} → Error → Option A → Result Error A
or_else e none = err e
or_else e (some a) = ok a

abbrev pub has_id : String → Case → Bool
has_id id c = c.id == id

abbrev pub has_action_id : String → Action → Bool
has_action_id id a = a.id == id

abbrev pub has_appeal_id : String → Appeal → Bool
has_appeal_id id a = a.id == id

abbrev pub is_active : ActionState → Bool
is_active ActionState.active = true
is_active _ = false

abbrev pub is_appealed : AppealState → Bool
is_appealed AppealState.appealed = true
is_appealed _ = false

abbrev pub is_opened : ReportStatus → Bool
is_opened ReportStatus.opened = true
is_opened _ = false

abbrev pub is_triaged : ReportStatus → Bool
is_triaged ReportStatus.triaged = true
is_triaged _ = false

abbrev pub is_investigating : ReportStatus → Bool
is_investigating ReportStatus.investigating = true
is_investigating _ = false

abbrev pub is_actioned : ReportStatus → Bool
is_actioned ReportStatus.actioned = true
is_actioned _ = false

abbrev pub is_dismissed : ReportStatus → Bool
is_dismissed ReportStatus.dismissed = true
is_dismissed _ = false

-- `audit`
abbrev pub audit :
    String → String → String → String → String → String → String → ℕ → List Audit → List Audit
audit case actor operation target_type target reason correlation now rows =
    rows
    ++ record {
      case_id = case;
      actor_id = actor;
      operation = operation;
      target_type = target_type;
      target_id = target;
      reason = reason;
      correlation_id = correlation;
      occurred_at = now;
    }
      ∷ []

-- `fact`
abbrev pub fact : String → String → String → String → ℕ → List Fact → List Fact
fact event_type aggregate actor correlation now rows =
    rows
    ++ record {
      event_type = event_type;
      aggregate_id = aggregate;
      actor_id = actor;
      correlation_id = correlation;
      occurred_at = now;
    }
      ∷ []

-- What `AssignCase` and `UpdateCaseStatus` answer: the transaction, and the case read after it.
abbrev pub then_read :
    {A : Type 0} → Result Error Db → (Db → Result Error A) → Db → Result Error A × Db
then_read (err e) read db = (err e, db)
then_read (ok db') read db = (read db', db')
