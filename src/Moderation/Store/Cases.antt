-- ===== src/Moderation/Store/Cases.antt =====
-- The reports and cases of services/moderation-service/internal/store/postgres/repository.go.
use match_mate_dating_web.Base.{
  ℕ, suc, ◌+◌, Bool, false, not, ◌&&◌, ◌||◌, List, [], ◌∷◌, ◌++◌, String, ltb, ◌==◌, nat_eq,
  string_eq, if◌then◌else◌, any, filter, map,
}
use match_mate_dating_web.Base.Sorting.{sort_by}
use match_mate_dating_web.Base.Tables.{find, update_row}
use match_mate_dating_web.Base.Result.{Result, ok, fail_if, ◌>>=◌, ◌>>◌}
use match_mate_dating_web.Base.Text.{◌<>◌, trim_space}
use match_mate_dating_web.Moderation.Domain.{
  Principal, has_role, ReportStatus, Severity, EvidenceInput, CreateReportInput,
}
use match_mate_dating_web.Moderation.Store.{
  Case, Report, Evidence, Action, Appeal, Db, Error, duplicate_report, case_not_found,
  case_not_assignable, case_status_transition_invalid, store_failed, check_violation,
  unique_violation, or_else, has_id, is_opened, is_triaged, is_investigating, is_actioned,
  is_dismissed, audit, fact, then_read,
}

-- `length` of a text column: its characters.
unfoldable pub char_length : String → ℕ
char_length String.[] = 0
char_length (String.◌∷◌ c s) = suc (char_length s)

abbrev pub normalized : (String → String) → CreateReportInput → String
normalized to_lower i =
    to_lower
      (i.target_type <> "|" <> i.target_id <> "|" <> i.category <> "|" <> trim_space i.description)

abbrev pub severity_of : String → Severity
severity_of category = if category == "SAFETY" then Severity.high else Severity.medium

abbrev pub new_case : String → Severity → ℕ → Case
new_case id severity now = record {
  id = id;
  status = ReportStatus.opened;
  severity = severity;
  assignee_id = "";
  version = 1;
  created_at = now;
  updated_at = now;
}

abbrev pub new_report : (ℕ → String) → Principal → CreateReportInput → String → ℕ → Report
new_report ids p i hash now = record {
  id = ids 1;
  case_id = ids 0;
  reporter_id = p.subject;
  reporter_role = if has_role p "organizer" then "organizer" else "member";
  target_type = i.target_type;
  target_id = i.target_id;
  event_id = i.event_id;
  category = i.category;
  description = trim_space i.description;
  dedupe_hash = hash;
  status = ReportStatus.opened;
  created_at = now;
  updated_at = now;
}

abbrev pub evidence_row : (String → String) → String → ℕ → EvidenceInput → Evidence
evidence_row to_lower report now e = record {
  report_id = report;
  reference = e.reference;
  media_type = e.media_type;
  sha256 = to_lower e.sha256;
  retain_until = e.retain_until;
  created_at = now;
}

abbrev pub has_report_id : String → Report → Bool
has_report_id id r = r.id == id

-- `UNIQUE(reporter_id,dedupe_hash)`
abbrev pub is_duplicate : Report → Report → Bool
is_duplicate r old = old.reporter_id == r.reporter_id && old.dedupe_hash == r.dedupe_hash

-- The statements that insert evidence, the n-th of which is the call's `n + 3`-rd.
abbrev pub evidence_fails : (ℕ → Bool) → List EvidenceInput → Bool
evidence_fails fault [] = false
evidence_fails fault (e ∷ es) = fault 0 || evidence_fails (λ n. fault (n + 1)) es

-- `CreateReport`; the statements behind the evidence are numbered apart by `last`.
unfoldable pub create_report :
    (String → String)
    → (String → String)
    → (ℕ → Bool)
    → (ℕ → Bool)
    → (ℕ → String)
    → Principal
    → CreateReportInput
    → String
    → ℕ
    → Db
    → Result Error (Report × Db)
create_report sha to_lower fault last ids p i correlation now db = do
  fail_if (fault 0) store_failed
  fail_if (fault 1) store_failed
  fail_if (fault 2) store_failed
  let r = new_report ids p i (sha (normalized to_lower i)) now
  fail_if (ltb (char_length r.description) 10 || ltb 2000 (char_length r.description))
      check_violation
  fail_if (any (has_id (ids 0)) db.cases || any (has_report_id r.id) db.reports) unique_violation
  fail_if (any (is_duplicate r) db.reports) duplicate_report
  fail_if (evidence_fails (λ n. fault (n + 3)) i.evidence) store_failed
  fail_if (last 0 || (last 1 || last 2)) store_failed
  ok (
    r,
    record db {
      cases = db.cases ++ new_case (ids 0) (severity_of i.category) now ∷ [];
      reports = db.reports ++ r ∷ [];
      evidence = db.evidence ++ map (evidence_row to_lower r.id now) i.evidence;
      audits =
          audit (ids 0) p.subject "REPORT_SUBMITTED" i.target_type i.target_id
            "Member submitted report" correlation now db.audits;
      outbox = fact "ReportSubmitted" r.id p.subject correlation now db.outbox;
    },
  )

pub record CaseView : Type 0 where
  pub row : Case
  pub reports : List Report
  pub actions : List Action
  pub appeals : List Appeal

abbrev pub of_case : String → Report → Bool
of_case id r = r.case_id == id

abbrev pub action_of_case : String → Action → Bool
action_of_case id a = a.case_id == id

-- `appeal ap JOIN moderation_action a USING(action_id) WHERE a.case_id=$1`
abbrev pub appeal_of_case : String → List Action → Appeal → Bool
appeal_of_case id actions ap = any (λ a. a.id == ap.action_id && a.case_id == id) actions

-- `GetCase`
unfoldable pub get_case : (ℕ → Bool) → String → Db → Result Error CaseView
get_case fault id db = do
  fail_if (fault 0) store_failed
  c ← or_else case_not_found (find (has_id id) db.cases)
  fail_if (fault 1 || (fault 2 || fault 3)) store_failed
  ok (record {
    row = c;
    reports = sort_by (λ a b. ltb a.created_at b.created_at) (filter (of_case id) db.reports);
    actions =
        sort_by (λ a b. ltb a.created_at b.created_at) (filter (action_of_case id) db.actions);
    appeals =
        sort_by (λ a b. ltb a.created_at b.created_at)
          (filter (appeal_of_case id db.actions) db.appeals);
  })

-- `RecordCaseView`
unfoldable pub record_case_view :
    (ℕ → Bool) → String → Principal → String → ℕ → Db → Result Error Db
record_case_view fault id p correlation now db = do
  fail_if (fault 0 || fault 1) store_failed
  c ← or_else case_not_found (find (has_id id) db.cases)
  fail_if (fault 2 || fault 3) store_failed
  ok (record db {
    audits =
        audit id p.subject "CASE_VIEWED" "CASE" id "Privileged case view" correlation now db.audits;
  })

-- `WHERE case_id=$1 AND status NOT IN('ACTIONED','DISMISSED')`
abbrev pub is_assignable : String → Case → Bool
is_assignable id c = c.id == id && not (is_actioned c.status || is_dismissed c.status)

abbrev pub assign_row : String → ℕ → Case → Case
assign_row assignee now c = record c {
  assignee_id = assignee;
  status = if is_opened c.status then ReportStatus.triaged else c.status;
  version = c.version + 1;
  updated_at = now;
}

-- `AssignCase`, up to the commit.
unfoldable pub assign :
    (ℕ → Bool) → String → String → Principal → String → String → ℕ → Db → Result Error Db
assign fault id assignee p reason correlation now db = do
  fail_if (fault 0 || fault 1) store_failed
  c ← or_else case_not_assignable (find (is_assignable id) db.cases)
  fail_if (fault 2 || fault 3) store_failed
  ok (record db {
    cases = update_row (is_assignable id) (assign_row assignee now) db.cases;
    audits = audit id p.subject "CASE_ASSIGNED" "CASE" id reason correlation now db.audits;
  })

-- `AssignCase`
unfoldable pub assign_case :
    (ℕ → Bool)
    → (ℕ → Bool)
    → String
    → String
    → Principal
    → String
    → String
    → ℕ
    → Db
    → Result Error CaseView × Db
assign_case fault read_fault id assignee p reason correlation now db =
    then_read (assign fault id assignee p reason correlation now db) (get_case read_fault id) db

abbrev pub same_status : ReportStatus → ReportStatus → Bool
same_status ReportStatus.opened t = is_opened t
same_status ReportStatus.triaged t = is_triaged t
same_status ReportStatus.investigating t = is_investigating t
same_status ReportStatus.actioned t = is_actioned t
same_status ReportStatus.dismissed t = is_dismissed t

abbrev pub allowed : ReportStatus → ReportStatus → Bool
allowed current next =
    (is_investigating next && is_triaged current) || (is_dismissed next && is_investigating current)

abbrev pub status_row : ReportStatus → ℕ → Case → Case
status_row next now c = record c { status = next; version = c.version + 1; updated_at = now }

abbrev pub report_row : String → ReportStatus → ℕ → Report → Report
report_row id next now r = if of_case id r then record r { status = next; updated_at = now } else r

abbrev pub operation_of : ReportStatus → String
operation_of next = if is_dismissed next then "CASE_DISMISSED" else "CASE_INVESTIGATION_STARTED"

abbrev pub with_status : String → ReportStatus → Principal → String → String → ℕ → Db → Db
with_status id next p reason correlation now db = record db {
  cases = update_row (has_id id) (status_row next now) db.cases;
  reports = map (report_row id next now) db.reports;
  audits = audit id p.subject (operation_of next) "CASE" id reason correlation now db.audits;
  outbox =
      if is_dismissed next
      then fact "ModerationCaseDismissed" id p.subject correlation now db.outbox
      else db.outbox;
}

-- `UpdateCaseStatus`, up to the commit; a case that has the status already stays as it is.
unfoldable pub change_status :
    (ℕ → Bool) → String → ReportStatus → Principal → String → String → ℕ → Db → Result Error Db
change_status fault id next p reason correlation now db = do
  fail_if (fault 0 || fault 1) store_failed
  c ← or_else case_not_found (find (has_id id) db.cases)
  if same_status c.status next then ok db else (do
    fail_if (not (allowed c.status next)) case_status_transition_invalid
    fail_if (fault 2 || (fault 3 || fault 4)) store_failed
    fail_if (is_dismissed next && fault 5) store_failed
    fail_if (fault 6) store_failed
    ok (with_status id next p reason correlation now db))

-- `UpdateCaseStatus`
unfoldable pub update_case_status :
    (ℕ → Bool)
    → (ℕ → Bool)
    → String
    → ReportStatus
    → Principal
    → String
    → String
    → ℕ
    → Db
    → Result Error CaseView × Db
update_case_status fault read_fault id next p reason correlation now db =
    then_read (change_status fault id next p reason correlation now db) (get_case read_fault id) db
