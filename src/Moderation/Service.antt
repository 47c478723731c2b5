-- ===== src/Moderation/Service.antt =====
-- services/moderation-service/internal/application/service.go. A call that ends in a transaction
-- gives its answer and the database; the windows of the rate limit are the process's own state.
-- `to_upper` is `strings.ToUpper`.
pub mod Windows
pub mod Roles
pub mod Decisions
use match_mate_dating_web.Base.{
  ℕ, zero, suc, ◌+◌, ◌*◌, ◌^◌, Bool, true, false, not, ◌&&◌, ◌||◌, Option, none, some, List, [],
  ◌∷◌, ◌++◌, String, ltb, leb, ◌==◌, nat_eq, string_eq, if◌then◌else◌, any, length, filter,
}
use match_mate_dating_web.Base.Maps.{lookup_or, insert}
use match_mate_dating_web.Base.Result.{Result, ok, err, fail_if, ◌>>=◌, ◌>>◌}
use match_mate_dating_web.Base.Text.{byte_length, trim_space}
use match_mate_dating_web.Moderation.Domain.{
  Principal, has_role, ReportStatus, CreateReportInput, is_outside, one_of, target_types,
  validate_report, valid_action,
}
use match_mate_dating_web.Moderation.Store
use match_mate_dating_web.Moderation.Store.{Report, Action, Appeal, Db}
use match_mate_dating_web.Moderation.Store.Cases
use match_mate_dating_web.Moderation.Store.Cases.{CaseView}
use match_mate_dating_web.Moderation.Store.Actions

-- The problems of the service, and the errors of the store that pass through.
pub data Error : Type 0 where
  authorization_denied report_rate_limited case_not_found assignment_invalid : Error
  case_status_invalid action_target_invalid action_not_appealable appeal_invalid : Error
  appeal_not_pending appeal_decision_invalid : Error
  report_invalid action_invalid : List (String × String) → Error
  from_store : Store.Error → Error

abbrev pub lift : {A : Type 0} → Result Store.Error A → Result Error A
lift (ok a) = ok a
lift (err e) = err (from_store e)

-- `hasAny`
abbrev pub has_any : Principal → List String → Bool
has_any p roles = any (has_role p) roles

abbrev pub reporters : List String
reporters = "member" ∷ "organizer" ∷ "moderator" ∷ "admin" ∷ []

abbrev pub moderators : List String
moderators = "moderator" ∷ "admin" ∷ []

abbrev pub is_problem : List (String × String) → Bool
is_problem [] = false
is_problem (f ∷ fs) = true

abbrev pub hour : ℕ
hour = 3600 * 10 ^ 9

-- `at.After(now.Add(-time.Hour))`
abbrev pub is_recent : ℕ → ℕ → Bool
is_recent now at = ltb now (at + hour)

abbrev pub Windows : Type 0
Windows = List (String × List ℕ)

-- `allowReport`: the answer, and the windows after it.
unfoldable pub allow_report : ℕ → String → ℕ → Windows → Bool × Windows
allow_report rate_limit account now windows =
    let filtered = filter (is_recent now) (lookup_or [] account windows) in
    if leb rate_limit (length filtered)
    then (false, insert account filtered windows)
    else (true, insert account (filtered ++ now ∷ []) windows)

-- What `CreateReport` checks before the rate limit.
abbrev pub check_report : (String → Bool) → Principal → CreateReportInput → Result Error (Unit {0})
check_report is_uuid p i = do
  fail_if (not (has_any p reporters)) authorization_denied
  fail_if (is_problem (validate_report is_uuid i)) (report_invalid (validate_report is_uuid i))
  ok tt

abbrev pub finished :
    {A : Type 0} → Windows → Db → Result Store.Error (A × Db) → Result Error A × (Windows × Db)
finished windows db (ok r) = (ok r.0, (windows, r.1))
finished windows db (err e) = (err (from_store e), (windows, db))

-- `CreateReport`
unfoldable pub create_report :
    (String → Bool)
    → (String → String)
    → (String → String)
    → ℕ
    → (ℕ → Bool)
    → (ℕ → Bool)
    → (ℕ → String)
    → Principal
    → CreateReportInput
    → String
    → ℕ
    → Windows
    → Db
    → Result Error Report × (Windows × Db)
create_report is_uuid sha to_lower rate_limit fault last ids p i correlation now windows db =
    elim (check_report is_uuid p i) [
      | err e ↦ (err e, (windows, db))
      | ok u ↦
          (let r = allow_report rate_limit p.subject now windows in
            if r.0
            then finished r.1 db
                (Cases.create_report sha to_lower fault last ids p i correlation now db)
            else (err report_rate_limited, (r.1, db)))
    ]

abbrev pub answered :
    {A : Type 0} → Db → Result Error (Unit {0}) → Result Store.Error A × Db → Result Error A × Db
answered db (err e) done = (err e, db)
answered db (ok u) done = (lift done.0, done.1)

abbrev pub bad_reason : String → Bool
bad_reason reason = is_outside 10 1000 (byte_length (trim_space reason))

-- `GetCase`: the view is recorded, and stays recorded when the case cannot be read.
unfoldable pub get_case :
    (String → Bool)
    → (ℕ → Bool)
    → (ℕ → Bool)
    → Principal
    → String
    → String
    → ℕ
    → Db
    → Result Error CaseView × Db
get_case is_uuid fault read_fault p id correlation now db =
    answered db
      (do
        fail_if (not (has_any p moderators)) authorization_denied
        fail_if (not (is_uuid id)) case_not_found
        ok tt)
      (Store.then_read (Cases.record_case_view fault id p correlation now db)
        (Cases.get_case read_fault id) db)

-- `Assign`
unfoldable pub assign :
    (String → Bool)
    → (ℕ → Bool)
    → (ℕ → Bool)
    → Principal
    → String
    → String
    → String
    → String
    → ℕ
    → Db
    → Result Error CaseView × Db
assign is_uuid fault read_fault p id assignee reason correlation now db =
    answered db
      (do
        fail_if (not (has_any p moderators)) authorization_denied
        fail_if (not (is_uuid id)) case_not_found
        fail_if (not (is_uuid assignee) || bad_reason reason) assignment_invalid
        ok tt)
      (Cases.assign_case fault read_fault id assignee p (trim_space reason) correlation now db)

-- The status that a text names, if the service accepts it.
abbrev pub requested : String → Option ReportStatus
requested s =
    if s == "INVESTIGATING"
    then some ReportStatus.investigating
    else (if s == "DISMISSED" then some ReportStatus.dismissed else none)

abbrev pub update_to :
    (ℕ → Bool)
    → (ℕ → Bool)
    → Principal
    → String
    → Option ReportStatus
    → String
    → String
    → ℕ
    → Db
    → Result Error CaseView × Db
update_to fault read_fault p id none reason correlation now db = (err case_status_invalid, db)
update_to fault read_fault p id (some next) reason correlation now db =
    answered db (do fail_if (bad_reason reason) case_status_invalid; ok tt)
      (Cases.update_case_status fault read_fault id next p (trim_space reason) correlation now db)

-- `UpdateCaseStatus`
unfoldable pub update_case_status :
    (String → Bool)
    → (String → String)
    → (ℕ → Bool)
    → (ℕ → Bool)
    → Principal
    → String
    → String
    → String
    → String
    → ℕ
    → Db
    → Result Error CaseView × Db
update_case_status is_uuid to_upper fault read_fault p id status reason correlation now db =
    if not (has_any p moderators)
    then (err authorization_denied, db)
    else (if not (is_uuid id)
        then (err case_not_found, db)
        else update_to fault read_fault p id (requested (to_upper (trim_space status))) reason
            correlation now db)

-- `ApplyAction`
unfoldable pub apply_action :
    (String → Bool)
    → (ℕ → Bool)
    → (ℕ → String)
    → Principal
    → String
    → Action
    → String
    → ℕ
    → Db
    → Result Error (Action × Db)
apply_action is_uuid fault ids p id a correlation now db = do
  let fields = valid_action a.class a.scope a.reason a.effective_at a.expires_at
  fail_if (not (has_any p moderators)) authorization_denied
  fail_if (not (is_uuid id)) case_not_found
  fail_if (not (is_uuid a.target_id) || not (one_of target_types a.target_type))
      action_target_invalid
  fail_if (is_problem fields) (action_invalid fields)
  lift (Actions.create_action fault ids id a p correlation now db)

-- `Appeal`
unfoldable pub appeal :
    (String → Bool)
    → (ℕ → Bool)
    → (ℕ → String)
    → Principal
    → String
    → String
    → String
    → ℕ
    → Db
    → Result Error (Appeal × Db)
appeal is_uuid fault ids p action reason correlation now db = do
  fail_if (not (is_uuid action)) action_not_appealable
  fail_if (bad_reason reason) appeal_invalid
  lift (Actions.create_appeal fault ids action (trim_space reason) p correlation now db)

-- `Decide`
unfoldable pub decide :
    (String → Bool)
    → (String → String)
    → (ℕ → Bool)
    → Principal
    → String
    → String
    → String
    → String
    → ℕ
    → Db
    → Result Error (Appeal × Db)
decide is_uuid to_upper fault p id decision reason correlation now db = do
  let text = to_upper (trim_space decision)
  fail_if (not (has_any p moderators)) authorization_denied
  fail_if (not (is_uuid id)) appeal_not_pending
  fail_if (not (text == "UPHELD" || text == "REVERSED") || bad_reason reason)
      appeal_decision_invalid
  lift
      (Actions.decide_appeal fault id (text == "REVERSED") p (trim_space reason) correlation now db)

-- The calls that pass the rate limit, of those that the process has answered one after the other.
unfoldable pub allowed_reports : ℕ → List (String × ℕ) → Windows → List (String × ℕ)
allowed_reports rate_limit [] windows = []
allowed_reports rate_limit ((account, now) ∷ calls) windows =
    let r = allow_report rate_limit account now windows in
    let rest = allowed_reports rate_limit calls r.1 in if r.0 then (account, now) ∷ rest else rest
