-- ===== src/Tests/Moderation.antt =====
-- A case of the moderation service, from the report to the decision of an appeal.
use match_mate_dating_web.Base.{
  ℕ, ◌≤◌, ◌≡◌, refl, Bool, true, false, not, ◌&&◌, ◌||◌, none, some, List, [], ◌∷◌, String, ◌==◌,
  string_eq, nat_eq, All, any, ltb, count, if◌then◌else◌, map,
}
use match_mate_dating_web.Base.Tables.{find}
use match_mate_dating_web.Base.Text
use match_mate_dating_web.Base.Result.{ok}
use match_mate_dating_web.Moderation.Domain.{
  Principal, ReportStatus, Severity, ActionState, AppealState, CreateReportInput, valid_action,
}
use match_mate_dating_web.Moderation.Store.{
  Case, Action, Appeal, Db, has_id, has_action_id, has_appeal_id, empty, is_active,
}
use match_mate_dating_web.Moderation.Store.Cases
use match_mate_dating_web.Moderation.Store.Actions
use match_mate_dating_web.Moderation.Store.Actions.{is_equivalent}
use match_mate_dating_web.Moderation.Store.Commands
use match_mate_dating_web.Moderation.Store.Commands.{
  Command, reports, assigns, changes, acts, appeals, decides, expires, run,
}
use match_mate_dating_web.Moderation.Store.Valid.{IsValid, HasOneActive}
use match_mate_dating_web.Moderation.Store.Lifecycle.{CaseFollows, ActionFollows, AppealFollows}
use match_mate_dating_web.Moderation.Store.Histories.Runs.{
  run-IsValid, run-keeps_cases, run-keeps_actions, run-keeps_appeals, run-HasOneActive,
}
use match_mate_dating_web.Moderation.Service.{apply_action, appeal, allowed_reports, is_problem}
use match_mate_dating_web.Moderation.Domain.{has_role}
use match_mate_dating_web.Moderation.Service.{decide}
use match_mate_dating_web.Moderation.Service.Decisions.{IsDecided, decide-IsDecided}
use match_mate_dating_web.Moderation.Service.Windows.{allowed_reports_le, in_hour_of}
use match_mate_dating_web.Moderation.Service.Roles.{apply_action_newest}

abbrev no_fault : ℕ → Bool
no_fault n = false

abbrev same : String → String
same s = s

abbrev known : String → Bool
known s = true

abbrev ids : ℕ → String
ids n = if n == 0 then "c1" else "r1"

abbrev action_id : ℕ → String
action_id n = "a1"

abbrev appeal_id : ℕ → String
appeal_id n = "p1"

abbrev ann : Principal
ann = record { subject = "ann"; roles = "member" ∷ [] }

abbrev bob : Principal
bob = record { subject = "bob"; roles = "member" ∷ [] }

abbrev moe : Principal
moe = record { subject = "mo"; roles = "moderator" ∷ [] }

abbrev input : CreateReportInput
input = record {
  target_type = "ACCOUNT";
  target_id = "bob";
  category = "SAFETY";
  description = "asks for money";
  event_id = "";
  evidence = [];
}

abbrev suspension : Action
suspension = record {
  id = "";
  case_id = "";
  target_type = "ACCOUNT";
  target_id = "bob";
  class = "ACCOUNT_SUSPENSION";
  scope = "all";
  reason = "asks members for money";
  actor_id = "";
  version = 0;
  effective_at = 5;
  expires_at = some 100;
  state = ActionState.expired;
  created_at = 0;
}

abbrev opening : List Command
opening =
    reports no_fault no_fault ids ann input "x" 1
    ∷ assigns no_fault no_fault "c1" "mo" moe "taking this case" "x" 2
    ∷ changes no_fault no_fault "c1" ReportStatus.investigating moe "looking into it" "x" 3
    ∷ []

abbrev acted : List Command
acted = acts no_fault action_id "c1" suspension moe "x" 4 ∷ []

abbrev appealed : List Command
appealed = appeals no_fault appeal_id "a1" "it was not me" bob "x" 5 ∷ []

abbrev reversal : List Command
reversal = decides no_fault "p1" true moe "wrong account" "x" 6 ∷ expires no_fault 200 10 ∷ []

abbrev opened : Db
opened = run same same opening empty

abbrev suspended : Db
suspended = run same same acted opened

abbrev contested : Db
contested = run same same appealed suspended

opened-IsValid : IsValid opened
opened-IsValid =
    run-IsValid same same opening empty (record { unique_appeals = tt; one_active = tt })

suspended-IsValid : IsValid suspended
suspended-IsValid = run-IsValid same same acted opened opened-IsValid

contested-IsValid : IsValid contested
contested-IsValid = run-IsValid same same appealed suspended suspended-IsValid

abbrev open_case : Case
open_case = record {
  id = "c1";
  status = ReportStatus.investigating;
  severity = Severity.high;
  assignee_id = "mo";
  version = 3;
  created_at = 1;
  updated_at = 3;
}

opened-found : find (has_id "c1") opened.cases ≡ some open_case
unfolding run Commands.execute Cases.create_report Cases.assign_case Cases.assign Cases.char_length
    Cases.update_case_status Cases.change_status Actions.create_action Actions.create_appeal
    Text.trim_space Text.trim_left Text.trim_right apply_action appeal valid_action Text.byte_length
opened-found = refl

run-keeps_cases_example :
    (d : Case) × (find (has_id "c1") (run same same acted opened).cases ≡ some d)
    × CaseFollows open_case d
run-keeps_cases_example =
    run-keeps_cases same same acted opened "c1" open_case opened-IsValid opened-found

abbrev active_action : Action
active_action = record suspension {
  id = "a1";
  case_id = "c1";
  actor_id = "mo";
  version = 1;
  state = ActionState.active;
  created_at = 4;
}

suspended-found : find (has_action_id "a1") suspended.actions ≡ some active_action
unfolding run Commands.execute Cases.create_report Cases.assign_case Cases.assign Cases.char_length
    Cases.update_case_status Cases.change_status Actions.create_action Actions.create_appeal
    Text.trim_space Text.trim_left Text.trim_right apply_action appeal valid_action Text.byte_length
suspended-found = refl

run-keeps_actions_example :
    (b : Action) × (find (has_action_id "a1") (run same same reversal suspended).actions ≡ some b)
    × ActionFollows active_action b
run-keeps_actions_example =
    run-keeps_actions same same reversal suspended "a1" active_action suspended-IsValid
      suspended-found

abbrev pending_appeal : Appeal
pending_appeal = record {
  id = "p1";
  action_id = "a1";
  appellant_id = "bob";
  reason = "it was not me";
  state = AppealState.appealed;
  decision_actor_id = "";
  decision_reason = "";
  created_at = 5;
  decided_at = none;
}

contested-found : find (has_appeal_id "p1") contested.appeals ≡ some pending_appeal
unfolding run Commands.execute Cases.create_report Cases.assign_case Cases.assign Cases.char_length
    Cases.update_case_status Cases.change_status Actions.create_action Actions.create_appeal
    Text.trim_space Text.trim_left Text.trim_right apply_action appeal valid_action Text.byte_length
contested-found = refl

run-keeps_appeals_example :
    (b : Appeal) × (find (has_appeal_id "p1") (run same same reversal contested).appeals ≡ some b)
    × AppealFollows pending_appeal b
run-keeps_appeals_example =
    run-keeps_appeals same same reversal contested "p1" pending_appeal contested-IsValid
      contested-found

abbrev again_id : ℕ → String
again_id n = "a2"

abbrev third_id : ℕ → String
third_id n = "a3"

-- An account is suspended, is not suspended a second time, and is after the first suspension is over.
abbrev twice_suspended : List Command
twice_suspended =
    reports no_fault no_fault ids ann input "x" 1
    ∷ assigns no_fault no_fault "c1" "mo" moe "taking this case" "x" 2
    ∷ changes no_fault no_fault "c1" ReportStatus.investigating moe "looking into it" "x" 3
    ∷ acts no_fault action_id "c1" suspension moe "x" 4
    ∷ acts no_fault again_id "c1" suspension moe "x" 5
    ∷ expires no_fault 200 10
    ∷ acts no_fault third_id "c1" suspension moe "x" 201
    ∷ []

twice_suspended-rows :
    map {B = String × Bool}
      (λ a. (a.id, is_active a.state))
      (run same same twice_suspended empty).actions
    ≡ ("a1", false) ∷ ("a3", true) ∷ []
unfolding run Commands.execute Cases.create_report Cases.assign_case Cases.assign Cases.char_length
    Cases.update_case_status Cases.change_status Actions.create_action Actions.create_appeal
    Text.trim_space Text.trim_left Text.trim_right apply_action appeal valid_action Text.byte_length
    Actions.expire_actions Actions.expire_each
twice_suspended-rows = refl

run-HasOneActive_example : HasOneActive (run same same twice_suspended empty).actions
run-HasOneActive_example = run-HasOneActive same same twice_suspended

abbrev applied : Action × Db
applied = (active_action, suspended)

applied-ok : apply_action known no_fault action_id moe "c1" suspension "x" 4 opened ≡ ok applied
unfolding run Commands.execute Cases.create_report Cases.assign_case Cases.assign Cases.char_length
    Cases.update_case_status Cases.change_status Actions.create_action Actions.create_appeal
    Text.trim_space Text.trim_left Text.trim_right apply_action appeal valid_action Text.byte_length
applied-ok = refl

apply_action_newest_example :
    (is_problem (valid_action "ACCOUNT_SUSPENSION" "all" "asks members for money" 5 (some 100))
      ≡ false)
    × (is_active active_action.state ≡ true)
    × (active_action.case_id ≡ "c1")
    × (any (λ b. is_equivalent active_action b && is_active b.state) opened.actions ≡ false)
    × All
        (λ b. (not (is_equivalent suspension b) || ltb b.version active_action.version) ≡ true)
        opened.actions
apply_action_newest_example =
    apply_action_newest known no_fault action_id moe "c1" suspension "x" 4 opened applied applied-ok

abbrev accepted : Appeal × Db
accepted = (pending_appeal, contested)

allowed_reports_le_example :
    count
      (in_hour_of "ann" 9)
      (allowed_reports 2 (("ann", 3) ∷ ("ann", 5) ∷ ("bob", 6) ∷ ("ann", 9) ∷ []) [])
    ≤ 2
allowed_reports_le_example =
    allowed_reports_le "ann" 9 2 (("ann", 3) ∷ ("ann", 5) ∷ ("bob", 6) ∷ ("ann", 9) ∷ []) refl

abbrev reversed_appeal : Appeal
reversed_appeal = record pending_appeal {
  state = AppealState.reversed;
  decision_actor_id = "mo";
  decision_reason = "the wrong account";
  decided_at = some 6;
}

abbrev decision : Appeal × Db
decision = (
  reversed_appeal,
  run same same (decides no_fault "p1" true moe "the wrong account" "x" 6 ∷ []) contested,
)

decision-ok :
    decide known same no_fault moe "p1" "REVERSED" "the wrong account" "x" 6 contested ≡ ok decision
unfolding run Commands.execute Cases.create_report Cases.assign_case Cases.assign Cases.char_length
    Cases.update_case_status Cases.change_status Actions.create_action Actions.create_appeal
    Text.trim_space Text.trim_left Text.trim_right apply_action appeal valid_action Text.byte_length
    decide Actions.decide_appeal
decision-ok = refl

decide-IsDecided_example :
    ((has_role moe "moderator" || has_role moe "admin") ≡ true)
    × IsDecided "p1"
        (same (Text.trim_space "REVERSED") == "REVERSED")
        moe
        6
        contested
        decision.0
        decision.1
decide-IsDecided_example =
    decide-IsDecided known same no_fault moe "p1" "REVERSED" "the wrong account" "x" 6 contested
      decision contested-IsValid decision-ok
