-- ===== src/Moderation/Store/Actions.antt =====
-- The actions and appeals of services/moderation-service/internal/store/postgres/repository.go.
use match_mate_dating_web.Base.{
  ℕ, ◌+◌, Bool, false, not, ◌&&◌, ◌||◌, Option, none, some, List, [], ◌∷◌, ◌++◌, String, ltb, leb,
  ◌==◌, nat_eq, string_eq, if◌then◌else◌, any, filter, map, take, length,
}
use match_mate_dating_web.Base.Sorting.{sort_by}
use match_mate_dating_web.Base.Tables.{find, update_row}
use match_mate_dating_web.Base.Result.{Result, ok, fail_if, ◌>>=◌, ◌>>◌}
use match_mate_dating_web.Base.Text.{trim_space}
use match_mate_dating_web.Moderation.Domain.{Principal, ReportStatus, ActionState, AppealState}
use match_mate_dating_web.Moderation.Store.{
  Action, Appeal, Db, Error, case_not_found, case_not_actionable, action_already_active,
  action_not_appealable, appeal_forbidden, appeal_already_exists, appeal_not_pending, store_failed,
  check_violation, unique_violation, or_else, has_id, has_action_id, has_appeal_id, is_active,
  is_appealed, is_investigating, is_actioned, audit, fact,
}
use match_mate_dating_web.Moderation.Store.Cases.{char_length, status_row, report_row}

-- Whether two actions have the same target, class and scope.
abbrev pub is_equivalent : Action → Action → Bool
is_equivalent a old =
    old.target_type == a.target_type
    && (old.target_id == a.target_id && (old.class == a.class && old.scope == a.scope))

-- `COALESCE(max(version),0)`
abbrev pub last_version : Action → List Action → ℕ
last_version a [] = 0
last_version a (old ∷ rows) =
    let rest = last_version a rows in
    if is_equivalent a old && ltb rest old.version then old.version else rest

-- `moderation_action_active_idx`
abbrev pub collides : Action → Action → Bool
collides a old = is_equivalent a old && is_active old.state

abbrev pub new_action : (ℕ → String) → String → Principal → ℕ → ℕ → Action → Action
new_action ids case p version now a = record a {
  id = ids 0;
  case_id = case;
  actor_id = p.subject;
  version = version;
  state = ActionState.active;
  created_at = now;
}

abbrev pub with_action : Action → Principal → String → ℕ → Db → Db
with_action a p correlation now db = record db {
  cases = update_row (has_id a.case_id) (status_row ReportStatus.actioned now) db.cases;
  reports = map (report_row a.case_id ReportStatus.actioned now) db.reports;
  actions = db.actions ++ a ∷ [];
  audits =
      audit a.case_id p.subject "ACTION_APPLIED" a.target_type a.target_id a.reason correlation now
        db.audits;
  outbox = fact "ModerationActionApplied" a.id p.subject correlation now db.outbox;
}

-- `CreateAction`
unfoldable pub create_action :
    (ℕ → Bool)
    → (ℕ → String)
    → String
    → Action
    → Principal
    → String
    → ℕ
    → Db
    → Result Error (Action × Db)
create_action fault ids case given p correlation now db = do
  fail_if (fault 0 || fault 1) store_failed
  c ← or_else case_not_found (find (has_id case) db.cases)
  fail_if (not (is_investigating c.status) && not (is_actioned c.status)) case_not_actionable
  fail_if (fault 2 || fault 3) store_failed
  let a = new_action ids case p (last_version given db.actions + 1) now given
  fail_if (any (has_action_id a.id) db.actions) unique_violation
  fail_if (any (collides a) db.actions) action_already_active
  fail_if (fault 4 || (fault 5 || (fault 6 || (fault 7 || fault 8)))) store_failed
  ok (a, with_action a p correlation now db)

abbrev pub is_open_action : String → Action → Bool
is_open_action id a = a.id == id && is_active a.state

abbrev pub new_appeal : (ℕ → String) → String → String → Principal → ℕ → Appeal
new_appeal ids action reason p now = record {
  id = ids 0;
  action_id = action;
  appellant_id = p.subject;
  reason = trim_space reason;
  state = AppealState.appealed;
  decision_actor_id = "";
  decision_reason = "";
  created_at = now;
  decided_at = none;
}

-- `UNIQUE(action_id,appellant_id)`
abbrev pub is_appeal_of : String → String → Appeal → Bool
is_appeal_of action appellant a = a.action_id == action && a.appellant_id == appellant

-- `CreateAppeal`
unfoldable pub create_appeal :
    (ℕ → Bool)
    → (ℕ → String)
    → String
    → String
    → Principal
    → String
    → ℕ
    → Db
    → Result Error (Appeal × Db)
create_appeal fault ids action reason p correlation now db = do
  fail_if (fault 0 || fault 1) store_failed
  a ← or_else action_not_appealable (find (is_open_action action) db.actions)
  fail_if (not (a.target_id == p.subject)) appeal_forbidden
  let ap = new_appeal ids action reason p now
  fail_if (fault 2) store_failed
  fail_if (ltb (char_length ap.reason) 10 || ltb 1000 (char_length ap.reason)) check_violation
  fail_if (any (has_appeal_id ap.id) db.appeals) unique_violation
  fail_if (any (is_appeal_of action p.subject) db.appeals) appeal_already_exists
  fail_if (fault 3 || (fault 4 || fault 5)) store_failed
  ok (
    ap,
    record db {
      appeals = db.appeals ++ ap ∷ [];
      audits =
          audit a.case_id p.subject "APPEAL_SUBMITTED" "ACTION" action "Member submitted appeal"
            correlation now db.audits;
      outbox = fact "AppealSubmitted" ap.id p.subject correlation now db.outbox;
    },
  )

abbrev pub is_pending_appeal : String → Appeal → Bool
is_pending_appeal id a = a.id == id && is_appealed a.state

-- The state of a decision: `REVERSED`, or `UPHELD`.
abbrev pub decided_state : Bool → AppealState
decided_state reverses = if reverses then AppealState.reversed else AppealState.upheld

abbrev pub decide_row : Bool → String → String → ℕ → Appeal → Appeal
decide_row reverses actor reason now a = record a {
  state = decided_state reverses;
  decision_actor_id = actor;
  decision_reason = reason;
  decided_at = some now;
}

abbrev pub reverse_row : Action → Action
reverse_row a = record a { state = ActionState.reversed }

abbrev pub decided_by : Bool → Appeal → Action → Principal → String → String → ℕ → Db → Db
decided_by reverses ap a p reason correlation now db = record db {
  actions =
      if reverses
      then update_row (has_action_id ap.action_id) reverse_row db.actions
      else db.actions;
  appeals = update_row (has_appeal_id ap.id) (decide_row reverses p.subject reason now) db.appeals;
  audits =
      audit a.case_id p.subject (if reverses then "APPEAL_REVERSED" else "APPEAL_UPHELD") "APPEAL"
        ap.id reason correlation now db.audits;
  outbox =
      fact (if reverses then "ModerationActionReversed" else "AppealUpheld") ap.action_id p.subject
        correlation now db.outbox;
}

-- `DecideAppeal`; `reverses` says whether the decision is `REVERSED`.
unfoldable pub decide_appeal :
    (ℕ → Bool) → String → Bool → Principal → String → String → ℕ → Db → Result Error (Appeal × Db)
decide_appeal fault id reverses p reason correlation now db = do
  fail_if (fault 0 || fault 1) store_failed
  ap ← or_else appeal_not_pending (find (is_pending_appeal id) db.appeals)
  a ← or_else appeal_not_pending (find (has_action_id ap.action_id) db.actions)
  fail_if (fault 2 || (reverses && fault 3)) store_failed
  fail_if (fault 4 || (fault 5 || fault 6)) store_failed
  ok (
    decide_row reverses p.subject (trim_space reason) now ap,
    decided_by reverses ap a p (trim_space reason) correlation now db,
  )

abbrev pub has_expired : ℕ → Option ℕ → Bool
has_expired now none = false
has_expired now (some t) = leb t now

abbrev pub is_due : ℕ → Action → Bool
is_due now a = is_active a.state && has_expired now a.expires_at

abbrev pub expiry : Option ℕ → ℕ
expiry none = 0
expiry (some t) = t

-- `ORDER BY expires_at LIMIT $2`
abbrev pub due_actions : ℕ → ℕ → List Action → List Action
due_actions now limit rows =
    take limit
      (sort_by (λ a b. ltb (expiry a.expires_at) (expiry b.expires_at)) (filter (is_due now) rows))

abbrev pub expire_row : Action → Action
expire_row a = record a { state = ActionState.expired }

abbrev pub nobody : String
nobody = "00000000-0000-0000-0000-000000000000"

abbrev pub expired_by : ℕ → Action → Db → Db
expired_by now a db = record db {
  actions = update_row (has_action_id a.id) expire_row db.actions;
  audits =
      audit a.case_id nobody "ACTION_EXPIRED" a.target_type a.target_id "Scheduled expiry"
        "expiry-worker" now db.audits;
  outbox = fact "ModerationActionExpired" a.id nobody "expiry-worker" now db.outbox;
}

-- The loop of `ExpireActions`, with three statements in a round.
unfoldable pub expire_each : (ℕ → Bool) → ℕ → List Action → Db → Result Error Db
expire_each fault now [] db = ok db
expire_each fault now (a ∷ rest) db = do
  fail_if (fault 0 || (fault 1 || fault 2)) store_failed
  expire_each (λ n. fault (n + 3)) now rest (expired_by now a db)

-- `ExpireActions`
unfoldable pub expire_actions : (ℕ → Bool) → ℕ → ℕ → Db → Result Error (ℕ × Db)
expire_actions fault now limit db = do
  fail_if (fault 0 || fault 1) store_failed
  let items = due_actions now limit db.actions
  db' ← expire_each (λ n. fault (n + 3)) now items db
  fail_if (fault 2) store_failed
  ok (length items, db')
