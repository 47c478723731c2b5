-- ===== src/Notification/Store/Attempts.antt =====
-- `ClaimDue` and `CompleteAttempt` of
-- services/notification-service/internal/store/postgres/repository.go.
use match_mate_dating_web.Base.{
  ℕ, ◌+◌, Bool, false, not, ◌&&◌, ◌||◌, Option, none, some, List, [], ◌∷◌, ◌++◌, String, ltb, leb,
  ◌==◌, nat_eq, string_eq, if◌then◌else◌, any,
}
use match_mate_dating_web.Base.Tables.{find, update_row}
use match_mate_dating_web.Base.Result.{Result, ok, fail_if, ◌>>=◌, ◌>>◌}
use match_mate_dating_web.Notification.Domain.{DeliveryState, Template, Delivery, add_duration}
use match_mate_dating_web.Notification.Store.{
  StoredTemplate, Row, Attempt, Db, Error, store_failed, check_violation, unique_violation,
  stale_lease, or_no_rows, has_id, is_waiting, is_processing,
}

abbrev pub has_passed : ℕ → Option ℕ → Bool
has_passed now none = false
has_passed now (some t) = leb t now

abbrev pub is_due : ℕ → Row → Bool
is_due now r =
    (is_waiting r.state && leb r.next_attempt_at now)
    || (is_processing r.state && has_passed now r.lease_until)

abbrev pub has_template_id : String → StoredTemplate → Bool
has_template_id id s = s.template.id == id

-- `ORDER BY d.next_attempt_at,d.created_at`
abbrev pub comes_first : Row → Row → Bool
comes_first a b =
    ltb a.next_attempt_at b.next_attempt_at
    || (a.next_attempt_at == b.next_attempt_at && leb a.created_at b.created_at)

abbrev pub earlier : Row × Template → Option (Row × Template) → Row × Template
earlier a none = a
earlier a (some b) = if comes_first a.0 b.0 then a else b

abbrev pub joined : Row → Option StoredTemplate → Option (Row × Template) → Option (Row × Template)
joined r none rest = rest
joined r (some s) rest = some (earlier (r, s.template) rest)

-- The first row of the query, with its template.
unfoldable pub first_due : ℕ → List StoredTemplate → List Row → Option (Row × Template)
first_due now ts [] = none
first_due now ts (r ∷ rs) =
    let rest = first_due now ts rs in
    if is_due now r then joined r (find (has_template_id r.template_id) ts) rest else rest

abbrev pub delivery_of : Row → Template → Delivery
delivery_of r t = record {
  id = r.id;
  business_key = r.business_key;
  recipient_account_id = r.recipient_account_id;
  source_event_id = r.source_event_id;
  source_event_type = r.source_event_type;
  source_aggregate_id = r.source_aggregate_id;
  template = t;
  variables = r.variables;
  state = r.state;
  attempt_count = r.attempt_count;
  max_attempts = r.max_attempts;
  created_at = r.created_at;
  updated_at = r.updated_at;
}

abbrev pub claim_row : ℕ → ℕ → ℕ → Row → Row
claim_row count now lease r = record r {
  state = DeliveryState.processing;
  attempt_count = count;
  lease_until = some (add_duration now lease);
  updated_at = now;
}

abbrev pub claimed : ℕ → Delivery → Delivery
claimed now d = record d {
  attempt_count = d.attempt_count + 1;
  state = DeliveryState.processing;
  updated_at = now;
}

-- `ClaimDue`
unfoldable pub claim_due : (ℕ → Bool) → ℕ → ℕ → Db → Result Error (Option Delivery × Db)
claim_due fault now lease db = do
  fail_if (fault 0) store_failed
  fail_if (fault 1) store_failed
  elim (first_due now db.templates db.deliveries) [
    | none ↦ ok (none, db)
    | some rt ↦ do
      let d = claimed now (delivery_of rt.0 rt.1)
      fail_if (fault 2) store_failed
      fail_if (fault 3) store_failed
      ok (
        some d,
        record db {
          deliveries = update_row (has_id d.id) (claim_row d.attempt_count now lease) db.deliveries;
        },
      )
  ]

pub record AttemptResult : Type 0 where
  pub delivered : Bool
  pub permanent_failure : Bool
  pub provider_reference : String
  pub error_code : String
  pub started_at : ℕ
  pub completed_at : ℕ
  pub retry_at : ℕ

abbrev pub next_state : AttemptResult → ℕ → ℕ → DeliveryState
next_state res count max =
    if res.delivered
    then DeliveryState.delivered
    else (if res.permanent_failure
        then DeliveryState.permanently_failed
        else (if leb max count then DeliveryState.dead_lettered else DeliveryState.retry_scheduled))

abbrev pub outcome : AttemptResult → ℕ → ℕ → String
outcome res count max =
    if res.delivered
    then "DELIVERED"
    else (if res.permanent_failure
        then "PERMANENT_FAILURE"
        else (if leb max count then "DEAD_LETTERED" else "RETRYABLE_FAILURE"))

abbrev pub attempt_row : String → ℕ → String → AttemptResult → Attempt
attempt_row id count out res = record {
  delivery_id = id;
  attempt_number = count;
  outcome = out;
  provider_reference = res.provider_reference;
  error_code = res.error_code;
  started_at = res.started_at;
  completed_at = res.completed_at;
}

-- `UNIQUE(delivery_id, attempt_number)`
abbrev pub is_attempt : String → ℕ → Attempt → Bool
is_attempt id n a = a.delivery_id == id && a.attempt_number == n

abbrev pub complete_row : DeliveryState → AttemptResult → Row → Row
complete_row state res r = record r {
  state = state;
  next_attempt_at = if res.retry_at == 0 then res.completed_at else res.retry_at;
  provider_reference = res.provider_reference;
  last_error_code = res.error_code;
  lease_until = none;
  updated_at = res.completed_at;
  delivered_at = if res.delivered then some res.completed_at else r.delivered_at;
}

-- The tables after the attempt with number `count`.
abbrev pub completed : String → ℕ → ℕ → AttemptResult → Db → Db
completed id count max res db = record db {
  deliveries = update_row (has_id id) (complete_row (next_state res count max) res) db.deliveries;
  attempts = db.attempts ++ attempt_row id count (outcome res count max) res ∷ [];
}

-- `CompleteAttempt`
unfoldable pub complete_attempt :
    (ℕ → Bool) → Delivery → AttemptResult → Db → Result Error (DeliveryState × Db)
complete_attempt fault d res db = do
  fail_if (fault 0) store_failed
  fail_if (fault 1) store_failed
  r ← or_no_rows (find (has_id d.id) db.deliveries)
  fail_if (not (is_processing r.state) || not (r.attempt_count == d.attempt_count))
      (stale_lease r.state)
  fail_if (fault 2) store_failed
  fail_if (r.attempt_count == 0) check_violation
  fail_if (any (is_attempt d.id r.attempt_count) db.attempts) unique_violation
  fail_if (fault 3) store_failed
  fail_if (fault 4) store_failed
  ok (
    next_state res r.attempt_count r.max_attempts,
    completed d.id r.attempt_count r.max_attempts res db,
  )
