-- ===== src/Tests/Notifications.antt =====
-- Runs of the notification service: one booking fact, its delivery and its suppression.
use match_mate_dating_web.Base.{
  ℕ, ◌+◌, ◌*◌, ◌≤◌, ◌≡◌, ◌≢◌, refl, Bool, true, false, none, some, [], ◌∷◌, String, arith,
  string_eq, any,
}
use match_mate_dating_web.Base.Tables.{find}
use match_mate_dating_web.Base.Keys.{HasUniqueKeys}
use match_mate_dating_web.Base.Result.{ok, err}
use match_mate_dating_web.Notification.Domain.{
  Action, DeliveryState, EventEnvelope, Plan, Template, Delivery, retry_delay,
}
use match_mate_dating_web.Notification.Store.{Row, Db, has_id, stale_lease}
use match_mate_dating_web.Notification.Store.Events
use match_mate_dating_web.Notification.Store.Events.{apply_event}
use match_mate_dating_web.Notification.Store.Attempts
use match_mate_dating_web.Notification.Store.Attempts.{AttemptResult, claim_due, complete_attempt}
use match_mate_dating_web.Notification.Store.Commands
use match_mate_dating_web.Notification.Store.Commands.{
  Command, applies, claims, completes, marks, marks_all, run,
}
use match_mate_dating_web.Notification.Store.Valid.{IsValid}
use match_mate_dating_web.Notification.Store.Keeps.{run-IsValid}
use match_mate_dating_web.Notification.Store.Lifecycle.{Follows}
use match_mate_dating_web.Notification.Store.Deliveries.{
  start, start-IsValid, run-keeps_deliveries, run-notifies_once,
  complete_attempt-run-complete_attempt,
}
use match_mate_dating_web.Notification.Store.Silence.Runs.{apply_event-run-claim_due}
use match_mate_dating_web.Notification.Store.Replay.{apply_event-apply_event}
use match_mate_dating_web.Notification.Worker.Retries.{retry_delay-bounds}

abbrev pub no_fault : ℕ → Bool
no_fault n = false

abbrev some_ids : ℕ → String
some_ids n = "d1"

abbrev ids2 : ℕ → String
ids2 n = "d2"

abbrev template : Template
template = record {
  id = "t1";
  key = "booking-pending";
  version = 1;
  locale = "en";
  channel = "EMAIL";
  category = "BOOKING";
  subject_template = "Hello";
  body_template = "Pay soon";
  allowed_variables = [];
}

abbrev event : EventEnvelope
event = record {
  event_id = "e1";
  event_type = "BookingPending";
  schema_version = 1;
  occurred_at = 1;
  aggregate_id = "b1";
  correlation_id = "c1";
  causation_id = none;
  actor_id = "ann";
  payload = "";
}

abbrev plan : Plan
plan = record {
  action = Action.deliver;
  template_key = "booking-pending";
  locale = "en";
  channel = "EMAIL";
  category = "BOOKING";
  recipient_account_id = "ann";
  business_key = "notification:v1:e1:booking-pending:ann";
  source_aggregate_id = "b1";
  suppression_reason = "";
  variables = [];
}

abbrev gone : EventEnvelope
gone = record event { event_id = "e2"; event_type = "AccountDeactivated"; aggregate_id = "ann" }

abbrev silence : Plan
silence = record plan {
  action = Action.suppress;
  business_key = "";
  suppression_reason = "ACCOUNT_DEACTIVATED";
}

-- A fact about another member.
abbrev bob_event : EventEnvelope
bob_event = record event { event_id = "e3" }

abbrev bob_plan : Plan
bob_plan = record plan { recipient_account_id = "bob"; business_key = "k3" }

abbrev at_start : Db
at_start = start (record { template = template; active = true } ∷ []) [] []

abbrev pub applied : Db
applied = run (applies no_fault some_ids event plan 10 3 ∷ []) at_start

abbrev claimed : Db
claimed = run (claims no_fault 20 5 ∷ []) applied

abbrev later : AttemptResult
later = record {
  delivered = false;
  permanent_failure = false;
  provider_reference = "";
  error_code = "PROVIDER_UNAVAILABLE";
  started_at = 20;
  completed_at = 21;
  retry_at = 30;
}

at_start-IsValid : IsValid at_start
at_start-IsValid = start-IsValid (record { template = template; active = true } ∷ []) [] []

abbrev pending_row : Row
pending_row = record {
  id = "d1";
  business_key = "notification:v1:e1:booking-pending:ann";
  recipient_account_id = "ann";
  source_event_id = "e1";
  source_event_type = "BookingPending";
  source_aggregate_id = "b1";
  template_id = "t1";
  category = "BOOKING";
  channel = "EMAIL";
  variables = [];
  state = DeliveryState.pending;
  scheduled_at = 10;
  next_attempt_at = 10;
  attempt_count = 0;
  max_attempts = 3;
  provider_reference = "";
  last_error_code = "";
  lease_until = none;
  created_at = 10;
  updated_at = 10;
  delivered_at = none;
}

applied-found : find (has_id "d1") applied.deliveries ≡ some pending_row
unfolding run Commands.execute apply_event Events.perform Events.deliver Events.insert_row
    Events.insert_feed Events.upsert_suppression claim_due Attempts.first_due complete_attempt
applied-found = refl

pub applied-IsValid : IsValid applied
applied-IsValid =
    run-IsValid (applies no_fault some_ids event plan 10 3 ∷ []) at_start at_start-IsValid

run-keeps_deliveries_example :
    (s : Row) × (find (has_id "d1") (run (claims no_fault 20 5 ∷ []) applied).deliveries ≡ some s)
    × Follows pending_row s
run-keeps_deliveries_example =
    run-keeps_deliveries (claims no_fault 20 5 ∷ []) applied "d1" pending_row applied-IsValid
      applied-found

run-notifies_once_example :
    HasUniqueKeys
      (λ r. r.business_key)
      (run
        (applies no_fault some_ids event plan 10 3 ∷ applies no_fault ids2 bob_event plan 11 3 ∷ [])
        at_start).deliveries
    × HasUniqueKeys
        (λ f. f.delivery_id)
        (run
          (applies no_fault some_ids event plan 10 3
            ∷ applies no_fault ids2 bob_event plan 11 3
            ∷ [])
          at_start).feed
run-notifies_once_example =
    run-notifies_once
      (applies no_fault some_ids event plan 10 3 ∷ applies no_fault ids2 bob_event plan 11 3 ∷ [])
      (record { template = template; active = true } ∷ []) [] []

claimed-IsValid : IsValid claimed
claimed-IsValid = run-IsValid (claims no_fault 20 5 ∷ []) applied applied-IsValid

abbrev claimed_delivery : Delivery
claimed_delivery = record {
  id = "d1";
  business_key = "notification:v1:e1:booking-pending:ann";
  recipient_account_id = "ann";
  source_event_id = "e1";
  source_event_type = "BookingPending";
  source_aggregate_id = "b1";
  template = template;
  variables = [];
  state = DeliveryState.processing;
  attempt_count = 1;
  max_attempts = 3;
  created_at = 10;
  updated_at = 20;
}

abbrev retried : DeliveryState × Db
retried =
    (DeliveryState.retry_scheduled, run (completes no_fault claimed_delivery later ∷ []) claimed)

first-ok : complete_attempt no_fault claimed_delivery later claimed ≡ ok retried
unfolding run Commands.execute apply_event Events.perform Events.deliver Events.insert_row
    Events.insert_feed Events.upsert_suppression claim_due Attempts.first_due complete_attempt
first-ok = refl

complete_attempt-run-complete_attempt_example :
    (s : DeliveryState) × (complete_attempt no_fault claimed_delivery later
        (run (claims no_fault 40 5 ∷ []) retried.1)
      ≡ err (stale_lease s))
complete_attempt-run-complete_attempt_example =
    complete_attempt-run-complete_attempt no_fault no_fault claimed_delivery later later claimed
      retried (claims no_fault 40 5 ∷ []) claimed-IsValid first-ok (refl, refl)

abbrev silenced : Bool × Db
silenced = (false, run (applies no_fault ids2 gone silence 25 3 ∷ []) claimed)

silenced-ok : apply_event no_fault ids2 gone silence 25 3 claimed ≡ ok silenced
unfolding run Commands.execute apply_event Events.perform Events.deliver Events.insert_row
    Events.insert_feed Events.upsert_suppression claim_due Attempts.first_due complete_attempt
silenced-ok = refl

claimed-has_no_gone : any (Events.has_event "e2") claimed.inbox ≡ false
unfolding run Commands.execute apply_event Events.perform Events.deliver Events.insert_row
    Events.insert_feed Events.upsert_suppression claim_due Attempts.first_due complete_attempt
claimed-has_no_gone = refl

abbrev bob_delivery : Delivery
bob_delivery = record claimed_delivery {
  id = "d2";
  business_key = "k3";
  recipient_account_id = "bob";
  source_event_id = "e3";
  created_at = 26;
  updated_at = 50;
}

abbrev bob_claimed : Db
bob_claimed =
    run (applies no_fault ids2 bob_event bob_plan 26 3 ∷ claims no_fault 50 5 ∷ []) silenced.1

bob_claimed-ok :
    claim_due no_fault 50 5 (run (applies no_fault ids2 bob_event bob_plan 26 3 ∷ []) silenced.1)
    ≡ ok (some bob_delivery, bob_claimed)
unfolding run Commands.execute apply_event Events.perform Events.deliver Events.insert_row
    Events.insert_feed Events.upsert_suppression claim_due Attempts.first_due complete_attempt
bob_claimed-ok = refl

apply_event-run-claim_due_example : bob_delivery.recipient_account_id ≢ silence.recipient_account_id
apply_event-run-claim_due_example =
    apply_event-run-claim_due no_fault no_fault ids2 gone silence 25 3 50 5 claimed bob_claimed
      silenced (applies no_fault ids2 bob_event bob_plan 26 3 ∷ []) bob_delivery claimed-IsValid
      refl claimed-has_no_gone silenced-ok bob_claimed-ok

apply_event-apply_event_example :
    apply_event no_fault some_ids gone plan 70 3 silenced.1 ≡ ok (false, silenced.1)
apply_event-apply_event_example =
    apply_event-apply_event no_fault no_fault ids2 some_ids gone silence plan 25 70 3 3 claimed
      silenced silenced-ok (refl, refl, refl)

retry_delay-bounds_example :
    (retry_delay 30 1 ≡ 30)
    × ((30 ≤ retry_delay 30 9) × (retry_delay 30 9 ≤ 30 * 64))
    × (retry_delay 30 (2 + 2) ≡ 2 * retry_delay 30 (2 + 1))
retry_delay-bounds_example = retry_delay-bounds 30 9 2 (omega arith) (omega arith)
