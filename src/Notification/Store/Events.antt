-- ===== src/Notification/Store/Events.antt =====
-- `ApplyEvent` of services/notification-service/internal/store/postgres/repository.go.
use match_mate_dating_web.Base.{
  ℕ, Bool, true, false, not, ◌&&◌, ◌||◌, Option, none, some, List, [], ◌∷◌, ◌++◌, String, ltb, ◌==◌,
  nat_eq, string_eq, if◌then◌else◌, any, map,
}
use match_mate_dating_web.Base.Tables.{find, update_row}
use match_mate_dating_web.Base.Result.{Result, ok, fail_if, ◌>>=◌, ◌>>◌}
use match_mate_dating_web.Notification.Domain.{Action, DeliveryState, EventEnvelope, Plan, Template}
use match_mate_dating_web.Notification.Store.{
  StoredTemplate, Row, Preference, Suppression, InboxEntry, FeedRow, Db, Error, store_failed,
  check_violation, unique_violation, or_no_rows, has_id, has_business_key, is_unfinished,
  is_pending,
}

abbrev pub has_event : String → InboxEntry → Bool
has_event id e = e.event_id == id

-- Whether the row may serve the plan.
abbrev pub serves : Plan → StoredTemplate → Bool
serves plan s =
    s.active
    && (s.template.key == plan.template_key
        && (s.template.locale == plan.locale && s.template.channel == plan.channel))

abbrev pub newer : StoredTemplate → Option Template → Template
newer s none = s.template
newer s (some t) = if ltb s.template.version t.version then t else s.template

-- `ORDER BY version DESC LIMIT 1`
abbrev pub pick_template : Plan → List StoredTemplate → Option Template
pick_template plan [] = none
pick_template plan (s ∷ ss) =
    let rest = pick_template plan ss in if serves plan s then some (newer s rest) else rest

abbrev pub lasts : Option ℕ → ℕ → Bool
lasts none now = true
lasts (some t) now = ltb now t

abbrev pub suppresses : String → ℕ → Suppression → Bool
suppresses account now s = s.account_id == account && lasts s.expires_at now

abbrev pub prefers : Plan → Preference → Bool
prefers plan p =
    p.account_id == plan.recipient_account_id
    && (p.channel == plan.channel && p.category == plan.category)

-- `COALESCE((SELECT allowed …), true)`
abbrev pub is_preferred : Plan → List Preference → Bool
is_preferred plan ps = elim (find (prefers plan) ps) [ none ↦ true | some p ↦ p.allowed ]

abbrev pub first_state : Plan → ℕ → Db → DeliveryState
first_state plan now db =
    if any (suppresses plan.recipient_account_id now) db.suppressions
      || not (is_preferred plan db.preferences)
    then DeliveryState.suppressed
    else DeliveryState.pending

abbrev pub new_row : String → EventEnvelope → Plan → Template → DeliveryState → ℕ → ℕ → Row
new_row id e plan t state now max = record {
  id = id;
  business_key = plan.business_key;
  recipient_account_id = plan.recipient_account_id;
  source_event_id = e.event_id;
  source_event_type = e.event_type;
  source_aggregate_id = plan.source_aggregate_id;
  template_id = t.id;
  category = plan.category;
  channel = plan.channel;
  variables = plan.variables;
  state = state;
  scheduled_at = now;
  next_attempt_at = now;
  attempt_count = 0;
  max_attempts = max;
  provider_reference = "";
  last_error_code = "";
  lease_until = none;
  created_at = now;
  updated_at = now;
  delivered_at = none;
}

-- `INSERT … ON CONFLICT(business_key) DO NOTHING`
unfoldable pub insert_row : Row → List Row → Result Error (List Row)
insert_row r rows = do
  fail_if (r.max_attempts == 0) check_violation
  if any (has_business_key r.business_key) rows
      then ok rows
      else (do fail_if (any (has_id r.id) rows) unique_violation; ok (rows ++ r ∷ []))

abbrev pub feed_row : Row → FeedRow
feed_row r = record {
  id = r.id;
  delivery_id = r.id;
  recipient_account_id = r.recipient_account_id;
  read_at = none;
  created_at = r.created_at;
}

abbrev pub is_feed_of : String → FeedRow → Bool
is_feed_of id f = f.delivery_id == id

-- `INSERT INTO notification_feed_item … SELECT … ON CONFLICT(delivery_id) DO NOTHING`
unfoldable pub insert_feed : String → List Row → List FeedRow → List FeedRow
insert_feed key rows feed = elim (find (has_business_key key) rows) [
  | none ↦ feed
  | some r ↦ (if any (is_feed_of r.id) feed then feed else feed ++ feed_row r ∷ [])
]

abbrev pub has_account : String → Suppression → Bool
has_account account s = s.account_id == account

abbrev pub suppression : Plan → ℕ → Suppression
suppression plan now = record {
  account_id = plan.recipient_account_id;
  reason = plan.suppression_reason;
  created_at = now;
  expires_at = none;
}

-- `INSERT … ON CONFLICT(account_id) DO UPDATE`
unfoldable pub upsert_suppression : Suppression → List Suppression → List Suppression
upsert_suppression s ss =
    if any (has_account s.account_id) ss
    then update_row (has_account s.account_id) (λ _. s) ss
    else ss ++ s ∷ []

abbrev pub is_silenced : String → Row → Bool
is_silenced account r = r.recipient_account_id == account && is_unfinished r.state

abbrev pub silenced : Plan → ℕ → Row → Row
silenced plan now r =
    if is_silenced plan.recipient_account_id r
    then record r {
      state = DeliveryState.suppressed;
      lease_until = none;
      updated_at = now;
      last_error_code = plan.suppression_reason;
    }
    else r

abbrev pub inbox_entry : EventEnvelope → ℕ → InboxEntry
inbox_entry e now = record { event_id = e.event_id; event_type = e.event_type; processed_at = now }

abbrev pub with_inbox : EventEnvelope → ℕ → Db → Db
with_inbox e now db = record db { inbox = db.inbox ++ inbox_entry e now ∷ [] }

-- The tables after an event that suppresses an account.
abbrev pub suppressed_by : Plan → ℕ → Db → Db
suppressed_by plan now db = record db {
  deliveries = map (silenced plan now) db.deliveries;
  suppressions = upsert_suppression (suppression plan now) db.suppressions;
}

-- The tables after an event that is delivered.
abbrev pub delivered_by : Plan → DeliveryState → List Row → Db → Db
delivered_by plan state rows db = record db {
  deliveries = rows;
  feed = if is_pending state then insert_feed plan.business_key rows db.feed else db.feed;
}

-- `ApplyEvent`, for an event that is new and is to be delivered.
unfoldable pub deliver :
    (ℕ → Bool) → (ℕ → String) → EventEnvelope → Plan → ℕ → ℕ → Db → Result Error (Bool × Db)
deliver fault ids e plan now max db = do
  fail_if (fault 2) store_failed
  t ← or_no_rows (pick_template plan db.templates)
  fail_if (fault 3) store_failed
  fail_if (fault 4) store_failed
  let state = first_state plan now db
  fail_if (fault 5) store_failed
  rows ← insert_row (new_row (ids 0) e plan t state now max) db.deliveries
  fail_if (is_pending state && fault 6) store_failed
  fail_if (fault 7) store_failed
  ok (is_pending state, delivered_by plan state rows db)

-- What `ApplyEvent` does with a new event.
unfoldable pub perform :
    (ℕ → Bool)
    → (ℕ → String)
    → Action
    → EventEnvelope
    → Plan
    → ℕ
    → ℕ
    → Db
    → Result Error (Bool × Db)
perform fault ids Action.ignore e plan now max db = do
  fail_if (fault 7) store_failed
  ok (false, db)
perform fault ids Action.suppress e plan now max db = do
  fail_if (fault 2) store_failed
  fail_if (fault 3) store_failed
  fail_if (fault 7) store_failed
  ok (false, suppressed_by plan now db)
perform fault ids Action.deliver e plan now max db = deliver fault ids e plan now max db

-- `ApplyEvent`
unfoldable pub apply_event :
    (ℕ → Bool) → (ℕ → String) → EventEnvelope → Plan → ℕ → ℕ → Db → Result Error (Bool × Db)
apply_event fault ids e plan now max db = do
  fail_if (fault 0) store_failed
  fail_if (fault 1) store_failed
  if any (has_event e.event_id) db.inbox
      then (do fail_if (fault 7) store_failed; ok (false, db))
      else perform fault ids plan.action e plan now max (with_inbox e now db)
