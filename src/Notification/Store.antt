-- ===== src/Notification/Store.antt =====
-- The tables of services/notification-service/migrations, for internal/store/postgres/repository.go.
-- Transactions run one after the other; `fault n` says that a call's n-th statement fails. A column
-- that holds NULL for the empty text holds the empty text, and identifiers are in canonical form.
pub mod Events
pub mod Attempts
pub mod Reads
pub mod Effects
pub mod Commands
pub mod Lifecycle
pub mod Valid
pub mod Keeps
pub mod Deliveries
pub mod Silence
pub mod Replay
use match_mate_dating_web.Base.{
  ℕ, Bool, true, false, ◌&&◌, ◌||◌, Option, none, some, List, [], ◌∷◌, String, ltb, ◌==◌, nat_eq,
  string_eq,
}
use match_mate_dating_web.Base.Result.{Result, ok, err}
use match_mate_dating_web.Notification.Domain.{DeliveryState, Template}

pub record StoredTemplate : Type 0 where
  pub template : Template
  pub active : Bool

pub record Row : Type 0 where
  pub id : String
  pub business_key : String
  pub recipient_account_id : String
  pub source_event_id : String
  pub source_event_type : String
  pub source_aggregate_id : String
  pub template_id : String
  pub category : String
  pub channel : String
  pub variables : List (String × String)
  pub state : DeliveryState
  pub scheduled_at : ℕ
  pub next_attempt_at : ℕ
  pub attempt_count : ℕ
  pub max_attempts : ℕ
  pub provider_reference : String
  pub last_error_code : String
  pub lease_until : Option ℕ
  pub created_at : ℕ
  pub updated_at : ℕ
  pub delivered_at : Option ℕ

pub record Attempt : Type 0 where
  pub delivery_id : String
  pub attempt_number : ℕ
  pub outcome : String
  pub provider_reference : String
  pub error_code : String
  pub started_at : ℕ
  pub completed_at : ℕ

pub record Preference : Type 0 where
  pub account_id : String
  pub channel : String
  pub category : String
  pub allowed : Bool

pub record Suppression : Type 0 where
  pub account_id : String
  pub reason : String
  pub created_at : ℕ
  pub expires_at : Option ℕ

pub record InboxEntry : Type 0 where
  pub event_id : String
  pub event_type : String
  pub processed_at : ℕ

pub record FeedRow : Type 0 where
  pub id : String
  pub delivery_id : String
  pub recipient_account_id : String
  pub read_at : Option ℕ
  pub created_at : ℕ

pub record Db : Type 0 where
  pub templates : List StoredTemplate
  pub deliveries : List Row
  pub attempts : List Attempt
  pub preferences : List Preference
  pub suppressions : List Suppression
  pub inbox : List InboxEntry
  pub feed : List FeedRow

pub data Error : Type 0 where
  store_failed no_rows check_violation unique_violation : Error
  stale_lease : DeliveryState → Error

abbrev pub or_no_rows : {A : Type 0} → Option A → Result Error A
or_no_rows none = err no_rows
or_no_rows (some a) = ok a

abbrev pub has_id : String → Row → Bool
has_id id r = r.id == id

abbrev pub has_business_key : String → Row → Bool
has_business_key key r = r.business_key == key

abbrev pub is_processing : DeliveryState → Bool
is_processing DeliveryState.processing = true
is_processing _ = false

abbrev pub is_suppressed : DeliveryState → Bool
is_suppressed DeliveryState.suppressed = true
is_suppressed _ = false

abbrev pub is_pending : DeliveryState → Bool
is_pending DeliveryState.pending = true
is_pending _ = false

-- `state IN ('PENDING','RETRY_SCHEDULED')`
abbrev pub is_waiting : DeliveryState → Bool
is_waiting DeliveryState.pending = true
is_waiting DeliveryState.retry_scheduled = true
is_waiting _ = false

-- `state IN ('PENDING','RETRY_SCHEDULED','PROCESSING')`
abbrev pub is_unfinished : DeliveryState → Bool
is_unfinished s = is_waiting s || is_processing s
