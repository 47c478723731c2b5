-- ===== src/Payment/Store.antt =====
-- services/payment-service/internal/store/postgres/repository.go, with the tables of
-- services/payment-service/migrations. As in the booking store a transaction runs on its own,
-- `fault n` says that the call's n-th round trip fails, `ids n` is its n-th `uuid.NewString`.
pub mod Checkouts
pub mod Reconciliation
pub mod Callbacks
pub mod Valid
pub mod Keeps
pub mod Effects
pub mod Settlement
use Prim.Native.Char.{code}
use match_mate_dating_web.Base.{
  ℕ, ◌+◌, Bool, true, false, not, ◌&&◌, ◌||◌, Option, none, some, List, [], ◌∷◌, ◌++◌, String, leb,
  ◌==◌, nat_eq, string_eq, if◌then◌else◌, any,
}
use match_mate_dating_web.Base.Tables.{find, update_row}
use match_mate_dating_web.Base.Text.{◌<>◌}
use match_mate_dating_web.Base.Result.{Result, ok, err, fail_if, ◌>>=◌, ◌>>◌}
use match_mate_dating_web.Payment.Domain.{
  State, Payment, Notification, is_pending, is_completed, is_review, callback_state,
}

pub record IdempotencyRecord : Type 0 where
  pub actor_id : String
  pub key : String
  pub fingerprint : String
  pub payment_id : String
  pub created_at : ℕ

pub record Callback : Type 0 where
  pub fingerprint : String
  pub payment_id : Option String
  pub order_id : String
  pub provider_payment_id : String
  pub verification_result : String
  pub received_at : ℕ

pub record Audit : Type 0 where
  pub payment_id : String
  pub action : String
  pub to_state : State
  pub actor_id : String
  pub reason_code : String
  pub occurred_at : ℕ

pub record Fact : Type 0 where
  pub event_id : String
  pub event_type : String
  pub aggregate_id : String
  pub actor_id : String
  pub booking_id : String
  pub amount : String
  pub currency : String
  pub occurred_at : ℕ

pub record Db : Type 0 where
  pub payments : List Payment
  pub idempotency : List IdempotencyRecord
  pub callbacks : List Callback
  pub audit : List Audit
  pub outbox : List Fact

abbrev pub empty : Db
empty = record { payments = []; idempotency = []; callbacks = []; audit = []; outbox = [] }

pub data Error : Type 0 where
  conflict not_found no_rows check_violation unique_violation store_failed : Error

abbrev pub or_no_rows : {A : Type 0} → Option A → Error → Result Error A
or_no_rows none e = err e
or_no_rows (some a) e = ok a

abbrev pub has_id : String → Payment → Bool
has_id id p = p.id == id

abbrev pub has_order : String → Payment → Bool
has_order order p = p.order_id == order

abbrev pub of_booking : String → String → Payment → Bool
of_booking booking actor p = p.booking_id == booking && p.account_id == actor

abbrev pub has_key : String → String → IdempotencyRecord → Bool
has_key actor key r = r.actor_id == actor && r.key == key

abbrev pub has_fingerprint : String → Callback → Bool
has_fingerprint fp c = c.fingerprint == fp

-- The unique columns of `payment`.
abbrev pub collides : Payment → Payment → Bool
collides p old = old.id == p.id || (old.order_id == p.order_id || old.booking_id == p.booking_id)

-- `CHECK (amount > 0)`, on the text of an amount: some digit is not zero.
unfoldable pub is_positive : String → Bool
is_positive String.[] = false
is_positive (String.◌∷◌ c s) = (leb b'1' (code c) && leb (code c) b'9') || is_positive s

abbrev pub payment_fact : String → String → Payment → String → ℕ → Fact
payment_fact id event_type p actor at = record {
  event_id = id;
  event_type = event_type;
  aggregate_id = p.id;
  actor_id = actor;
  booking_id = p.booking_id;
  amount = p.amount;
  currency = p.currency;
  occurred_at = at;
}
