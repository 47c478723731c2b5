-- ===== src/Booking/Store.antt =====
-- services/booking-service/internal/store/postgres/repository.go, with the tables of
-- services/booking-service/migrations. A transaction runs on its own, the others before or after
-- it (the source takes row locks), and works on a copy of the tables that only its commit keeps.
-- `fault n` says that the call's n-th round trip to the database fails; `ids n` is the n-th result
-- of `uuid.NewString` in the call.
pub mod Creations
pub mod Cancellations
pub mod Expirations
pub mod Payments
pub mod Seats
pub mod Moves
pub mod Ids
pub mod Valid
pub mod Keeps
pub mod Lifecycle
pub mod Evolution
pub mod Replay
pub mod Expiry
use match_mate_dating_web.Base.{
  ℕ, zero, suc, ◌+◌, ◌-◌, ◌≡◌, Bool, true, false, not, ◌&&◌, ◌||◌, Option, none, some, List, [],
  ◌∷◌, ◌++◌, String, leb, ltb, ◌==◌, nat_eq, string_eq, if◌then◌else◌, any, filter, take, length,
}
use match_mate_dating_web.Base.Tables.{find, update_row}
use match_mate_dating_web.Base.Result.{Result, ok, err, fail_if, ◌>>=◌, ◌>>◌}
use match_mate_dating_web.Booking.Domain.{
  State, Booking, is_pending, is_confirmed, is_cancelled, is_expired,
}

pub record Allocation : Type 0 where
  pub event_id : String
  pub configured_capacity : ℕ
  pub policy_version : ℕ
  pub held_count : ℕ
  pub confirmed_count : ℕ
  pub version : ℕ

pub record IdempotencyRecord : Type 0 where
  pub actor_id : String
  pub operation : String
  pub key : String
  pub fingerprint : String
  pub booking_id : String
  pub created_at : ℕ
  pub expires_at : ℕ

-- The keys of the JSON object in a row of the outbox.
pub record FactPayload : Type 0 where
  pub booking_id : String
  pub event_id : String
  pub account_id : String
  pub amount : String
  pub currency : String
  pub state : State
  pub payment_method : String

-- A row of the outbox, with the object that its payload encodes.
pub record Fact : Type 0 where
  pub event_id : String
  pub event_type : String
  pub aggregate_id : String
  pub correlation_id : String
  pub causation_id : String
  pub actor_id : String
  pub payload : FactPayload
  pub occurred_at : ℕ

pub record Db : Type 0 where
  pub bookings : List Booking
  pub allocations : List Allocation
  pub idempotency : List IdempotencyRecord
  pub outbox : List Fact
  pub inbox : List String

abbrev pub empty : Db
empty = record { bookings = []; allocations = []; idempotency = []; outbox = []; inbox = [] }

-- The errors of the service, and those of the driver.
pub data Error : Type 0 where
  conflict not_found capacity invalid dependency : Error
  unknown_booking no_rows check_violation store_failed : Error

abbrev pub has_id : String → Booking → Bool
has_id id b = b.id == id

abbrev pub owned : String → String → Booking → Bool
owned id actor b = b.id == id && b.account_id == actor

abbrev pub of_event : String → Allocation → Bool
of_event event a = a.event_id == event

abbrev pub has_key : String → String → String → IdempotencyRecord → Bool
has_key actor operation key r = r.actor_id == actor && (r.operation == operation && r.key == key)

-- The index `booking_active_account_event`: its states, and the rows that collide with a new one.
abbrev pub is_active : State → Bool
is_active State.pending = true
is_active State.confirmed = true
is_active State.payment_review = true
is_active _ = false

abbrev pub collides : Booking → Booking → Bool
collides b old =
    b.id == old.id
    || (is_active b.state
        && is_active old.state
        && b.account_id == old.account_id
        && b.event_id == old.event_id)

abbrev pub one_day : ℕ
one_day = 86400000000000

abbrev pub or_no_rows : {A : Type 0} → Option A → Error → Result Error A
or_no_rows none e = err e
or_no_rows (some a) e = ok a

-- `insertFact`
unfoldable pub insert_fact :
    (ℕ → String) → String → Booking → String → String → ℕ → List Fact → List Fact
insert_fact ids event_type b causation actor at outbox =
    outbox
    ++ record {
      event_id = ids 0;
      event_type = event_type;
      aggregate_id = b.id;
      correlation_id = ids 1;
      causation_id = causation;
      actor_id = actor;
      payload = record {
        booking_id = b.id;
        event_id = b.event_id;
        account_id = b.account_id;
        amount = b.amount;
        currency = b.currency;
        state = b.state;
        payment_method = b.payment_method;
      };
      occurred_at = at;
    }
      ∷ []

abbrev pub at_venue : Booking → Bool
at_venue b = b.payment_method == "AT_VENUE"

-- `UPDATE capacity_allocation SET countColumn=countColumn-1 … AND countColumn>0`
abbrev pub free_seat : Bool → Allocation → Allocation
free_seat true a =
    if ltb 0 a.confirmed_count
    then record a { confirmed_count = a.confirmed_count - 1; version = a.version + 1 }
    else a
free_seat false a =
    if ltb 0 a.held_count
    then record a { held_count = a.held_count - 1; version = a.version + 1 }
    else a

abbrev pub idempotency_record : String → String → String → String → String → ℕ → IdempotencyRecord
idempotency_record actor operation key fingerprint id at = record {
  actor_id = actor;
  operation = operation;
  key = key;
  fingerprint = fingerprint;
  booking_id = id;
  created_at = at;
  expires_at = at + one_day;
}
