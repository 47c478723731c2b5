-- ===== src/Booking/Store/Creations.antt =====
-- services/booking-service/internal/store/postgres/repository.go: `Create` and `Get`.
use match_mate_dating_web.Base.{
  ℕ, ◌+◌, Bool, true, false, not, ◌&&◌, Option, none, some, List, [], ◌∷◌, ◌++◌, String, ltb, ◌==◌,
  nat_eq, string_eq, if◌then◌else◌, any,
}
use match_mate_dating_web.Base.Tables.{find, update_row}
use match_mate_dating_web.Base.Result.{Result, ok, fail_if, ◌>>=◌, ◌>>◌}
use match_mate_dating_web.Booking.Domain.{Booking}
use match_mate_dating_web.Booking.Store.{
  Allocation, Db, Error, has_id, owned, of_event, has_key, collides, or_no_rows, insert_fact,
  at_venue, idempotency_record, conflict, not_found, capacity, no_rows, check_violation,
  store_failed,
}

-- `INSERT INTO capacity_allocation … ON CONFLICT(event_id) DO NOTHING`
unfoldable pub ensure_allocation : String → ℕ → ℕ → List Allocation → List Allocation
ensure_allocation event seats policy rows = elim (find (of_event event) rows) [
  | some a ↦ rows
  | none ↦
      rows
      ++ record {
        event_id = event;
        configured_capacity = seats;
        policy_version = policy;
        held_count = 0;
        confirmed_count = 0;
        version = 1;
      }
        ∷ []
]

-- `UPDATE capacity_allocation SET countColumn=countColumn+1 …` on the row of the event.
abbrev pub take_seat : Bool → Allocation → Allocation
take_seat true a = record a { confirmed_count = a.confirmed_count + 1; version = a.version + 1 }
take_seat false a = record a { held_count = a.held_count + 1; version = a.version + 1 }

abbrev pub has_room : ℕ → Allocation → Bool
has_room policy a =
    a.policy_version == policy && ltb (a.held_count + a.confirmed_count) a.configured_capacity

-- `RowsAffected() != 1` of the statement that takes a seat.
abbrev pub seat_taken : ℕ → Option Allocation → Bool
seat_taken policy none = false
seat_taken policy (some a) = has_room policy a

-- The tables after a new booking: its seat, its row, its idempotency record and its fact.
abbrev pub booked : (ℕ → String) → Booking → String → String → List Allocation → Db → Db
booked ids b key fingerprint allocations db = record {
  bookings = db.bookings ++ record b { version = 1; cancelled_at = none } ∷ [];
  allocations = update_row (of_event b.event_id) (take_seat (at_venue b)) allocations;
  idempotency =
      db.idempotency
      ++ idempotency_record b.account_id "booking.create" key fingerprint b.id b.created_at ∷ [];
  outbox =
      insert_fact ids (if at_venue b then "BookingConfirmed" else "BookingPending") b ""
        b.account_id b.created_at db.outbox;
  inbox = db.inbox;
}

-- `Create`, from the insertion of the allocation on.
unfoldable pub create_new :
    (ℕ → Bool)
    → (ℕ → String)
    → Booking
    → String
    → String
    → ℕ
    → Db
    → Result Error ((Booking × Bool) × Db)
create_new fault ids b key fingerprint seats db = do
  fail_if (fault 2) store_failed
  fail_if (not (ltb 0 seats)) check_violation
  let allocations = ensure_allocation b.event_id seats b.policy_version db.allocations
  fail_if (fault 3) store_failed
  fail_if (not (seat_taken b.policy_version (find (of_event b.event_id) allocations))) capacity
  fail_if (any (collides b) db.bookings) conflict
  fail_if (fault 4) store_failed
  fail_if (fault 5) store_failed
  fail_if (fault 6) store_failed
  fail_if (fault 7) store_failed
  ok ((b, false), booked ids b key fingerprint allocations db)

-- `Create`
unfoldable pub create :
    (ℕ → Bool)
    → (ℕ → String)
    → Booking
    → String
    → String
    → ℕ
    → Db
    → Result Error ((Booking × Bool) × Db)
create fault ids b key fingerprint seats db = do
  fail_if (fault 0) store_failed
  fail_if (fault 1) store_failed
  elim (find (has_key b.account_id "booking.create" key) db.idempotency) [
    | some r ↦ do
      fail_if (not (r.fingerprint == fingerprint)) conflict
      fail_if (fault 2) store_failed
      existing ← or_no_rows (find (has_id r.booking_id) db.bookings) no_rows
      ok ((existing, true), db)
    | none ↦ create_new fault ids b key fingerprint seats db
  ]

-- `Get`: a read of one row, with no transaction.
unfoldable pub get : (ℕ → Bool) → String → String → Db → Result Error Booking
get fault actor id db = do
  fail_if (fault 0) store_failed
  or_no_rows (find (owned id actor) db.bookings) not_found
