-- ===== src/Booking/Store/Cancellations.antt =====
-- services/booking-service/internal/store/postgres/repository.go: `Cancel`.
use match_mate_dating_web.Base.{
  ℕ, ◌+◌, Bool, true, false, not, none, some, [], ◌∷◌, ◌++◌, String, ◌==◌, nat_eq, string_eq,
  if◌then◌else◌,
}
use match_mate_dating_web.Base.Tables.{find, update_row}
use match_mate_dating_web.Base.Result.{Result, ok, fail_if, ◌>>=◌, ◌>>◌}
use match_mate_dating_web.Booking.Domain.{State, Booking, is_pending, is_cancelled}
use match_mate_dating_web.Booking.Store.{
  Db, Error, has_id, owned, of_event, has_key, or_no_rows, insert_fact, at_venue, free_seat,
  idempotency_record, conflict, not_found, no_rows, store_failed,
}

abbrev pub cancel_row : ℕ → Booking → Booking
cancel_row now b = record b {
  state = State.cancelled;
  cancelled_at = some now;
  version = b.version + 1;
}

-- The tables after a cancellation: the row, its seat, the idempotency record and the fact.
abbrev pub cancelled_by : (ℕ → String) → String → String → String → ℕ → Booking → Db → Db
cancelled_by ids actor id key now b db = record {
  bookings = update_row (has_id b.id) (cancel_row now) db.bookings;
  allocations = update_row (of_event b.event_id) (free_seat (at_venue b)) db.allocations;
  idempotency = db.idempotency ++ idempotency_record actor "booking.cancel" key id b.id now ∷ [];
  outbox = insert_fact ids "BookingCancelled" (cancel_row now b) "" actor now db.outbox;
  inbox = db.inbox;
}

-- `Cancel`, from the state of the booking on.
unfoldable pub cancel_found :
    (ℕ → Bool)
    → (ℕ → String)
    → String
    → String
    → String
    → ℕ
    → Booking
    → Db
    → Result Error ((Booking × Bool) × Db)
cancel_found fault ids actor id key now b db =
    if is_cancelled b.state then (do fail_if (fault 3) store_failed; ok ((b, true), db)) else do
      fail_if (not (is_pending b.state)) conflict
      fail_if (fault 3) store_failed
      fail_if (fault 4) store_failed
      fail_if (fault 5) store_failed
      fail_if (fault 6) store_failed
      fail_if (fault 7) store_failed
      ok ((cancel_row now b, false), cancelled_by ids actor id key now b db)

-- `Cancel`
unfoldable pub cancel :
    (ℕ → Bool)
    → (ℕ → String)
    → String
    → String
    → String
    → ℕ
    → Db
    → Result Error ((Booking × Bool) × Db)
cancel fault ids actor id key now db = do
  fail_if (fault 0) store_failed
  fail_if (fault 1) store_failed
  elim (find (has_key actor "booking.cancel" key) db.idempotency) [
    | some r ↦ do
      fail_if (not (r.fingerprint == id)) conflict
      fail_if (fault 2) store_failed
      b ← or_no_rows (find (owned r.booking_id actor) db.bookings) no_rows
      ok ((b, true), db)
    | none ↦ do
      fail_if (fault 2) store_failed
      b ← or_no_rows (find (owned id actor) db.bookings) not_found
      cancel_found fault ids actor id key now b db
  ]
