-- ===== src/Booking/Store/Payments.antt =====
-- services/booking-service/internal/store/postgres/repository.go: `ApplyPaymentEvent`.
use match_mate_dating_web.Base.{
  ℕ, ◌+◌, ◌-◌, Bool, true, false, not, ◌&&◌, ◌||◌, some, [], ◌∷◌, ◌++◌, String, ltb, ◌==◌, nat_eq,
  string_eq, if◌then◌else◌, any,
}
use match_mate_dating_web.Base.Tables.{find, update_row}
use match_mate_dating_web.Base.Result.{Result, ok, fail_if, ◌>>=◌, ◌>>◌}
use match_mate_dating_web.Booking.Domain.{State, Booking, is_pending, is_expired}
use match_mate_dating_web.Booking.Store.{
  Allocation, Db, Error, has_id, of_event, or_no_rows, insert_fact, free_seat, store_failed,
  unknown_booking,
}

-- `SET held_count=held_count-1,confirmed_count=confirmed_count+1 … AND held_count>0`
abbrev pub confirm_seat : Allocation → Allocation
confirm_seat a =
    if ltb 0 a.held_count
    then record a {
      held_count = a.held_count - 1;
      confirmed_count = a.confirmed_count + 1;
      version = a.version + 1;
    }
    else a

abbrev pub confirm_row : ℕ → Booking → Booking
confirm_row at b = record b {
  state = State.confirmed;
  confirmed_at = some at;
  version = b.version + 1;
}

abbrev pub review_row : Booking → Booking
review_row b = record b { state = State.payment_review; version = b.version + 1 }

-- The tables after a payment in time, and after one that comes too late. The facts' payloads have
-- the new state.
abbrev pub paid : (ℕ → String) → String → ℕ → Booking → Db → Db
paid ids event at b db = record db {
  bookings = update_row (has_id b.id) (confirm_row at) db.bookings;
  allocations = update_row (of_event b.event_id) confirm_seat db.allocations;
  outbox =
      insert_fact ids "BookingConfirmed"
        (record b { state = State.confirmed; confirmed_at = some at }) event "system:payment" at
        db.outbox;
}

abbrev pub paid_late : (ℕ → String) → String → ℕ → Booking → Db → Db
paid_late ids event at b db = record db {
  bookings = update_row (has_id b.id) review_row db.bookings;
  allocations =
      if is_pending b.state
      then update_row (of_event b.event_id) (free_seat false) db.allocations
      else db.allocations;
  outbox =
      insert_fact ids "BookingPaymentReviewRequired" (record b { state = State.payment_review })
        event "system:payment" at db.outbox;
}

-- What `ApplyPaymentEvent` does with the booking, up to the commit.
unfoldable pub payment_effect :
    (ℕ → Bool) → (ℕ → String) → String → String → ℕ → Booking → Db → Result Error Db
payment_effect fault ids event event_type at b db =
    if not (event_type == "PaymentCompleted")
    then ok db
    else (if is_pending b.state && ltb at b.expires_at
        then (do
          fail_if (fault 0) store_failed
          fail_if (fault 1) store_failed
          fail_if (fault 2) store_failed
          ok (paid ids event at b db))
        else (if is_pending b.state || is_expired b.state
            then (do
              fail_if (is_pending b.state && fault 0) store_failed
              fail_if (fault 1) store_failed
              fail_if (fault 2) store_failed
              ok (paid_late ids event at b db))
            else ok db))

-- `ApplyPaymentEvent`, for an event that the inbox does not hold yet.
unfoldable pub payment_new :
    (ℕ → Bool) → (ℕ → String) → String → String → String → ℕ → Db → Result Error Db
payment_new fault ids event event_type booking at db = do
  fail_if (fault 2) store_failed
  b ← or_no_rows (find (has_id booking) db.bookings) unknown_booking
  db' ← payment_effect (λ n. fault (n + 4)) ids event event_type at b db
  fail_if (fault 3) store_failed
  ok db'

-- `ApplyPaymentEvent`
unfoldable pub apply_payment_event :
    (ℕ → Bool) → (ℕ → String) → String → String → String → ℕ → Db → Result Error Db
apply_payment_event fault ids event event_type booking at db = do
  fail_if (fault 0) store_failed
  fail_if (fault 1) store_failed
  elim (any (λ seen. seen == event) db.inbox) [
    | true ↦ do fail_if (fault 2) store_failed; ok db
    | false ↦
        payment_new fault ids event event_type booking at
          (record db { inbox = db.inbox ++ event ∷ [] })
  ]
