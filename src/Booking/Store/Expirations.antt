-- ===== src/Booking/Store/Expirations.antt =====
-- services/booking-service/internal/store/postgres/repository.go: `Expire`.
use match_mate_dating_web.Base.{
  ℕ, ◌+◌, Bool, false, ◌&&◌, List, [], ◌∷◌, String, leb, nat_eq, string_eq, if◌then◌else◌, filter,
  take, length,
}
use match_mate_dating_web.Base.Tables.{update_row}
use match_mate_dating_web.Base.Result.{Result, ok, fail_if, ◌>>=◌, ◌>>◌}
use match_mate_dating_web.Booking.Domain.{State, Booking, is_pending}
use match_mate_dating_web.Booking.Store.{
  Db, Error, has_id, of_event, insert_fact, free_seat, store_failed,
}

-- `ORDER BY expires_at`
unfoldable pub insert_by_expiry : Booking → List Booking → List Booking
insert_by_expiry b [] = b ∷ []
insert_by_expiry b (c ∷ cs) =
    let rest = insert_by_expiry b cs in
    if leb b.expires_at c.expires_at then b ∷ c ∷ cs else c ∷ rest

unfoldable pub sort_by_expiry : List Booking → List Booking
unfolding insert_by_expiry
sort_by_expiry [] = []
sort_by_expiry (b ∷ bs) = insert_by_expiry b (sort_by_expiry bs)

-- `WHERE state='PENDING_PAYMENT' AND expires_at<=$1`
abbrev pub is_due : ℕ → Booking → Bool
is_due now b = is_pending b.state && leb b.expires_at now

unfoldable pub due : ℕ → ℕ → List Booking → List Booking
unfolding sort_by_expiry
due now limit bookings = take limit (sort_by_expiry (filter (is_due now) bookings))

abbrev pub expire_row : Booking → Booking
expire_row b = record b { state = State.expired; version = b.version + 1 }

-- The fact's payload has the new state.
abbrev pub expired_by : (ℕ → String) → ℕ → Booking → Db → Db
expired_by ids now b db = record db {
  bookings = update_row (has_id b.id) expire_row db.bookings;
  allocations = update_row (of_event b.event_id) (free_seat false) db.allocations;
  outbox =
      insert_fact ids "HoldExpired" (record b { state = State.expired }) "" "system:booking-expiry"
        now db.outbox;
}

-- The loop of `Expire`. Each round makes three round trips and draws two identifiers.
unfoldable pub expire_each : (ℕ → Bool) → (ℕ → String) → ℕ → List Booking → Db → Result Error Db
expire_each fault ids now [] db = ok db
expire_each fault ids now (b ∷ bs) db = do
  fail_if (fault 0) store_failed
  fail_if (fault 1) store_failed
  fail_if (fault 2) store_failed
  expire_each (λ n. fault (n + 3)) (λ n. ids (n + 2)) now bs (expired_by ids now b db)

-- `Expire`
unfoldable pub expire : (ℕ → Bool) → (ℕ → String) → ℕ → ℕ → Db → Result Error (ℕ × Db)
expire fault ids now limit db = do
  fail_if (fault 0) store_failed
  fail_if (fault 1) store_failed
  let list = due now limit db.bookings
  db' ← expire_each (λ n. fault (n + 3)) ids now list db
  fail_if (fault 2) store_failed
  ok (length list, db')
