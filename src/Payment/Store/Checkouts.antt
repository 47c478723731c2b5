-- ===== src/Payment/Store/Checkouts.antt =====
-- services/payment-service/internal/store/postgres/repository.go: `Initiate` and `FindByBooking`.
use match_mate_dating_web.Base.{
  ℕ, Bool, true, false, not, none, some, [], ◌∷◌, ◌++◌, String, ◌==◌, nat_eq, string_eq, any,
}
use match_mate_dating_web.Base.Tables.{find}
use match_mate_dating_web.Base.Result.{Result, ok, fail_if, ◌>>=◌, ◌>>◌}
use match_mate_dating_web.Payment.Domain.{State, Payment}
use match_mate_dating_web.Payment.Store.{
  IdempotencyRecord, Db, Error, or_no_rows, has_id, of_booking, has_key, collides, is_positive,
  payment_fact, conflict, not_found, no_rows, check_violation, store_failed,
}

abbrev pub idempotency_record : Payment → String → String → String → IdempotencyRecord
idempotency_record p key fingerprint id = record {
  actor_id = p.account_id;
  key = key;
  fingerprint = fingerprint;
  payment_id = id;
  created_at = p.created_at;
}

-- The row that `Initiate` inserts.
abbrev pub new_row : Payment → Payment
new_row p = record p {
  provider = "PAYHERE";
  provider_payment_id = "";
  state = State.pending;
  version = 1;
  updated_at = p.created_at;
  completed_at = none;
}

abbrev pub initiated : (ℕ → String) → Payment → String → String → Db → Db
initiated ids p key fingerprint db = record {
  payments = db.payments ++ new_row p ∷ [];
  idempotency = db.idempotency ++ idempotency_record p key fingerprint p.id ∷ [];
  callbacks = db.callbacks;
  audit =
      db.audit
      ++ record {
        payment_id = p.id;
        action = "INITIATED";
        to_state = State.pending;
        actor_id = p.account_id;
        reason_code = "";
        occurred_at = p.created_at;
      }
        ∷ [];
  outbox = db.outbox ++ payment_fact (ids 1) "PaymentInitiated" p p.account_id p.created_at ∷ [];
}

-- `Initiate`, for a booking that has no payment yet.
unfoldable pub initiate_new :
    (ℕ → Bool)
    → (ℕ → String)
    → Payment
    → String
    → String
    → Db
    → Result Error ((Payment × Bool) × Db)
initiate_new fault ids p key fingerprint db = do
  fail_if (not (is_positive p.amount)) check_violation
  fail_if (any (collides p) db.payments) conflict
  fail_if (fault 3) store_failed
  fail_if (fault 4) store_failed
  fail_if (fault 5) store_failed
  fail_if (fault 6) store_failed
  fail_if (fault 7) store_failed
  ok ((p, false), initiated ids p key fingerprint db)

-- `Initiate`
unfoldable pub initiate :
    (ℕ → Bool)
    → (ℕ → String)
    → Payment
    → String
    → String
    → Db
    → Result Error ((Payment × Bool) × Db)
initiate fault ids p key fingerprint db = do
  fail_if (fault 0) store_failed
  fail_if (fault 1) store_failed
  elim (find (has_key p.account_id key) db.idempotency) [
    | some r ↦ do
      fail_if (not (r.fingerprint == fingerprint)) conflict
      fail_if (fault 2) store_failed
      existing ← or_no_rows (find (has_id r.payment_id) db.payments) no_rows
      ok ((existing, true), db)
    | none ↦ do
      fail_if (fault 2) store_failed
      elim (find (of_booking p.booking_id p.account_id) db.payments) [
        | some existing ↦ do
          fail_if (fault 3) store_failed
          fail_if (fault 4) store_failed
          ok (
            (existing, true),
            record db {
              idempotency = db.idempotency ++ idempotency_record p key fingerprint existing.id ∷ [];
            },
          )
        | none ↦ initiate_new fault ids p key fingerprint db
      ]
  ]

-- `FindByBooking`
unfoldable pub find_by_booking : (ℕ → Bool) → String → String → Db → Result Error Payment
find_by_booking fault actor booking db = do
  fail_if (fault 0) store_failed
  or_no_rows (find (of_booking booking actor) db.payments) not_found
