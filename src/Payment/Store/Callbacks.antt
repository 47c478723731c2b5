-- ===== src/Payment/Store/Callbacks.antt =====
-- services/payment-service/internal/store/postgres/repository.go: `ApplyCallback`.
use match_mate_dating_web.Base.{
  ℕ, ◌+◌, Bool, true, false, not, ◌&&◌, Option, none, some, [], ◌∷◌, ◌++◌, String, ◌==◌, nat_eq,
  string_eq, if◌then◌else◌, any,
}
use match_mate_dating_web.Base.Tables.{find, update_row}
use match_mate_dating_web.Base.Result.{Result, ok, fail_if, ◌>>=◌, ◌>>◌}
use match_mate_dating_web.Base.Text.{◌<>◌}
use match_mate_dating_web.Payment.Domain.{
  State, Payment, Notification, is_pending, is_completed, is_review, callback_state,
}
use match_mate_dating_web.Payment.Store.{
  Callback, Db, Error, has_id, has_order, has_fingerprint, payment_fact, unique_violation,
  store_failed,
}

-- The text that is hashed to the fingerprint of a callback.
abbrev pub raw_callback : Notification → String
raw_callback n =
    n.merchant_id <> "|" <> n.order_id <> "|" <> n.payment_id <> "|" <> n.amount <> "|"
    <> n.currency <> "|" <> n.status_code <> "|" <> n.signature

abbrev pub matches : Notification → String → Payment → Bool
matches n verification p =
    verification == "VERIFIED" && (n.amount == p.amount && n.currency == p.currency)

abbrev pub next_state : Notification → String → Payment → State
next_state n verification p =
    if matches n verification p then callback_state n.status_code else State.review

abbrev pub reason : Notification → String → Payment → String
reason n verification p =
    if matches n verification p then "PROVIDER_STATUS_" <> n.status_code else "CALLBACK_MISMATCH"

abbrev pub callback_event : State → String
callback_event next =
    if is_review next
    then "PaymentReviewRequired"
    else (if is_completed next then "PaymentCompleted" else "PaymentFailed")

-- `UPDATE payment SET state=…` on the row of the payment.
abbrev pub settle_row : State → String → ℕ → Payment → Payment
settle_row next provider_id now p = record p {
  state = next;
  provider_payment_id = provider_id;
  version = p.version + 1;
  updated_at = now;
  completed_at = if is_completed next then some now else p.completed_at;
}

-- The unique column `provider_payment_id`, which holds NULL for the empty text.
abbrev pub takes_provider_id : String → String → Payment → Bool
takes_provider_id id provider_id old =
    not (provider_id == "") && (not (old.id == id) && old.provider_payment_id == provider_id)

abbrev pub callback_row : String → Option String → Notification → String → ℕ → Callback
callback_row fp payment n verification now = record {
  fingerprint = fp;
  payment_id = payment;
  order_id = n.order_id;
  provider_payment_id = n.payment_id;
  verification_result = verification;
  received_at = now;
}

abbrev pub settled : (ℕ → String) → Notification → String → ℕ → Payment → Db → Db
settled ids n verification now p db =
    let next = next_state n verification p in
    record {
      payments = update_row (has_id p.id) (settle_row next n.payment_id now) db.payments;
      idempotency = db.idempotency;
      callbacks = db.callbacks;
      audit =
          db.audit
          ++ record {
            payment_id = p.id;
            action = "CALLBACK";
            to_state = next;
            actor_id = "system:payhere";
            reason_code = reason n verification p;
            occurred_at = now;
          }
            ∷ [];
      outbox = db.outbox ++ payment_fact (ids 2) (callback_event next) p "system:payhere" now ∷ [];
    }

abbrev pub changes : Notification → String → Payment → Bool
changes n verification p = is_pending p.state && not (is_pending (next_state n verification p))

-- `ApplyCallback`, for a known payment and a fingerprint that is new.
unfoldable pub settle :
    (ℕ → Bool)
    → (ℕ → String)
    → Notification
    → String
    → ℕ
    → Payment
    → Db
    → Result Error ((Payment × Bool) × Db)
settle fault ids n verification now p db =
    if changes n verification p
    then (do
      fail_if (any (takes_provider_id p.id n.payment_id) db.payments) unique_violation
      fail_if (fault 4) store_failed
      fail_if (fault 5) store_failed
      fail_if (fault 6) store_failed
      fail_if (fault 3) store_failed
      ok (
        (record p { state = next_state n verification p }, false),
        settled ids n verification now p db,
      ))
    else (do fail_if (fault 3) store_failed; ok ((p, true), db))

-- `ApplyCallback`; `sha` is the hexadecimal SHA-256 sum. `none` stands for the zero payment.
unfoldable pub apply_callback :
    (String → String)
    → (ℕ → Bool)
    → (ℕ → String)
    → Notification
    → String
    → ℕ
    → Db
    → Result Error ((Option Payment × Bool) × Db)
apply_callback sha fault ids n verification now db = do
  fail_if (fault 0) store_failed
  fail_if (fault 1) store_failed
  fail_if (fault 2) store_failed
  let fp = sha (raw_callback n)
  let known = any (has_fingerprint fp) db.callbacks
  elim (find (has_order n.order_id) db.payments) [
    | none ↦ do
      fail_if (fault 3) store_failed
      ok (
        (none, false),
        if known then db else record db {
          callbacks = db.callbacks ++ callback_row fp none n "REVIEW_UNKNOWN_ORDER" now ∷ [];
        },
      )
    | some p ↦ if known then (do fail_if (fault 3) store_failed; ok ((some p, true), db)) else (do
      r ← settle fault ids n verification now p (record db {
        callbacks = db.callbacks ++ callback_row fp (some p.id) n verification now ∷ [];
      })
      ok ((some r.0.0, r.0.1), r.1))
  ]
