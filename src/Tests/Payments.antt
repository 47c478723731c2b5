-- ===== src/Tests/Payments.antt =====
-- Runs of the payment service, with an MD5 sum and a SHA-256 sum that return their argument.
use match_mate_dating_web.Base.{
  ℕ, ◌≡◌, refl, Bool, false, Option, none, some, [], ◌∷◌, String, count,
}
use match_mate_dating_web.Base.Tables.{find}
use match_mate_dating_web.Base.Keys.{HasUniqueKeys}
use match_mate_dating_web.Base.Result.{ok}
use match_mate_dating_web.Base.Text
use match_mate_dating_web.Base.Text.{trim_space}
use match_mate_dating_web.Payment.Domain
use match_mate_dating_web.Payment.Domain.{
  State, Payment, is_pending, BookingSnapshot, Config, Notification, notification_hash,
}
use match_mate_dating_web.Payment.Store
use match_mate_dating_web.Payment.Store.Callbacks
use match_mate_dating_web.Payment.Store.Checkouts
use match_mate_dating_web.Payment.Store.{Db, has_fingerprint, empty, has_id, has_order}
use match_mate_dating_web.Payment.Store.Callbacks.{apply_callback}
use match_mate_dating_web.Payment.Store.Valid.{IsValid, is_final, settlements}
use match_mate_dating_web.Base.{any, ◌&&◌, not, ◌⊎◌, true, ◌+◌, ◌≤◌, List, length, arith}
use match_mate_dating_web.Payment.Store.Callbacks.{changes, settled, callback_row, raw_callback}
use match_mate_dating_web.Payment.Store.Settlement.{apply_callback-settles, IsSettled, outcome}
use match_mate_dating_web.Payment.Store.Reconciliation.{
  Item, awaits, open_pending_reconciliation, scan_opens_one,
}
use match_mate_dating_web.Payment.Service
use match_mate_dating_web.Payment.Service.{Customer, Command, initiates, notifies, callback, run}
use match_mate_dating_web.Payment.Service.Laws.{
  run-IsValid, run-announces_once, callback-genuine, callback-callback,
}

abbrev no_fault : ℕ → Bool
no_fault n = false

abbrev no_ids : ℕ → String
no_ids n = "p1"

abbrev same : String → String
same s = s

abbrev config : Config
config = record { merchant_id = "m"; merchant_secret = "s"; checkout_url = "u" }

abbrev urls : String × String × String
urls = ("r", "c", "n")

abbrev ann : Customer
ann = record {
  first_name = "Ann";
  last_name = "A";
  email = "a@x";
  phone = "1";
  address = "2";
  city = "3";
  country = "4";
}

abbrev held : BookingSnapshot
held = record {
  booking_id = "b1";
  account_id = "ann";
  amount = "10.00";
  currency = "LKR";
  status = "PENDING_PAYMENT";
  expires_at = 100;
}

abbrev checkout : Command
checkout = initiates no_fault no_ids 5 (some held) "ann" "b1" "k1" ann

abbrev success : Notification
success = record {
  merchant_id = "m";
  order_id = "MM-p1";
  payment_id = "ph1";
  amount = "10.00";
  currency = "LKR";
  status_code = "2";
  signature = "mMM-p110.00LKR2s";
}

run-announces_once_example :
    HasUniqueKeys
      (λ p. p.booking_id)
      (run same same same "" config urls
        (checkout ∷ notifies no_fault no_ids 6 success ∷ [])
        empty).payments
    × ((id : String)
        → count
            (is_final id)
            (run same same same "" config urls
              (checkout ∷ notifies no_fault no_ids 6 success ∷ [])
              empty).outbox
          ≡ settlements (
              find
                (has_id id)
                (run same same same "" config urls
                  (checkout ∷ notifies no_fault no_ids 6 success ∷ [])
                  empty).payments))
run-announces_once_example =
    run-announces_once same same same "" config urls
      (checkout ∷ notifies no_fault no_ids 6 success ∷ [])

abbrev pending_payment : Payment
pending_payment = record {
  id = "p1";
  booking_id = "b1";
  account_id = "ann";
  order_id = "MM-p1";
  amount = "10.00";
  currency = "LKR";
  provider = "PAYHERE";
  provider_payment_id = "";
  state = State.pending;
  version = 1;
  created_at = 5;
  updated_at = 5;
  completed_at = none;
}

abbrev paid_payment : Payment
paid_payment = record pending_payment {
  provider_payment_id = "ph1";
  state = State.completed;
  version = 2;
  updated_at = 6;
  completed_at = some 6;
}

abbrev waiting : Db
waiting = run same same same "" config urls (checkout ∷ []) empty

waiting-IsValid : IsValid waiting
waiting-IsValid =
    run-IsValid same same same "" config urls (checkout ∷ []) empty
      (record { unique_ids = tt; unique_bookings = tt; announced = λ id. refl })

abbrev after : (Option Payment × Bool) × Db
after = (
  (some (record pending_payment { state = State.completed }), false),
  run same same same "" config urls (notifies no_fault no_ids 6 success ∷ []) waiting,
)

success-ok : callback same same same "" config urls no_fault no_ids 6 success waiting ≡ ok after
unfolding run Service.execute Service.initiate callback apply_callback Domain.validate_snapshot
    Domain.money_pattern Text.is_digit Text.currency_pattern Checkouts.initiate
    Checkouts.initiate_new Store.is_positive Service.checkout Callbacks.settle
    Domain.verify_notification notification_hash Domain.callback_state trim_space
success-ok = refl

waiting-found : find (has_order "MM-p1") waiting.payments ≡ some pending_payment
unfolding run Service.execute Service.initiate callback apply_callback Domain.validate_snapshot
    Domain.money_pattern Text.is_digit Text.currency_pattern Checkouts.initiate
    Checkouts.initiate_new Store.is_positive Service.checkout Callbacks.settle
    Domain.verify_notification notification_hash Domain.callback_state trim_space
waiting-found = refl

after-found : find (has_id "p1") after.1.payments ≡ some paid_payment
unfolding run Service.execute Service.initiate callback apply_callback Domain.validate_snapshot
    Domain.money_pattern Text.is_digit Text.currency_pattern Checkouts.initiate
    Checkouts.initiate_new Store.is_positive Service.checkout Callbacks.settle
    Domain.verify_notification notification_hash Domain.callback_state trim_space
after-found = refl

callback-genuine_example :
    ((success.merchant_id ≡ config.merchant_id)
      × (notification_hash same success config.merchant_secret ≡ same success.signature))
    × (success.amount ≡ pending_payment.amount)
    × (success.currency ≡ pending_payment.currency)
    × (trim_space success.status_code ≡ "2")
callback-genuine_example =
    callback-genuine same same same "" config urls no_fault no_ids 6 success waiting after
      pending_payment paid_payment waiting-IsValid success-ok waiting-found refl after-found refl

callback-callback_example :
    (a : Option Payment × Bool) × (callback same same same "" config urls no_fault no_ids 9 success
        after.1
      ≡ ok (a, after.1))
callback-callback_example =
    callback-callback same same same "" config urls no_fault no_fault no_ids no_ids 6 9 success
      waiting after success-ok (refl, refl, refl, refl)

success-applied : apply_callback same no_fault no_ids success "VERIFIED" 6 waiting ≡ ok after
unfolding run Service.execute Service.initiate callback apply_callback Domain.validate_snapshot
    Domain.money_pattern Text.is_digit Text.currency_pattern Checkouts.initiate
    Checkouts.initiate_new Store.is_positive Service.checkout Callbacks.settle
    Domain.verify_notification notification_hash Domain.callback_state trim_space
success-applied = refl

apply_callback-settles_example :
    (((any (has_fingerprint (same (raw_callback success))) waiting.callbacks ≡ true)
        ⊎ ((is_pending pending_payment.state
              && not (is_pending (outcome success "VERIFIED" pending_payment)))
            ≡ false))
      × (after.1.payments ≡ waiting.payments)
      × (after.1.outbox ≡ waiting.outbox)
      × (after.1.audit ≡ waiting.audit))
    ⊎ IsSettled success 6 pending_payment
        (outcome success "VERIFIED" pending_payment)
        waiting
        after.1
apply_callback-settles_example =
    apply_callback-settles same no_fault no_ids success "VERIFIED" 6 waiting after success-applied
      pending_payment waiting-found

waiting-found_by_id : find (has_id "p1") waiting.payments ≡ some pending_payment
unfolding run Service.execute Service.initiate callback apply_callback Domain.validate_snapshot
    Domain.money_pattern Text.is_digit Text.currency_pattern Checkouts.initiate
    Checkouts.initiate_new Store.is_positive Service.checkout Callbacks.settle
    Domain.verify_notification notification_hash Domain.callback_state trim_space
waiting-found_by_id = refl

none_open : count (awaits "p1") [] ≤ 1
none_open = omega arith

-- Half an hour after the checkout one item is opened.
scan_opens_one_example :
    (r : ℕ × List Item) × (open_pending_reconciliation no_fault no_ids 5 35 [] waiting ≡ ok r)
    × (length r.1 ≡ 0 + r.0)
    × (count (awaits "p1") r.1 ≡ 1)
scan_opens_one_example =
    scan_opens_one no_fault no_ids 5 35 [] waiting pending_payment waiting-IsValid
      waiting-found_by_id refl none_open refl
