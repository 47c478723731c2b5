-- ===== src/Payment/Service.antt =====
-- services/payment-service/internal/application/service.go. `fetched` is the snapshot that the
-- booking service answers (`none` where it refuses or cannot be reached), `sha` the hexadecimal
-- SHA-256 sum, `md5` the upper-case MD5 sum, `to_upper` is `strings.ToUpper`.
pub mod Laws
use Prim.Native.String
use match_mate_dating_web.Base.{
  ℕ, ◌+◌, Bool, true, false, not, ◌&&◌, ◌||◌, Option, none, some, List, [], ◌∷◌, String, ◌==◌,
  string_eq,
}
use match_mate_dating_web.Base.Text.{◌<>◌}
use match_mate_dating_web.Base.Result.{Result, ok, err, fail_if, ◌>>=◌, ◌>>◌}
use match_mate_dating_web.Payment.Domain.{
  State, Payment, BookingSnapshot, Config, Notification, NotificationProblem, missing_field,
  merchant_mismatch, signature_mismatch, SnapshotProblem, validate_snapshot, verify_notification,
  request_hash,
}
use match_mate_dating_web.Payment.Store.{Db}
use match_mate_dating_web.Payment.Store
use match_mate_dating_web.Payment.Store.Callbacks
use match_mate_dating_web.Payment.Store.Checkouts

pub record Customer : Type 0 where
  pub first_name : String
  pub last_name : String
  pub email : String
  pub phone : String
  pub address : String
  pub city : String
  pub country : String

pub record Checkout : Type 0 where
  pub payment : Payment
  pub action_url : String
  pub fields : List (String × String)

pub data Error : Type 0 where
  missing_input missing_contact : Error
  booking_unavailable : Error
  refused : SnapshotProblem → Error
  store : Store.Error → Error

abbrev pub from_store : {A : Type 0} → Result Store.Error A → Result Error A
from_store (ok a) = ok a
from_store (err e) = err (store e)

abbrev pub from_snapshot : {A : Type 0} → Result SnapshotProblem A → Result Error A
from_snapshot (ok a) = ok a
from_snapshot (err e) = err (refused e)

abbrev pub fetched_or : Option BookingSnapshot → Result Error BookingSnapshot
fetched_or none = err booking_unavailable
fetched_or (some s) = ok s

abbrev pub lacks_contact : Customer → Bool
lacks_contact c =
    c.first_name == ""
    || (c.last_name == ""
        || (c.email == ""
            || (c.phone == "" || (c.address == "" || (c.city == "" || c.country == "")))))

-- The text that is hashed to the request's fingerprint, with NUL characters between its parts.
abbrev pub raw_request : String → String → Customer → String
raw_request nul booking c =
    booking <> nul <> c.first_name <> nul <> c.last_name <> nul <> c.email <> nul <> c.phone <> nul
    <> c.address <> nul <> c.city <> nul <> c.country

-- The payment that `Initiate` hands to the repository.
abbrev pub new_payment : (ℕ → String) → ℕ → BookingSnapshot → Payment
new_payment ids now s = record {
  id = ids 0;
  booking_id = s.booking_id;
  account_id = s.account_id;
  order_id = "MM-" <> ids 1;
  amount = s.amount;
  currency = s.currency;
  provider = "PAYHERE";
  provider_payment_id = "";
  state = State.pending;
  version = 1;
  created_at = now;
  updated_at = now;
  completed_at = none;
}

abbrev pub verification : Result NotificationProblem (Unit {0}) → String
verification (ok _) = "VERIFIED"
verification (err missing_field) = "REJECTED_missing required callback field"
verification (err merchant_mismatch) = "REJECTED_merchant mismatch"
verification (err signature_mismatch) = "REJECTED_signature mismatch"

-- What reaches the payment tables: checkouts, and the provider's notifications.
pub data Command : Type 0 where
  initiates :
      (ℕ → Bool)
      → (ℕ → String)
      → ℕ
      → Option BookingSnapshot
      → String
      → String
      → String
      → Customer
      → Command
  notifies : (ℕ → Bool) → (ℕ → String) → ℕ → Notification → Command

abbrev pub committed : {E A : Type 0} → Result E (A × Db) → Db → Db
committed (ok r) db = r.1
committed (err e) db = db

module _ (md5 sha to_upper : String → String) (nul : String) (config : Config)
    (urls : String × String × String) where
  -- The form that the browser posts to the provider.
  abbrev pub checkout_fields : Payment → Customer → List (String × String)
  checkout_fields p c =
      ("merchant_id", config.merchant_id)
      ∷ ("order_id", p.order_id)
      ∷ ("amount", p.amount)
      ∷ ("currency", p.currency)
      ∷ (
        "hash",
        request_hash md5 config.merchant_id p.order_id p.amount p.currency config.merchant_secret,
      )
      ∷ ("return_url", urls.0)
      ∷ ("cancel_url", urls.1)
      ∷ ("notify_url", urls.2)
      ∷ ("items", "MatchMate event booking")
      ∷ ("first_name", c.first_name)
      ∷ ("last_name", c.last_name)
      ∷ ("email", c.email)
      ∷ ("phone", c.phone)
      ∷ ("address", c.address)
      ∷ ("city", c.city)
      ∷ ("country", c.country)
      ∷ []

  unfoldable pub checkout : Customer → (Payment × Bool) × Db → Checkout × Db
  checkout c r = (
    record { payment = r.0.0; action_url = config.checkout_url; fields = checkout_fields r.0.0 c },
    r.1,
  )

  -- `Initiate`
  unfoldable pub initiate :
      (ℕ → Bool)
      → (ℕ → String)
      → ℕ
      → Option BookingSnapshot
      → String
      → String
      → String
      → Customer
      → Db
      → Result Error (Checkout × Db)
  initiate fault ids now fetched actor booking key customer db = do
    fail_if (booking == "" || key == "") missing_input
    fail_if (lacks_contact customer) missing_contact
    s ← fetched_or fetched
    from_snapshot (validate_snapshot s actor now)
    r ← from_store (
        Checkouts.initiate fault (λ n. ids (n + 2)) (new_payment ids now s) key
          (sha (raw_request nul booking customer)) db)
    ok (checkout customer r)

  -- `Callback`
  unfoldable pub callback :
      (ℕ → Bool)
      → (ℕ → String)
      → ℕ
      → Notification
      → Db
      → Result Store.Error ((Option Payment × Bool) × Db)
  callback fault ids now n db =
      Callbacks.apply_callback sha fault ids n
        (verification (verify_notification md5 to_upper n config)) now db

  unfoldable pub execute : Command → Db → Db
  execute (initiates fault ids now fetched actor booking key customer) db =
      committed (initiate fault ids now fetched actor booking key customer db) db
  execute (notifies fault ids now n) db = committed (callback fault ids now n db) db

  unfoldable pub run : List Command → Db → Db
  run [] db = db
  run (c ∷ cs) db = run cs (execute c db)
