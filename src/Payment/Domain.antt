-- ===== src/Payment/Domain.antt =====
-- services/payment-service/internal/domain/payment.go and internal/payhere/payhere.go.
-- `md5` is the upper-case hexadecimal MD5 sum, `to_upper` is `strings.ToUpper`.
use Prim.Native.Char.{code}
use match_mate_dating_web.Base.{
  ℕ, Bool, true, false, not, ◌&&◌, ◌||◌, Option, String, ltb, ◌==◌, nat_eq, string_eq,
  if◌then◌else◌,
}
use match_mate_dating_web.Base.Result.{Result, fail_if, ◌>>◌}
use match_mate_dating_web.Base.Text.{◌<>◌, is_digit, trim_space, currency_pattern}

pub data State : Type 0 where
  pending completed failed review : State

abbrev pub is_pending : State → Bool
is_pending State.pending = true
is_pending _ = false

abbrev pub is_completed : State → Bool
is_completed State.completed = true
is_completed _ = false

abbrev pub is_review : State → Bool
is_review State.review = true
is_review _ = false

pub record Payment : Type 0 where
  pub id : String
  pub booking_id : String
  pub account_id : String
  pub order_id : String
  pub amount : String
  pub currency : String
  pub provider : String
  pub provider_payment_id : String
  pub state : State
  pub version : ℕ
  pub created_at : ℕ
  pub updated_at : ℕ
  pub completed_at : Option ℕ

pub record BookingSnapshot : Type 0 where
  pub booking_id : String
  pub account_id : String
  pub amount : String
  pub currency : String
  pub status : String
  pub expires_at : ℕ

-- `\.[0-9]{2}$`
abbrev two_cents : String → Bool
two_cents (String.◌∷◌ a (String.◌∷◌ b (String.◌∷◌ c String.[]))) =
    code a == b'.' && (is_digit b && is_digit c)
two_cents _ = false

-- `[0-9]*\.[0-9]{2}$`
unfoldable pub digits_and_cents : String → Bool
digits_and_cents String.[] = false
digits_and_cents (String.◌∷◌ c s) =
    let rest = digits_and_cents s in if is_digit c then rest else two_cents (String.◌∷◌ c s)

-- `moneyPattern`: `^(0|[1-9][0-9]*)\.[0-9]{2}$`
unfoldable pub money_pattern : String → Bool
unfolding digits_and_cents
money_pattern String.[] = false
money_pattern (String.◌∷◌ c s) =
    if code c == b'0' then two_cents s else is_digit c && digits_and_cents s

pub data SnapshotProblem : Type 0 where
  not_accessible not_pending hold_expired invalid_price : SnapshotProblem

unfoldable pub validate_snapshot : BookingSnapshot → String → ℕ → Result SnapshotProblem (Unit {0})
validate_snapshot s actor now = do
  fail_if (s.booking_id == "" || not (s.account_id == actor)) not_accessible
  fail_if (not (s.status == "PENDING_PAYMENT")) not_pending
  fail_if (not (ltb now s.expires_at)) hold_expired
  fail_if (not (money_pattern s.amount) || not (currency_pattern s.currency)) invalid_price

unfoldable pub callback_state : String → State
callback_state status =
    let code = trim_space status in
    if code == "2"
    then State.completed
    else (if code == "-1" || (code == "-2" || code == "-3") then State.failed else State.pending)

pub record Config : Type 0 where
  pub merchant_id : String
  pub merchant_secret : String
  pub checkout_url : String

pub record Notification : Type 0 where
  pub merchant_id : String
  pub order_id : String
  pub payment_id : String
  pub amount : String
  pub currency : String
  pub status_code : String
  pub signature : String

pub data NotificationProblem : Type 0 where
  missing_field merchant_mismatch signature_mismatch : NotificationProblem

unfoldable pub request_hash :
    (String → String) → String → String → String → String → String → String
request_hash md5 merchant order amount currency secret =
    md5 (merchant <> order <> amount <> currency <> md5 secret)

unfoldable pub notification_hash : (String → String) → Notification → String → String
notification_hash md5 n secret =
    md5 (n.merchant_id <> n.order_id <> n.amount <> n.currency <> n.status_code <> md5 secret)

unfoldable pub verify_notification :
    (String → String)
    → (String → String)
    → Notification
    → Config
    → Result NotificationProblem (Unit {0})
verify_notification md5 to_upper n config = do
  fail_if
      (n.merchant_id == ""
        || (n.order_id == ""
            || (n.amount == ""
                || (n.currency == "" || (n.status_code == "" || n.signature == "")))))
      missing_field
  fail_if (not (n.merchant_id == config.merchant_id)) merchant_mismatch
  fail_if (not (notification_hash md5 n config.merchant_secret == to_upper n.signature))
      signature_mismatch
