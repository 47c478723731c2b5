-- ===== src/Notification/Router.antt =====
-- services/notification-service/internal/application/router.go. `is_uuid` says whether `uuid.Parse`
-- accepts a text; `account_payload` and `booking_payload` are `json.Unmarshal` into the two payloads.
pub mod Bookings
use match_mate_dating_web.Base.{
  ℕ, Bool, true, false, not, ◌||◌, Option, none, some, List, [], ◌∷◌, String, ◌==◌, nat_eq,
  string_eq, if◌then◌else◌, any,
}
use match_mate_dating_web.Base.Maps.{lookup_or}
use match_mate_dating_web.Base.Text.{◌<>◌}
use match_mate_dating_web.Base.Result.{Result, ok, err, fail_if, ◌>>=◌, ◌>>◌}
use match_mate_dating_web.Notification.Domain.{Action, EventEnvelope, Plan}

pub record Router : Type 0 where
  pub locale : String
  pub channel : String

-- `NewRouter`
abbrev pub new_router : String → List String → Router
new_router locale [] = record { locale = locale; channel = "DEVELOPMENT" }
new_router locale (c ∷ cs) = record {
  locale = locale;
  channel = if c == "" then "DEVELOPMENT" else c;
}

pub record BookingPayload : Type 0 where
  pub booking_id : String
  pub event_id : String
  pub account_id : String
  pub state : String

-- The causes that `ErrInvalidEvent` is wrapped with.
pub data InvalidEvent : Type 0 where
  envelope account_payload booking_payload booking_aggregate event_id : InvalidEvent

abbrev pub account_events : List String
account_events =
    "AccountRegistered" ∷ "AccountVerified" ∷ "ProfileApproved" ∷ "ProfileHidden"
    ∷ "AccountDeactivated" ∷ []

abbrev pub account_templates : List (String × String)
account_templates =
    ("AccountRegistered", "account-welcome")
    ∷ ("AccountVerified", "account-verified")
    ∷ ("ProfileApproved", "profile-approved")
    ∷ ("ProfileHidden", "profile-hidden")
    ∷ []

abbrev pub booking_events : List String
booking_events =
    "BookingPending" ∷ "BookingConfirmed" ∷ "BookingCancelled" ∷ "HoldExpired"
    ∷ "BookingPaymentReviewRequired" ∷ []

abbrev pub booking_templates : List (String × String)
booking_templates =
    ("BookingPending", "booking-pending")
    ∷ ("BookingConfirmed", "booking-confirmed")
    ∷ ("BookingCancelled", "booking-cancelled")
    ∷ ("HoldExpired", "booking-hold-expired")
    ∷ ("BookingPaymentReviewRequired", "booking-payment-review")
    ∷ []

abbrev pub one_of : List String → String → Bool
one_of names s = any (λ n. n == s) names

abbrev pub ignored : Router → Plan
ignored r = record {
  action = Action.ignore;
  template_key = "";
  locale = r.locale;
  channel = r.channel;
  category = "";
  recipient_account_id = "";
  business_key = "";
  source_aggregate_id = "";
  suppression_reason = "";
  variables = [];
}

abbrev pub business_key : EventEnvelope → String → String → String
business_key e template recipient =
    "notification:v1:" <> e.event_id <> ":" <> template <> ":" <> recipient

abbrev pub suppression : Router → EventEnvelope → String → Plan
suppression r e account = record (ignored r) {
  action = Action.suppress;
  recipient_account_id = account;
  source_aggregate_id = e.aggregate_id;
  category = "ACCOUNT";
  suppression_reason = "ACCOUNT_DEACTIVATED";
}

abbrev pub notice : Router → EventEnvelope → String → String → String → String → Plan
notice r e category template account aggregate = record (ignored r) {
  action = Action.deliver;
  template_key = template;
  category = category;
  recipient_account_id = account;
  source_aggregate_id = aggregate;
  business_key = business_key e template account;
}

abbrev pub or_invalid : {A : Type 0} → InvalidEvent → Option A → Result InvalidEvent A
or_invalid e none = err e
or_invalid e (some a) = ok a

module _ (is_uuid : String → Bool) (account_payload : String → Option String)
    (booking_payload : String → Option BookingPayload) where
  -- The branch of the account events.
  unfoldable pub route_account : Router → EventEnvelope → Result InvalidEvent Plan
  route_account r e = do
    account ← or_invalid InvalidEvent.account_payload (account_payload e.payload)
    fail_if (not (is_uuid account) || not (account == e.aggregate_id)) InvalidEvent.account_payload
    ok (
        if e.event_type == "AccountDeactivated"
        then suppression r e account
        else notice r e "ACCOUNT" (lookup_or "" e.event_type account_templates) account
            e.aggregate_id)

  -- The branch of the booking events.
  unfoldable pub route_booking : Router → EventEnvelope → Result InvalidEvent Plan
  route_booking r e = do
    p ← or_invalid InvalidEvent.booking_payload (booking_payload e.payload)
    fail_if (not (is_uuid p.account_id)) InvalidEvent.booking_payload
    fail_if (not (is_uuid p.booking_id) || not (p.booking_id == e.aggregate_id)) booking_aggregate
    fail_if (not (is_uuid p.event_id)) InvalidEvent.event_id
    ok (
        notice r e "BOOKING" (lookup_or "" e.event_type booking_templates) p.account_id
          p.booking_id)

  -- `Route`
  unfoldable pub route : Router → EventEnvelope → Result InvalidEvent Plan
  route r e = do
    fail_if
        (not (is_uuid e.event_id)
          || (e.event_type == ""
              || (not (e.schema_version == 1) || (e.occurred_at == 0 || e.aggregate_id == ""))))
        envelope
    if one_of account_events e.event_type
        then route_account r e
        else (if one_of booking_events e.event_type then route_booking r e else ok (ignored r))
