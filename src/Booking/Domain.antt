-- ===== src/Booking/Domain.antt =====
-- services/booking-service/internal/domain/booking.go.
-- A `time.Time` is the number of nanoseconds since Go's zero time.
use Prim.Native.Char.{code}
use Prim.Native.String
use match_mate_dating_web.Base.Text.{byte_length, is_digit}
use match_mate_dating_web.Base.{
  ℕ, zero, suc, Bool, true, false, not, ◌&&◌, ◌||◌, Option, none, some, String, ltb, ◌==◌, nat_eq,
  string_eq, if◌then◌else◌,
}
use match_mate_dating_web.Base.Result.{Result, fail_if, ◌>>◌}

pub data State : Type 0 where
  pending confirmed expired cancelled payment_review : State

pub record Booking : Type 0 where
  pub id : String
  pub account_id : String
  pub event_id : String
  pub state : State
  pub payment_method : String
  pub amount : String
  pub currency : String
  pub policy_version : ℕ
  pub expires_at : ℕ
  pub version : ℕ
  pub created_at : ℕ
  pub confirmed_at : Option ℕ
  pub cancelled_at : Option ℕ

pub record EventSnapshot : Type 0 where
  pub event_id : String
  pub status : String
  pub price : String
  pub currency : String
  pub payment_options : String
  pub configured_capacity : ℕ
  pub capacity_policy_version : ℕ
  pub registration_closes_at : ℕ

abbrev pub is_pending : State → Bool
is_pending State.pending = true
is_pending _ = false

abbrev pub is_confirmed : State → Bool
is_confirmed State.confirmed = true
is_confirmed _ = false

abbrev pub is_cancelled : State → Bool
is_cancelled State.cancelled = true
is_cancelled _ = false

abbrev pub is_expired : State → Bool
is_expired State.expired = true
is_expired _ = false

unfoldable pub allowed_payment_method : String → String → Bool
allowed_payment_method given method =
    let options = if given == "" then "ONLINE" else given in
    (method == "ONLINE" && (options == "ONLINE" || options == "BOTH"))
    || (method == "AT_VENUE" && (options == "AT_VENUE" || options == "BOTH"))

-- `[0-9]{1,2}$`
abbrev pub one_or_two_digits : String → Bool
one_or_two_digits String.[] = false
one_or_two_digits (String.◌∷◌ c String.[]) = is_digit c
one_or_two_digits (String.◌∷◌ c (String.◌∷◌ d String.[])) = is_digit c && is_digit d
one_or_two_digits (String.◌∷◌ c (String.◌∷◌ d (String.◌∷◌ e s))) = false

-- `(\.[0-9]{1,2})?$`
abbrev pub cents : String → Bool
cents String.[] = true
cents (String.◌∷◌ c s) = code c == b'.' && one_or_two_digits s

-- `[0-9]{0,n}(\.[0-9]{1,2})?$`
unfoldable pub more_digits : ℕ → String → Bool
more_digits n String.[] = true
more_digits zero (String.◌∷◌ c s) = cents (String.◌∷◌ c s)
more_digits (suc n) (String.◌∷◌ c s) =
    let rest = more_digits n s in if is_digit c then rest else cents (String.◌∷◌ c s)

-- `moneyPattern`: `^(0|[1-9][0-9]{0,9})(\.[0-9]{1,2})?$`
unfoldable pub money_pattern : String → Bool
unfolding more_digits
money_pattern String.[] = false
money_pattern (String.◌∷◌ c s) = if code c == b'0' then cents s else is_digit c && more_digits 9 s

-- `strings.SplitN(value, ".", 2)[1]`, if the value contains a point.
unfoldable pub after_point : String → Option String
after_point String.[] = none
after_point (String.◌∷◌ c s) = let rest = after_point s in if code c == b'.' then some s else rest

unfoldable pub normalize_money : String → String
normalize_money value = elim (after_point value) [
  | none ↦ String.◌++◌ value ".00"
  | some part ↦ if byte_length part == 1 then String.◌++◌ value "0" else value
]

-- The reasons for which `ValidateEvent` refuses an event.
pub data EventProblem : Type 0 where
  not_open registration_closed misconfigured : EventProblem

abbrev pub known_options : String → Bool
known_options o = o == "" || (o == "ONLINE" || (o == "AT_VENUE" || o == "BOTH"))

-- `to_upper` is `strings.ToUpper`.
unfoldable pub validate_event :
    (String → String) → EventSnapshot → ℕ → Result EventProblem (Unit {0})
validate_event to_upper e now = do
  fail_if (e.event_id == "" || not (e.status == "REGISTRATION_OPEN")) not_open
  fail_if (not (ltb now e.registration_closes_at)) registration_closed
  fail_if
      (ltb e.configured_capacity 1
        || (not (money_pattern e.price)
            || (not (byte_length e.currency == 3)
                || (not (e.currency == to_upper e.currency)
                    || not (known_options e.payment_options)))))
      misconfigured
