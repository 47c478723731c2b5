-- ===== src/Event/Domain.antt =====
-- services/event-service/internal/domain: event.go and validation.go. An instant is a number, and
-- zero is Go's zero time. `known_zone` says whether `time.LoadLocation` knows a zone.
use Prim.Native.Char.{code}
use match_mate_dating_web.Base.{
  ℕ, zero, suc, Bool, true, false, not, ◌&&◌, ◌||◌, List, [], String, ltb, ◌==◌, nat_eq, string_eq,
  if◌then◌else◌, any,
}
use match_mate_dating_web.Base.Maps.{insert}
use match_mate_dating_web.Base.Text.{byte_length, is_digit, trim_space, currency_pattern}

pub data Status : Type 0 where
  draft published registration_open registration_closed cancelled : Status

pub record Event : Type 0 where
  pub id : String
  pub organizer_id : String
  pub name : String
  pub description : String
  pub venue_name : String
  pub broad_location : String
  pub time_zone : String
  pub starts_at : ℕ
  pub ends_at : ℕ
  pub registration_opens_at : ℕ
  pub registration_closes_at : ℕ
  pub price : String
  pub currency : String
  pub payment_options : String
  pub image_version : ℕ
  pub configured_capacity : ℕ
  pub capacity_policy_version : ℕ
  pub matching_ruleset_version : String
  pub status : Status
  pub version : ℕ
  pub created_at : ℕ
  pub updated_at : ℕ

pub record CreateInput : Type 0 where
  pub organizer_id : String
  pub name : String
  pub description : String
  pub venue_name : String
  pub broad_location : String
  pub time_zone : String
  pub starts_at : ℕ
  pub ends_at : ℕ
  pub registration_opens_at : ℕ
  pub registration_closes_at : ℕ
  pub price : String
  pub currency : String
  pub payment_options : String
  pub configured_capacity : ℕ
  pub matching_ruleset_version : String

pub record Principal : Type 0 where
  pub subject : String
  pub roles : List String

abbrev pub has_role : Principal → String → Bool
has_role p role = any (λ r. r == role) p.roles

-- The body of `CanTransition`'s map, a row for each status.
unfoldable pub can_transition : Status → Status → Bool
can_transition Status.draft Status.published = true
can_transition Status.draft Status.cancelled = true
can_transition Status.published Status.registration_open = true
can_transition Status.published Status.cancelled = true
can_transition Status.registration_open Status.registration_closed = true
can_transition Status.registration_open Status.cancelled = true
can_transition Status.registration_closed Status.cancelled = true
can_transition _ _ = false

-- `(\.[0-9]{1,2})?$`
abbrev cents : String → Bool
cents String.[] = true
cents (String.◌∷◌ a (String.◌∷◌ b String.[])) = code a == b'.' && is_digit b
cents (String.◌∷◌ a (String.◌∷◌ b (String.◌∷◌ c String.[]))) =
    code a == b'.' && (is_digit b && is_digit c)
cents _ = false

-- `[0-9]{0,n}(\.[0-9]{1,2})?$`
unfoldable pub more_digits : ℕ → String → Bool
more_digits zero s = cents s
more_digits (suc n) String.[] = true
more_digits (suc n) (String.◌∷◌ c s) =
    let rest = more_digits n s in if is_digit c then rest else cents (String.◌∷◌ c s)

-- `money`: `^(0|[1-9][0-9]{0,9})(\.[0-9]{1,2})?$`
unfoldable pub money : String → Bool
unfolding more_digits
money String.[] = false
money (String.◌∷◌ c s) = if code c == b'0' then cents s else is_digit c && more_digits 9 s

abbrev pub known_options : String → Bool
known_options o = o == "" || (o == "ONLINE" || (o == "AT_VENUE" || o == "BOTH"))

-- `if problem { f[field] = text }`
abbrev pub problem_if : Bool → String → String → List (String × String) → List (String × String)
problem_if true field text f = insert field text f
problem_if false field text f = f

-- The tests of `Validate`, in its order.
module _ (known_zone : String → Bool) (in_ : CreateInput) where
  abbrev pub bad_name : Bool
  bad_name =
      ltb (byte_length (trim_space in_.name)) 3 || ltb 120 (byte_length (trim_space in_.name))

  abbrev pub bad_location : Bool
  bad_location = trim_space in_.broad_location == "" || ltb 120 (byte_length in_.broad_location)

  abbrev pub bad_end : Bool
  bad_end = in_.starts_at == 0 || not (ltb in_.starts_at in_.ends_at)

  abbrev pub bad_window : Bool
  bad_window =
      in_.registration_opens_at == 0
      || not (ltb in_.registration_opens_at in_.registration_closes_at)

  abbrev pub bad_closing : Bool
  bad_closing = not (ltb in_.registration_closes_at in_.starts_at)

  abbrev pub bad_capacity : Bool
  bad_capacity = ltb in_.configured_capacity 1 || ltb 10000 in_.configured_capacity

  unfoldable pub validate : List (String × String)
  validate =
      problem_if (trim_space in_.matching_ruleset_version == "") "matchingRulesetVersion" "required"
        (problem_if bad_capacity "configuredCapacity" "must be between 1 and 10000" (
          problem_if (not (known_options in_.payment_options)) "paymentOptions"
            "must be ONLINE, AT_VENUE, or BOTH"
            (problem_if (not (currency_pattern in_.currency)) "currency"
              "must be an uppercase ISO 4217 code"
              (problem_if (not (money in_.price)) "price"
                "must be a non-negative decimal with at most two fraction digits"
                (problem_if bad_closing "registrationClosesAt" "must be before startsAt" (
                  problem_if bad_window "registrationClosesAt" "must be after registrationOpensAt" (
                    problem_if bad_end "endsAt" "must be after startsAt" (
                      problem_if (not (known_zone in_.time_zone)) "timeZone"
                        "must be an IANA time zone"
                        (problem_if bad_location "broadLocation"
                          "required and at most 120 characters"
                          (problem_if (ltb 2000 (byte_length (trim_space in_.description)))
                            "description" "must not exceed 2000 characters"
                            (problem_if bad_name "name" "must contain 3 to 120 characters" (
                              problem_if (trim_space in_.organizer_id == "") "organizerId"
                                "required" []))))))))))))
