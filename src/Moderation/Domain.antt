-- ===== src/Moderation/Domain.antt =====
-- services/moderation-service/internal/domain: models.go and validation.go. The types that Go
-- declares on strings and reads from requests stay texts; the statuses, which only the service sets,
-- are data. `is_uuid` says whether `uuid.Parse` accepts a text. An instant of zero is Go's zero time.
use Prim.Native.Char.{Char, code}
use match_mate_dating_web.Base.{
  ℕ, zero, suc, Bool, true, false, not, ◌&&◌, ◌||◌, Option, none, some, List, [], ◌∷◌, String, ltb,
  leb, ◌==◌, nat_eq, string_eq, any, length,
}
use match_mate_dating_web.Base.Maps.{insert}
use match_mate_dating_web.Base.Text.{byte_length, is_digit, trim_space}

pub record Principal : Type 0 where
  pub subject : String
  pub roles : List String

-- `HasRole`
abbrev pub has_role : Principal → String → Bool
has_role p want = any (λ r. r == want) p.roles

pub data ReportStatus : Type 0 where
  opened triaged investigating actioned dismissed : ReportStatus

pub data Severity : Type 0 where
  low medium high critical : Severity

pub record EvidenceInput : Type 0 where
  pub reference : String
  pub media_type : String
  pub sha256 : String
  pub retain_until : Option ℕ

pub record CreateReportInput : Type 0 where
  pub target_type : String
  pub target_id : String
  pub category : String
  pub description : String
  pub event_id : String
  pub evidence : List EvidenceInput

pub data ActionState : Type 0 where
  active expired reversed : ActionState

pub data AppealState : Type 0 where
  appealed upheld reversed : AppealState

abbrev pub target_types : List String
target_types = "ACCOUNT" ∷ "PROFILE" ∷ "EVENT" ∷ "BOOKING" ∷ "PAIRING" ∷ []

abbrev pub categories : List String
categories =
    "HARASSMENT" ∷ "SAFETY" ∷ "IMPERSONATION" ∷ "CONTACT_SHARING" ∷ "INAPPROPRIATE_CONTENT"
    ∷ "FRAUD" ∷ "OTHER" ∷ []

abbrev pub action_classes : List String
action_classes =
    "CONTENT_HIDE" ∷ "PROFILE_RESTRICTION" ∷ "EVENT_EXCLUSION" ∷ "ACCOUNT_SUSPENSION"
    ∷ "MATCHMAKING_EXCLUSION" ∷ "PAIRING_INVALIDATION" ∷ "REVEAL_PREVENTION" ∷ []

abbrev pub one_of : List String → String → Bool
one_of names s = any (λ n. n == s) names

-- `[a-fA-F0-9]`
abbrev pub is_hex : Char → Bool
is_hex c =
    is_digit c
    || ((leb b'a' (code c) && leb (code c) b'f') || (leb b'A' (code c) && leb (code c) b'F'))

unfoldable pub hex_digits : ℕ → String → Bool
hex_digits zero String.[] = true
hex_digits zero (String.◌∷◌ c s) = false
hex_digits (suc n) String.[] = false
hex_digits (suc n) (String.◌∷◌ c s) = is_hex c && hex_digits n s

-- `sha256Pattern`
abbrev pub sha256_pattern : String → Bool
sha256_pattern s = hex_digits 64 s

abbrev pub is_outside : ℕ → ℕ → ℕ → Bool
is_outside least most n = ltb n least || ltb most n

abbrev pub bad_evidence : EvidenceInput → Bool
bad_evidence e =
    ltb (byte_length (trim_space e.reference)) 3
    || (ltb 500 (byte_length e.reference)
        || (ltb 100 (byte_length e.media_type) || not (sha256_pattern e.sha256)))

-- `if bad { errors[field] = text }`
abbrev pub flag : Bool → String → String → List (String × String) → List (String × String)
flag true field text errors = insert field text errors
flag false field text errors = errors

-- `ValidateReport`
unfoldable pub validate_report : (String → Bool) → CreateReportInput → List (String × String)
validate_report is_uuid i =
    flag (any bad_evidence i.evidence) "evidence" "contains invalid reference metadata" (
      flag (ltb 5 (length i.evidence)) "evidence" "may contain at most 5 references" (
        flag (not (i.event_id == "") && not (is_uuid i.event_id)) "eventId" "must be a UUID" (
          flag (is_outside 10 2000 (byte_length (trim_space i.description))) "description"
            "must contain 10 to 2000 characters"
            (flag (not (one_of categories i.category)) "category" "is unsupported" (
              flag (not (one_of target_types i.target_type)) "targetType" "is unsupported"
                (flag (not (is_uuid i.target_id)) "targetId" "must be a UUID" []))))))

abbrev pub ends_early : ℕ → Option ℕ → Bool
ends_early effective none = false
ends_early effective (some t) = leb t effective

-- `ValidAction`
unfoldable pub valid_action : String → String → String → ℕ → Option ℕ → List (String × String)
valid_action class scope reason effective expires =
    flag (ends_early effective expires) "expiresAt" "must be after effectiveAt" (
      flag (effective == 0) "effectiveAt" "is required" (
        flag (ltb (byte_length (trim_space reason)) 10 || ltb 1000 (byte_length reason)) "reason"
          "must contain 10 to 1000 characters"
          (flag (ltb (byte_length (trim_space scope)) 1 || ltb 200 (byte_length scope)) "scope"
            "is required and limited to 200 characters"
            (flag (not (one_of action_classes class)) "actionClass" "is unsupported" []))))
