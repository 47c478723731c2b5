-- ===== src/Notification/Domain.antt =====
-- services/notification-service/internal/domain/models.go. Instants and durations count
-- nanoseconds; a duration is the bit pattern of an `int64`. `execute` is `text/template` with
-- `missingkey=error`: the text that a source gives for the variables, unless it fails.
use Prim.Native.Char.{code}
use match_mate_dating_web.Base.{
  ℕ, zero, suc, ◌+◌, ◌-◌, ◌*◌, ◌^◌, ◌%◌, Bool, false, ◌||◌, Option, none, some, List, [], ◌∷◌,
  String, ltb, ◌==◌, nat_eq, string_eq, if◌then◌else◌, any,
}
use match_mate_dating_web.Base.Integers.{ℤ}
use match_mate_dating_web.Base.Maps.{lookup}
use match_mate_dating_web.Base.Result.{Result, ok, err, fail_if, ◌>>=◌, ◌>>◌}
use match_mate_dating_web.Base.Text.{trim_space}

pub data Action : Type 0 where
  deliver suppress ignore : Action

pub data DeliveryState : Type 0 where
  pending processing retry_scheduled delivered suppressed permanently_failed : DeliveryState
  dead_lettered : DeliveryState

pub record EventEnvelope : Type 0 where
  pub event_id : String
  pub event_type : String
  pub schema_version : ℕ
  pub occurred_at : ℕ
  pub aggregate_id : String
  pub correlation_id : String
  pub causation_id : Option String
  pub actor_id : String
  pub payload : String

pub record Plan : Type 0 where
  pub action : Action
  pub template_key : String
  pub locale : String
  pub channel : String
  pub category : String
  pub recipient_account_id : String
  pub business_key : String
  pub source_aggregate_id : String
  pub suppression_reason : String
  pub variables : List (String × String)

pub record Template : Type 0 where
  pub id : String
  pub key : String
  pub version : ℕ
  pub locale : String
  pub channel : String
  pub category : String
  pub subject_template : String
  pub body_template : String
  pub allowed_variables : List String

pub record Delivery : Type 0 where
  pub id : String
  pub business_key : String
  pub recipient_account_id : String
  pub source_event_id : String
  pub source_event_type : String
  pub source_aggregate_id : String
  pub template : Template
  pub variables : List (String × String)
  pub state : DeliveryState
  pub attempt_count : ℕ
  pub max_attempts : ℕ
  pub created_at : ℕ
  pub updated_at : ℕ

pub record FeedCursor : Type 0 where
  pub created_at : ℤ
  pub id : String

pub record FeedRecord : Type 0 where
  pub id : String
  pub source_event_type : String
  pub category : String
  pub template : Template
  pub variables : List (String × String)
  pub read_at : Option ℕ
  pub created_at : ℕ

pub record FeedItem : Type 0 where
  pub id : String
  pub source_event_type : String
  pub category : String
  pub title : String
  pub message : String
  pub action_path : String
  pub read_at : Option ℕ
  pub created_at : ℕ

pub record RenderedMessage : Type 0 where
  pub subject : String
  pub body : String

pub data RenderProblem : Type 0 where
  not_allowed required : String → RenderProblem
  template_failed message_invalid : RenderProblem

-- `for key := range variables`
abbrev pub all_allowed : List String → List (String × String) → Result RenderProblem (Unit {0})
all_allowed names [] = ok tt
all_allowed names ((k, v) ∷ vs) =
    let rest = all_allowed names vs in if any (λ n. n == k) names then rest else err (not_allowed k)

-- `for _, key := range t.AllowedVariables`
abbrev pub all_present : List (String × String) → List String → Result RenderProblem (Unit {0})
all_present vs [] = ok tt
all_present vs (n ∷ ns) =
    let rest = all_present vs ns in elim (lookup n vs) [ none ↦ err (required n) | some v ↦ rest ]

-- `strings.ContainsAny(s, "\r\n")`
abbrev pub has_line_break : String → Bool
has_line_break String.[] = false
has_line_break (String.◌∷◌ c s) = code c == 13 || (code c == 10 || has_line_break s)

abbrev pub rendered :
    (String → List (String × String) → Option String)
    → String
    → List (String × String)
    → Result RenderProblem String
rendered execute source vs = elim (execute source vs) [
  | none ↦ err template_failed
  | some s ↦ ok (trim_space s)
]

-- `Render`
unfoldable pub render :
    (String → List (String × String) → Option String)
    → Template
    → List (String × String)
    → Result RenderProblem RenderedMessage
render execute t vs = do
  all_allowed t.allowed_variables vs
  all_present vs t.allowed_variables
  subject ← rendered execute t.subject_template vs
  body ← rendered execute t.body_template vs
  fail_if (subject == "" || (body == "" || has_line_break subject)) message_invalid
  ok (record { subject = subject; body = body })

pub data FailureKind : Type 0 where
  retryable permanent : FailureKind

pub record SendFailure : Type 0 where
  pub kind : FailureKind
  pub code : String

-- The exponent of `RetryDelay`; an attempt below one counts as the first.
abbrev pub shift : ℕ → ℕ
shift zero = 0
shift (suc n) = if ltb 6 n then 6 else n

-- `RetryDelay`
unfoldable pub retry_delay : ℕ → ℕ → ℕ
retry_delay base attempt = (base * 2 ^ shift attempt) % 2 ^ 64

-- `t.Add(d)`, with a duration that is negative when its top bit is set.
abbrev pub add_duration : ℕ → ℕ → ℕ
add_duration t d = if ltb d (2 ^ 63) then t + d else t - (2 ^ 64 - d)
