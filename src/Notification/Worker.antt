-- ===== src/Notification/Worker.antt =====
-- services/notification-service/internal/delivery/worker.go. `execute` is `text/template`,
-- `resolver` the recipient resolver, if there is one, and `send` the provider, which returns a
-- reference and perhaps an error. `clock n` is the n-th reading of the clock. The claim and the
-- completion are two transactions, `claim_fault` and `complete_fault` their failing statements.
pub mod Retries
pub mod Drain
use match_mate_dating_web.Base.{
  ℕ, zero, suc, ◌+◌, Bool, true, false, not, ◌&&◌, Option, none, some, List, [], String, ◌==◌,
  string_eq, if◌then◌else◌,
}
use match_mate_dating_web.Base.Result.{Result, ok, err}
use match_mate_dating_web.Notification.Domain.{
  Delivery, RenderedMessage, RenderProblem, FailureKind, SendFailure, render, retry_delay,
  add_duration,
}
use match_mate_dating_web.Notification.Store.{Db, Error}
use match_mate_dating_web.Notification.Store.Attempts.{AttemptResult, claim_due, complete_attempt}

-- An error of the resolver or the provider: a `SendFailure`, or any other.
pub data SendError : Type 0 where
  failure : SendFailure → SendError
  other : SendError

pub record Provider : Type 0 where
  pub execute : String → List (String × String) → Option String
  pub resolver : Option (String → Result SendError String)
  pub send : Delivery → RenderedMessage → String → String × Option SendError

pub record Worker : Type 0 where
  pub lease : ℕ
  pub retry_base : ℕ

abbrev pub is_permanent : FailureKind → Bool
is_permanent FailureKind.permanent = true
is_permanent FailureKind.retryable = false

-- The result of an attempt that the provider has answered.
abbrev pub after_send : ℕ → ℕ → String × Option SendError → AttemptResult
after_send started done (reference, none) = record {
  delivered = true;
  permanent_failure = false;
  provider_reference = reference;
  error_code = "";
  started_at = started;
  completed_at = done;
  retry_at = 0;
}
after_send started done (reference, some other) = record {
  delivered = false;
  permanent_failure = false;
  provider_reference = reference;
  error_code = "PROVIDER_UNAVAILABLE";
  started_at = started;
  completed_at = done;
  retry_at = 0;
}
after_send started done (reference, some (failure f)) = record {
  delivered = false;
  permanent_failure = is_permanent f.kind;
  provider_reference = reference;
  error_code = if f.code == "" then "PROVIDER_UNAVAILABLE" else f.code;
  started_at = started;
  completed_at = done;
  retry_at = 0;
}

abbrev pub not_rendered : ℕ → ℕ → AttemptResult
not_rendered started done = record {
  delivered = false;
  permanent_failure = true;
  provider_reference = "";
  error_code = "TEMPLATE_RENDER_INVALID";
  started_at = started;
  completed_at = done;
  retry_at = 0;
}

-- `Resolve`, and `Send` unless that fails.
abbrev pub send_to :
    (Delivery → RenderedMessage → String → String × Option SendError)
    → Delivery
    → RenderedMessage
    → Option (String → Result SendError String)
    → String × Option SendError
send_to send d m none = send d m ""
send_to send d m (some resolve) = elim (resolve d.recipient_account_id) [
  | ok recipient ↦ send d m recipient
  | err e ↦ ("", some e)
]

abbrev pub attempted :
    Provider → (ℕ → ℕ) → Delivery → Result RenderProblem RenderedMessage → AttemptResult
attempted p clock d (err e) = not_rendered (clock 0) (clock 1)
attempted p clock d (ok m) = after_send (clock 0) (clock 2) (send_to p.send d m p.resolver)

abbrev pub with_retry : Worker → Delivery → AttemptResult → AttemptResult
with_retry w d res =
    if not res.delivered && not res.permanent_failure
    then record res {
      retry_at = add_duration res.completed_at (retry_delay w.retry_base d.attempt_count);
    }
    else res

unfoldable pub attempt_result : Worker → Provider → (ℕ → ℕ) → Delivery → AttemptResult
attempt_result w p clock d =
    with_retry w d (attempted p clock d (render p.execute d.template d.variables))

-- The answer of `RunOnce`, with the database after it.
abbrev pub finished : {A : Type 0} → Result Error (A × Db) → Db → (Bool × Option Error) × Db
finished (ok r) db = ((true, none), r.1)
finished (err e) db = ((true, some e), db)

abbrev pub process :
    Worker → Provider → (ℕ → Bool) → (ℕ → ℕ) → Option Delivery → Db → (Bool × Option Error) × Db
process w p complete_fault clock none db = ((false, none), db)
process w p complete_fault clock (some d) db =
    finished (complete_attempt complete_fault d (attempt_result w p clock d) db) db

-- `RunOnce`
unfoldable pub run_once :
    Worker → Provider → (ℕ → Bool) → (ℕ → Bool) → (ℕ → ℕ) → Db → (Bool × Option Error) × Db
run_once w p claim_fault complete_fault clock db =
    elim (claim_due claim_fault (clock 0) w.lease db) [
      | err e ↦ ((false, some e), db)
      | ok r ↦ process w p complete_fault clock r.0 r.1
    ]

-- `n` calls of `RunOnce`, each with its own readings of the clock: how many found work, and the
-- tables after them.
unfoldable pub rounds : Worker → Provider → (ℕ → Bool) → (ℕ → Bool) → (ℕ → ℕ → ℕ) → ℕ → Db → ℕ × Db
rounds w p claim_fault complete_fault clocks zero db = (0, db)
rounds w p claim_fault complete_fault clocks (suc n) db =
    let r = run_once w p claim_fault complete_fault (clocks n) db in
    let rest = rounds w p claim_fault complete_fault clocks n r.1 in
    ((if r.0.0 then 1 else 0) + rest.0, rest.1)
