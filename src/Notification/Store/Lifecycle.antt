-- ===== src/Notification/Store/Lifecycle.antt =====
-- The life of a delivery: the states that it goes through, and that a finished one is fixed.
use mathlib.Core.Path.{subst, ◌∙◌}
use match_mate_dating_web.Base.{
  ℕ, ◌+◌, ◌≤◌, ◌<◌, ◌≡◌, refl, sym, Bool, true, false, none, arith, inl, inr, ◌⊎◌, Bool-cases,
  string_eq,
}
use match_mate_dating_web.Notification.Domain.{DeliveryState, Plan}
use match_mate_dating_web.Notification.Store.{Row, is_processing, is_unfinished}
use match_mate_dating_web.Notification.Store.Events.{silenced, is_silenced}
use match_mate_dating_web.Notification.Store.Attempts.{
  AttemptResult, next_state, complete_row, claim_row, is_due,
}

-- The state that may come next: an attempt, its end, or the suppression of what is not finished.
abbrev pub leads_to : DeliveryState → DeliveryState → Bool
leads_to s DeliveryState.processing = is_unfinished s
leads_to s DeliveryState.suppressed = is_unfinished s
leads_to s DeliveryState.pending = false
leads_to s DeliveryState.delivered = is_processing s
leads_to s DeliveryState.retry_scheduled = is_processing s
leads_to s DeliveryState.permanently_failed = is_processing s
leads_to s DeliveryState.dead_lettered = is_processing s

infix 40 ◌⟶*◌
pub data ◌⟶*◌ : DeliveryState → DeliveryState → Type 0 where
  here : {s : DeliveryState} → s ⟶* s
  then_step : {s t u : DeliveryState} → leads_to s t ≡ true → t ⟶* u → s ⟶* u

⟶*_trans : {s t u : DeliveryState} → s ⟶* t → t ⟶* u → s ⟶* u
⟶*_trans here k = k
⟶*_trans (then_step e h) k = then_step e (⟶*_trans h k)

-- What is fixed when a delivery is written.
abbrev pub terms : Row → Row
terms r = record r {
  state = DeliveryState.pending;
  next_attempt_at = 0;
  attempt_count = 0;
  provider_reference = "";
  last_error_code = "";
  lease_until = none;
  updated_at = 0;
  delivered_at = none;
}

-- A delivery keeps its terms, its state moves along the lifecycle, its attempts are counted up,
-- when it is finished nothing of it changes, and an attempt that is not on does not come back.
pub record Follows (r s : Row) : Type 0 where
  pub same_terms : terms r ≡ terms s
  pub path : r.state ⟶* s.state
  pub counted : r.attempt_count ≤ s.attempt_count
  pub final : (is_unfinished r.state ≡ true) ⊎ (r ≡ s)
  pub ended :
      (is_processing r.state ≡ true)
      ⊎ ((r.attempt_count < s.attempt_count) ⊎ (is_processing s.state ≡ false))

unchanged :
    (r : Row)
    → (is_processing r.state ≡ true)
      ⊎ ((r.attempt_count < r.attempt_count) ⊎ (is_processing r.state ≡ false))
unchanged r = elim (Bool-cases (is_processing r.state)) [
  | inl busy ↦ inl busy
  | inr calm ↦ inr (inr calm)
]

ended_trans :
    (r s t : Row)
    → Follows r s
    → Follows s t
    → (is_processing r.state ≡ true)
      ⊎ ((r.attempt_count < t.attempt_count) ⊎ (is_processing t.state ≡ false))
ended_trans r s t h k = elim (h.ended) [
  | inl busy ↦ inl busy
  | inr (inl more) ↦ inr (inl (omega (arith, more, k.counted)))
  | inr (inr calm) ↦ elim (k.ended) [
    | inl busy ↦ absurd (ground (arith, busy, calm))
    | inr (inl more) ↦ inr (inl (omega (arith, more, h.counted)))
    | inr (inr still) ↦ inr (inr still)
  ]
]

pub Follows-refl : (r : Row) → Follows r r
Follows-refl r = record {
  same_terms = refl;
  path = here;
  counted = omega arith;
  final = inr refl;
  ended = unchanged r;
}

pub Follows-trans : (r s t : Row) → Follows r s → Follows s t → Follows r t
Follows-trans r s t h k = record {
  same_terms = h.same_terms ∙ k.same_terms;
  path = ⟶*_trans h.path k.path;
  counted = omega (arith, h.counted, k.counted);
  final = elim (h.final) [
    | inl unfinished ↦ inl unfinished
    | inr same ↦ subst (λ x. (is_unfinished x.state ≡ true) ⊎ (x ≡ t)) (sym same) k.final
  ];
  ended = ended_trans r s t h k;
}

pub silenced-Follows : (plan : Plan) (now : ℕ) (r : Row) → Follows r (silenced plan now r)
silenced-Follows plan now r = elim (Bool-cases (is_silenced plan.recipient_account_id r)) [
  | inl silent ↦ rw silent (record {
    same_terms = refl;
    path = then_step (ground (arith, silent)) here;
    counted = omega arith;
    final = inl (ground (arith, silent));
    ended = inr (inr refl);
  })
  | inr other ↦ rw other (Follows-refl r)
]

pub claim_row-Follows :
    (now lease : ℕ) (r : Row)
    → is_due now r ≡ true
    → Follows r (claim_row (r.attempt_count + 1) now lease r)
claim_row-Follows now lease r due =
    let alive : is_unfinished r.state ≡ true = ground (arith, due) in
    record {
      same_terms = refl;
      path = then_step alive here;
      counted = omega arith;
      final = inl alive;
      ended = inr (inl (omega arith));
    }

next_state-led_to :
    (res : AttemptResult) (count max : ℕ) (s : DeliveryState)
    → is_processing s ≡ true
    → leads_to s (next_state res count max) ≡ true
next_state-led_to res count max s h = ground (arith, h)

pub complete_row-Follows :
    (res : AttemptResult) (count max : ℕ) (r : Row)
    → is_processing r.state ≡ true
    → Follows r (complete_row (next_state res count max) res r)
complete_row-Follows res count max r h = record {
  same_terms = refl;
  path = then_step (next_state-led_to res count max r.state h) here;
  counted = omega arith;
  final = inl (ground (arith, h));
  ended = inl h;
}
