-- ===== src/Payment/Store/Settlement.antt =====
-- services/payment-service/internal/store/postgres/repository.go: what `ApplyCallback` does to the
-- tables, field by field.
use mathlib.Core.Path.{subst, ap, ◌∙◌}
use match_mate_dating_web.Base.{
  ℕ, ◌+◌, ◌≡◌, refl, sym, Bool, true, false, not, ◌&&◌, ◌==◌, if◌then◌else◌, ◌++◌, Option, some, [],
  ◌∷◌, String, arith, string_eq, any, inl, inr, ◌⊎◌,
}
use match_mate_dating_web.Base.Tables.{find, update_row}
use match_mate_dating_web.Base.Result.{ok}
use match_mate_dating_web.Payment.Domain.{
  State, Payment, Notification, is_pending, is_completed, callback_state,
}
use match_mate_dating_web.Payment.Store.{
  Db, Callback, Audit, Fact, payment_fact, has_id, has_order, has_fingerprint,
}
use match_mate_dating_web.Payment.Store.Callbacks.{
  callback_event, reason, settled, changes, next_state, apply_callback, raw_callback,
}
use match_mate_dating_web.Payment.Store.Keeps.{settle-eq-ok, with_callback, apply_callback-known}

-- The state that a notification leads to.
abbrev pub outcome : Notification → String → Payment → State
outcome n verification p =
    if verification == "VERIFIED" && (n.amount == p.amount && n.currency == p.currency)
    then callback_state n.status_code
    else State.review

-- The fact that tells of a final state.
pub data Tells : State → String → Type 0 where
  of_completed : Tells State.completed "PaymentCompleted"
  of_failed : Tells State.failed "PaymentFailed"
  of_review : Tells State.review "PaymentReviewRequired"

callback_event-Tells : (s : State) → is_pending s ≡ false → Tells s (callback_event s)
callback_event-Tells State.pending h = absurd (cc)
callback_event-Tells State.completed h = of_completed
callback_event-Tells State.failed h = of_failed
callback_event-Tells State.review h = of_review

-- The tables after a notification that settles the payment `p` with the state `s`.
pub record IsSettled (n : Notification) (now : ℕ) (p : Payment) (s : State) (db after : Db)
    : Type 0 where
  pub waiting : is_pending p.state ≡ true
  pub final : is_pending s ≡ false
  pub payments :
      after.payments
      ≡ update_row
          (has_id p.id)
          (λ q. record q {
            state = s;
            provider_payment_id = n.payment_id;
            version = q.version + 1;
            updated_at = now;
            completed_at = if is_completed s then some now else q.completed_at;
          })
          db.payments
  pub row : Audit
  pub audited : after.audit ≡ db.audit ++ row ∷ []
  pub audit_terms :
      (row.payment_id ≡ p.id)
      × (row.action ≡ "CALLBACK")
      × (row.to_state ≡ s)
      × (row.actor_id ≡ "system:payhere")
      × (row.occurred_at ≡ now)
  pub fact : Fact
  pub announced : after.outbox ≡ db.outbox ++ fact ∷ []
  pub fact_terms :
      Tells s fact.event_type
      × (fact.aggregate_id ≡ p.id)
      × (fact.booking_id ≡ p.booking_id)
      × (fact.amount ≡ p.amount)
      × (fact.currency ≡ p.currency)
      × (fact.occurred_at ≡ now)

settled-IsSettled :
    (ids : ℕ → String) (n : Notification) (verification : String) (now : ℕ) (p : Payment)
    (c : Callback) (db : Db)
    → changes n verification p ≡ true
    → IsSettled n now p
        (outcome n verification p)
        db
        (settled ids n verification now p (with_callback c db))
settled-IsSettled ids n verification now p c db moves =
    let final : is_pending (next_state n verification p) ≡ false = ground (arith, moves) in
    record {
      waiting = ground (arith, moves);
      final = final;
      payments = refl;
      row = record {
        payment_id = p.id;
        action = "CALLBACK";
        to_state = outcome n verification p;
        actor_id = "system:payhere";
        reason_code = reason n verification p;
        occurred_at = now;
      };
      audited = refl;
      audit_terms = (refl, refl, refl, refl, refl);
      fact =
          payment_fact (ids 2) (callback_event (outcome n verification p)) p "system:payhere" now;
      announced = refl;
      fact_terms = (callback_event-Tells _ final, refl, refl, refl, refl, refl);
    }

module _ (sha : String → String) (fault : ℕ → Bool) (ids : ℕ → String) (n : Notification)
    (verification : String) (now : ℕ) (db : Db) (r : (Option Payment × Bool) × Db)
    (h : apply_callback sha fault ids n verification now db ≡ ok r) where
  -- If a callback for a known order succeeds, with the outcome that its status has when it is verified
  -- and names the payment's amount and currency, and REVIEW when not: either its fingerprint was on
  -- record, or the payment or the outcome decides nothing, and payments, facts and audit trail stay;
  -- or the payment was pending, the outcome is final, the payment has it, and there are one more
  -- audit row and one more fact, which tell of it.
  pub apply_callback-settles :
      (p : Payment)
      → find (has_order n.order_id) db.payments ≡ some p
      → (((any (has_fingerprint (sha (raw_callback n))) db.callbacks ≡ true)
            ⊎ ((is_pending p.state && not (is_pending (outcome n verification p))) ≡ false))
          × (r.1.payments ≡ db.payments)
          × (r.1.outbox ≡ db.outbox)
          × (r.1.audit ≡ db.audit))
        ⊎ IsSettled n now p (outcome n verification p) db r.1
  apply_callback-settles p found =
      elim (apply_callback-known sha fault ids n verification now db r p found h) [
        | inl (old, same) ↦ inl (
          inl old,
          ap (λ t. t.1.payments) same,
          ap (λ t. t.1.outbox) same,
          ap (λ t. t.1.audit) same,
        )
        | inr (_, (s, done, same)) ↦ elim (settle-eq-ok fault ids n verification now p _ s done) [
          | inl (idle, stays) ↦
              let is = ap (λ t. t.1) same ∙ ap (λ t. t.1) stays in
              inl (inr idle, ap (λ t. t.payments) is, ap (λ t. t.outbox) is, ap (λ t. t.audit) is)
          | inr (moves, moved) ↦ inr (
              subst (IsSettled n now p (outcome n verification p) db)
                (sym (ap (λ t. t.1) same ∙ ap (λ t. t.1) moved))
                (settled-IsSettled ids n verification now p _ db moves))
        ]
      ]
