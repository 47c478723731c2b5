-- ===== src/Payment/Store/Effects.antt =====
-- What a callback does to the payments: when it completes one, and when it changes nothing.
use mathlib.Core.Path.{subst}
use match_mate_dating_web.Base.{
  ℕ, ◌≡◌, refl, sym, Bool, true, false, Option, none, some, [], ◌∷◌, String, arith, eq_iff,
  string_eq, any, any-append, inl, inr, ◌⊎◌, Bool-cases, Option-cases,
}
use match_mate_dating_web.Base.Tables.{find, find-update_row}
use match_mate_dating_web.Base.Text.{trim_space}
use match_mate_dating_web.Base.Result.{ok}
use match_mate_dating_web.Payment.Domain.{
  State, Payment, Notification, is_completed, callback_state,
}
use match_mate_dating_web.Payment.Store.{Db, Callback, has_id, has_order, has_fingerprint}
use match_mate_dating_web.Payment.Store.Callbacks.{
  callback_row, settle_row, settled, changes, matches, next_state, apply_callback, raw_callback,
}
use match_mate_dating_web.Payment.Store.Valid.{IsValid, found-by_id}
use match_mate_dating_web.Payment.Store.Keeps.{
  settle-eq-ok, with_callback, apply_callback-unknown, apply_callback-known, is_known,
}

callback_state-completed : (s : String) → callback_state s ≡ State.completed → trim_space s ≡ "2"
unfolding callback_state
callback_state-completed s h = ground (arith, h, eq_iff (trim_space s) "2")

-- A payment that is completed by the decision of a callback matches it.
next_state-completed :
    (n : Notification) (verification : String) (p : Payment)
    → next_state n verification p ≡ State.completed
    → (verification ≡ "VERIFIED")
      × (n.amount ≡ p.amount)
      × (n.currency ≡ p.currency)
      × (trim_space n.status_code ≡ "2")
next_state-completed n verification p h = elim (Bool-cases (matches n verification p)) [
  | inl fits ↦ (
    ground (arith, fits, eq_iff verification "VERIFIED"),
    ground (arith, fits, eq_iff n.amount p.amount),
    ground (arith, fits, eq_iff n.currency p.currency),
    callback_state-completed n.status_code (ground (arith, fits, h)),
  )
  | inr differs ↦ absurd (ground (arith, differs, h))
]

module _ (sha : String → String) (fault : ℕ → Bool) (ids : ℕ → String) (n : Notification)
    (verification : String) (now : ℕ) (db : Db) (r : (Option Payment × Bool) × Db)
    (h : apply_callback sha fault ids n verification now db ≡ ok r) where
  -- If a callback for a known order succeeds, either the payments, the facts and the audit trail
  -- stay, or the order's payment was pending, the callback decides on a final state, and the tables
  -- are those with the callback recorded and the payment settled.
  apply_callback-cases :
      (p : Payment)
      → find (has_order n.order_id) db.payments ≡ some p
      → ((r.1.payments ≡ db.payments) × (r.1.outbox ≡ db.outbox) × (r.1.audit ≡ db.audit))
        ⊎ ((changes n verification p ≡ true)
            × (r.1
                ≡ settled ids n verification now p (
                    with_callback
                      (callback_row (sha (raw_callback n)) (some p.id) n verification now)
                      db)))
  apply_callback-cases p found =
      elim (apply_callback-known sha fault ids n verification now db r p found h) [
        | inl (_, same) ↦ inl (rw same (refl, refl, refl))
        | inr (_, (s, done, same)) ↦ elim (settle-eq-ok fault ids n verification now p _ s done) [
          | inl (_, stays) ↦ inl (rw (same, stays) (refl, refl, refl))
          | inr (moves, moved) ↦ inr (moves, rw (same, moved) refl)
        ]
      ]

  pub apply_callback-unknown_order :
      find (has_order n.order_id) db.payments ≡ none
      → (r.1.payments ≡ db.payments) × (r.1.outbox ≡ db.outbox) × (r.1.audit ≡ db.audit)
  apply_callback-unknown_order missing =
      elim (Bool-cases (is_known sha fault ids n verification now db)) [
        | inl old ↦
            rw (apply_callback-unknown sha fault ids n verification now db r missing h, old)
              (refl, refl, refl)
        | inr new ↦
            rw (apply_callback-unknown sha fault ids n verification now db r missing h, new)
              (refl, refl, refl)
      ]

  -- A payment that was not completed and is afterwards has been so by a verified callback that
  -- matches it.
  pub apply_callback-completed :
      (p q : Payment)
      → IsValid db
      → find (has_order n.order_id) db.payments ≡ some p
      → is_completed p.state ≡ false
      → find (has_id p.id) r.1.payments ≡ some q
      → q.state ≡ State.completed
      → (verification ≡ "VERIFIED")
        × (n.amount ≡ p.amount)
        × (n.currency ≡ p.currency)
        × (trim_space n.status_code ≡ "2")
  apply_callback-completed p q valid found unpaid found' paid =
      let row = found-by_id db valid (has_order n.order_id) p found in
      elim (apply_callback-cases p found) [
        | inl (same, _, _) ↦
            let at_q : find (has_id p.id) db.payments ≡ some q =
              subst (λ l. find (has_id p.id) l ≡ some q) same found' in
            let p_is_q : p ≡ q = cc in absurd (ground (arith, p_is_q, unpaid, paid))
        | inr (moves, same) ↦
            let updated : find (has_id p.id) r.1.payments
                ≡ some (settle_row (next_state n verification p) n.payment_id now p) =
              subst
                (λ t.
                  find (has_id p.id) t.payments
                  ≡ some (settle_row (next_state n verification p) n.payment_id now p))
                (sym same)
                (find-update_row (has_id p.id)
                  (settle_row (next_state n verification p) n.payment_id now) db.payments p row
                  (ground (arith, eq_iff p.id p.id))) in
            let q_is : settle_row (next_state n verification p) n.payment_id now p ≡ q = cc in
            next_state-completed n verification p
              (subst (λ t. t.state ≡ State.completed) (sym q_is) paid)
      ]

  abbrev Seen : Db → Type 0
  Seen t = any (has_fingerprint (sha (raw_callback n))) t.callbacks ≡ true

  recorded : (c : Callback) → c.fingerprint ≡ sha (raw_callback n) → Seen (with_callback c db)
  recorded c e = ground (
    arith,
    e,
    any-append (has_fingerprint (sha (raw_callback n))) db.callbacks (c ∷ []),
    eq_iff c.fingerprint (sha (raw_callback n)),
  )

  pub apply_callback-seen : any (has_fingerprint (sha (raw_callback n))) r.1.callbacks ≡ true
  apply_callback-seen = elim (Option-cases (find (has_order n.order_id) db.payments)) [
    | inl missing ↦
        let is = apply_callback-unknown sha fault ids n verification now db r missing h in
        elim (Bool-cases (is_known sha fault ids n verification now db)) [
          | inl old ↦ subst (λ t. Seen t.1) (sym is) (rw old old)
          | inr new ↦ subst (λ t. Seen t.1) (sym is) (rw new (recorded _ refl))
        ]
    | inr (p, found) ↦ elim (apply_callback-known sha fault ids n verification now db r p found h) [
      | inl (old, same) ↦ subst (λ t. Seen t.1) (sym same) old
      | inr (_, (s, done, same)) ↦
          subst (λ t. Seen t.1) (sym same)
            (elim (settle-eq-ok fault ids n verification now p _ s done) [
              | inl (_, stays) ↦ subst (λ t. Seen t.1) (sym stays) (recorded _ refl)
              | inr (_, moved) ↦ subst (λ t. Seen t.1) (sym moved) (recorded _ refl)
            ])
    ]
  ]

-- A callback whose fingerprint is on record is answered, and changes nothing.
pub apply_callback-again :
    (sha : String → String) (fault : ℕ → Bool) (ids : ℕ → String) (n : Notification)
    (verification : String) (now : ℕ) (db : Db)
    → any (has_fingerprint (sha (raw_callback n))) db.callbacks ≡ true
    → (fault 0 ≡ false) × (fault 1 ≡ false) × (fault 2 ≡ false) × (fault 3 ≡ false)
    → (a : Option Payment × Bool) × (apply_callback sha fault ids n verification now db
        ≡ ok (a, db))
unfolding apply_callback
apply_callback-again sha fault ids n verification now db old up =
    elim (Option-cases (find (has_order n.order_id) db.payments)) [
      | inl missing ↦ ((none, false), ground (arith, missing, old, up))
      | inr (p, found) ↦ ((some p, true), ground (arith, found, old, up))
    ]
