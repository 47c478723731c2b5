-- ===== src/Payment/Store/Valid.antt =====
-- The invariant of the payment tables: one payment for a booking, and one final fact for a payment
-- that is settled.
use mathlib.Core.Path.{subst}
use match_mate_dating_web.Base.{
  ℕ, ◌≡◌, refl, ◌≢◌, Bool, true, false, ◌&&◌, ◌||◌, Option, none, some, [], ◌∷◌, String, arith,
  eq_iff, ◌==◌, string_eq, if◌then◌else◌, any, count, count-append, inl, inr, Bool-cases,
}
use match_mate_dating_web.Base.Tables.{
  find, find-append, find-none-any, find-update_row, find-update_row_other, All-found,
}
use match_mate_dating_web.Base.Keys.{
  HasUniqueKeys, HasUniqueKeys-append, HasUniqueKeys-update_row, HasUniqueKeys-find,
}
use match_mate_dating_web.Payment.Domain.{State, Payment, Notification, is_pending}
use match_mate_dating_web.Payment.Store.{Db, Fact, has_id, collides, payment_fact}
use match_mate_dating_web.Payment.Store.Checkouts.{new_row, initiated}
use match_mate_dating_web.Payment.Store.Callbacks.{
  settled, settle_row, changes, next_state, callback_event,
}

-- A fact that tells other services how a payment ended.
abbrev pub is_final : String → Fact → Bool
is_final id f =
    f.aggregate_id == id
    && (f.event_type == "PaymentCompleted"
        || (f.event_type == "PaymentFailed" || f.event_type == "PaymentReviewRequired"))

abbrev pub settlements : Option Payment → ℕ
settlements none = 0
settlements (some p) = if is_pending p.state then 0 else 1

pub record IsValid (db : Db) : Type 0 where
  pub unique_ids : HasUniqueKeys (λ p. p.id) db.payments
  pub unique_bookings : HasUniqueKeys (λ p. p.booking_id) db.payments
  pub announced :
      (id : String) → count (is_final id) db.outbox ≡ settlements (find (has_id id) db.payments)

-- A row that any search finds is the one that its identifier finds.
pub found-by_id :
    (db : Db)
    → IsValid db
    → (q : Payment → Bool) (p : Payment) → find q db.payments ≡ some p
    → find (has_id p.id) db.payments ≡ some p
found-by_id db valid q p found =
    All-found (λ a. find (has_id a.id) db.payments ≡ some a) q db.payments p
      (HasUniqueKeys-find (λ a. a.id) db.payments valid.unique_ids) found

module _ (ids : ℕ → String) (p : Payment) (key fingerprint : String) (db : Db)
    (free : any (collides p) db.payments ≡ false) (valid : IsValid db) where
  no_id : find (has_id p.id) db.payments ≡ none
  no_id = find-none-any (collides p) (has_id p.id) db.payments (λ a h. ground (arith, h)) free

  no_booking : find (λ a. a.booking_id == p.booking_id) db.payments ≡ none
  no_booking =
      find-none-any (collides p) (λ a. a.booking_id == p.booking_id) db.payments
        (λ a h. ground (arith, h)) free

  initiated-announced :
      (id : String)
      → count (is_final id) (initiated ids p key fingerprint db).outbox
        ≡ settlements (find (has_id id) (initiated ids p key fingerprint db).payments)
  initiated-announced id = ground (
    arith,
    valid.announced id,
    no_id,
    eq_iff p.id id,
    find-append (has_id id) db.payments (new_row p),
    count-append (is_final id) db.outbox
        (payment_fact (ids 1) "PaymentInitiated" p p.account_id p.created_at ∷ []),
  )

  pub initiated-IsValid : IsValid (initiated ids p key fingerprint db)
  initiated-IsValid = record {
    unique_ids = HasUniqueKeys-append (λ a. a.id) db.payments (new_row p) valid.unique_ids no_id;
    unique_bookings =
        HasUniqueKeys-append (λ a. a.booking_id) db.payments (new_row p) valid.unique_bookings
          no_booking;
    announced = initiated-announced;
  }

module _ (ids : ℕ → String) (n : Notification) (verification : String) (now : ℕ) (p : Payment)
    (db : Db) (found : find (has_id p.id) db.payments ≡ some p)
    (moves : changes n verification p ≡ true) (valid : IsValid db) where
  abbrev next : State
  next = next_state n verification p

  final_fact :
      (id : String) (s : State)
      → is_pending s ≡ false
      → is_final id (payment_fact (ids 2) (callback_event s) p "system:payhere" now) ≡ (p.id == id)
  final_fact id State.pending h = cc
  final_fact id State.completed h = ground arith
  final_fact id State.failed h = ground arith
  final_fact id State.review h = ground arith

  settled-announced_own :
      count (is_final p.id) (settled ids n verification now p db).outbox
      ≡ settlements (find (has_id p.id) (settled ids n verification now p db).payments)
  settled-announced_own = ground (
    arith,
    valid.announced p.id,
    moves,
    found,
    eq_iff p.id p.id,
    final_fact p.id next (ground (arith, moves)),
    find-update_row (has_id p.id) (settle_row next n.payment_id now) db.payments p found,
    count-append (is_final p.id) db.outbox
        (payment_fact (ids 2) (callback_event next) p "system:payhere" now ∷ []),
  )

  settled-announced_other :
      (id : String)
      → p.id ≢ id
      → count (is_final id) (settled ids n verification now p db).outbox
        ≡ settlements (find (has_id id) (settled ids n verification now p db).payments)
  settled-announced_other id ne =
      let same_rows =
        find-update_row_other (has_id p.id) (has_id id) (settle_row next n.payment_id now)
          db.payments (λ a h. ground (arith, h, eq_iff a.id p.id, eq_iff a.id id)) in
      ground (
        arith,
        valid.announced id,
        moves,
        same_rows,
        eq_iff p.id id,
        final_fact id next (ground (arith, moves)),
        count-append (is_final id) db.outbox
            (payment_fact (ids 2) (callback_event next) p "system:payhere" now ∷ []),
      )

  pub settled-IsValid : IsValid (settled ids n verification now p db)
  settled-IsValid = record {
    unique_ids =
        HasUniqueKeys-update_row (λ a. a.id) (has_id p.id) (settle_row next n.payment_id now)
          db.payments (λ a. refl) valid.unique_ids;
    unique_bookings =
        HasUniqueKeys-update_row (λ a. a.booking_id) (has_id p.id)
          (settle_row next n.payment_id now) db.payments (λ a. refl) valid.unique_bookings;
    announced = λ id. elim (Bool-cases (p.id == id)) [
      | inl same ↦
          subst
            (λ k.
              count (is_final k) (settled ids n verification now p db).outbox
              ≡ settlements (find (has_id k) (settled ids n verification now p db).payments))
            ((eq_iff p.id id).0 same) settled-announced_own
      | inr other ↦ settled-announced_other id (ground (arith, eq_iff p.id id))
    ];
  }
