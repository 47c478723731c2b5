-- ===== src/Booking/Store/Lifecycle.antt =====
-- The life of a booking: which changes of state the repository makes, and what it never changes.
use mathlib.Core.Path.{subst, ◌∙◌}
use match_mate_dating_web.Base.{
  ℕ, ◌≡◌, refl, sym, ◌≢◌, true, ◌||◌, Option, none, some, List, String, arith, eq_iff, ◌==◌,
  string_eq, inl, inr, Bool-cases,
}
use match_mate_dating_web.Base.Tables.{
  find, update_row, find-append, find-update_row, find-update_row_other,
}
use match_mate_dating_web.Booking.Domain.{State, Booking, is_pending, is_expired}
use match_mate_dating_web.Booking.Store.{Db, has_id}
use match_mate_dating_web.Booking.Store.Cancellations.{cancel_row, cancelled_by}
use match_mate_dating_web.Booking.Store.Expirations.{expire_row, expired_by}
use match_mate_dating_web.Booking.Store.Payments.{confirm_row, review_row, paid, paid_late}
use match_mate_dating_web.Booking.Store.Creations.{booked, ensure_allocation}

-- One change of state.
infix 40 ◌⟶◌ ◌⟶*◌
pub data ◌⟶◌ : State → State → Type 0 where
  pay : State.pending ⟶ State.confirmed
  cancel_hold : State.pending ⟶ State.cancelled
  end_hold : State.pending ⟶ State.expired
  pay_late : State.pending ⟶ State.payment_review
  pay_expired : State.expired ⟶ State.payment_review

pub data ◌⟶*◌ : State → State → Type 0 where
  here : {s : State} → s ⟶* s
  then_step : {s t u : State} → s ⟶ t → t ⟶* u → s ⟶* u

pub ⟶*_trans : {s t u : State} → s ⟶* t → t ⟶* u → s ⟶* u
⟶*_trans here k = k
⟶*_trans (then_step e h) k = then_step e (⟶*_trans h k)

-- The terms of a booking that no operation changes.
pub record SameTerms (b c : Booking) : Type 0 where
  pub id : c.id ≡ b.id
  pub account : c.account_id ≡ b.account_id
  pub event : c.event_id ≡ b.event_id
  pub method : c.payment_method ≡ b.payment_method
  pub amount : c.amount ≡ b.amount
  pub currency : c.currency ≡ b.currency
  pub expiry : c.expires_at ≡ b.expires_at
  pub creation : c.created_at ≡ b.created_at

-- A booking may become another one, with its terms kept.
abbrev pub Becomes : Booking → Booking → Type 0
Becomes b c = (b.state ⟶* c.state) × SameTerms b c

-- Every booking is still in the table, and has become what it is now by such changes.
abbrev pub Evolves : List Booking → List Booking → Type 0
Evolves old new =
    (id : String) (b : Booking)
    → find (has_id id) old ≡ some b
    → (c : Booking) × (find (has_id id) new ≡ some c) × Becomes b c

same-SameTerms : (b : Booking) → SameTerms b b
same-SameTerms b = record {
  id = refl;
  account = refl;
  event = refl;
  method = refl;
  amount = refl;
  currency = refl;
  expiry = refl;
  creation = refl;
}

Becomes-trans : {b c d : Booking} → Becomes b c → Becomes c d → Becomes b d
Becomes-trans (h, p) (k, q) = (
  ⟶*_trans h k,
  record {
    id = q.id ∙ p.id;
    account = q.account ∙ p.account;
    event = q.event ∙ p.event;
    method = q.method ∙ p.method;
    amount = q.amount ∙ p.amount;
    currency = q.currency ∙ p.currency;
    expiry = q.expiry ∙ p.expiry;
    creation = q.creation ∙ p.creation;
  },
)

pub Evolves-refl : (rows : List Booking) → Evolves rows rows
Evolves-refl rows id b found = (b, found, (here, same-SameTerms b))

pub Evolves-trans : (a b c : List Booking) → Evolves a b → Evolves b c → Evolves a c
Evolves-trans a b c h k id x found =
    let (y, found_y, xy) = h id x found in
    let (z, found_z, yz) = k id y found_y in (z, found_z, Becomes-trans xy yz)

-- One row is updated: its booking evolves, and the others stay.
module _ (rows : List Booking) (b : Booking) (g : Booking → Booking)
    (found : find (has_id b.id) rows ≡ some b) (keep : (a : Booking) → (g a).id ≡ a.id)
    (becomes : Becomes b (g b)) where
  found_again : find (has_id b.id) (update_row (has_id b.id) g rows) ≡ some (g b)
  found_again =
      find-update_row (has_id b.id) g rows b found (ground (arith, keep b, eq_iff (g b).id b.id))

  updated_other :
      (id : String)
      → b.id ≢ id
      → find (has_id id) (update_row (has_id b.id) g rows) ≡ find (has_id id) rows
  updated_other id ne =
      find-update_row_other (has_id b.id) (has_id id) g rows
        (λ a h. ground (arith, h, keep a, eq_iff a.id b.id, eq_iff a.id id, eq_iff (g a).id id))

  updated-Evolves : Evolves rows (update_row (has_id b.id) g rows)
  updated-Evolves id x at = elim (Bool-cases (b.id == id)) [
    | inl same ↦
        let e : b.id ≡ id = (eq_iff b.id id).0 same in
        let at_b : find (has_id b.id) rows ≡ some x =
          subst (λ k. find (has_id k) rows ≡ some x) (sym e) at in
        let b_is_x : b ≡ x = cc in
        (
          g b,
          subst (λ k. find (has_id k) (update_row (has_id b.id) g rows) ≡ some (g b)) e found_again,
          subst (λ y. Becomes y (g b)) b_is_x becomes,
        )
    | inr other ↦
        (x, updated_other id (ground (arith, eq_iff b.id id)) ∙ at, (here, same-SameTerms x))
  ]

edge : {s t : State} → s ⟶ t → s ⟶* t
edge e = then_step e here

kept_terms :
    (b : Booking) (t : State) (v : ℕ) (p q : Option ℕ)
    → SameTerms b (record b { state = t; version = v; confirmed_at = p; cancelled_at = q })
kept_terms b t v p q = record {
  id = refl;
  account = refl;
  event = refl;
  method = refl;
  amount = refl;
  currency = refl;
  expiry = refl;
  creation = refl;
}

from_pending :
    (b : Booking) (t : State) → b.state ≡ State.pending → State.pending ⟶ t → b.state ⟶* t
from_pending b t p e = subst (λ s. s ⟶* t) (sym p) (edge e)

module _ (ids : ℕ → String) (db : Db) (b : Booking)
    (found : find (has_id b.id) db.bookings ≡ some b) where
  pub cancelled_by-Evolves :
      (actor id key : String) (now : ℕ)
      → b.state ≡ State.pending
      → Evolves db.bookings (cancelled_by ids actor id key now b db).bookings
  cancelled_by-Evolves actor id key now p =
      updated-Evolves db.bookings b (cancel_row now) found (λ a. refl)
        (
          from_pending b State.cancelled p cancel_hold,
          kept_terms b State.cancelled _ b.confirmed_at (some now),
        )

  pub expired_by-Evolves :
      (now : ℕ) → b.state ≡ State.pending → Evolves db.bookings (expired_by ids now b db).bookings
  expired_by-Evolves now p =
      updated-Evolves db.bookings b expire_row found (λ a. refl)
        (
          from_pending b State.expired p end_hold,
          kept_terms b State.expired _ b.confirmed_at b.cancelled_at,
        )

  pub paid-Evolves :
      (event : String) (at : ℕ)
      → b.state ≡ State.pending
      → Evolves db.bookings (paid ids event at b db).bookings
  paid-Evolves event at p =
      updated-Evolves db.bookings b (confirm_row at) found (λ a. refl)
        (
          from_pending b State.confirmed p pay,
          kept_terms b State.confirmed _ (some at) b.cancelled_at,
        )

  to_review : (s : State) → (is_pending s || is_expired s) ≡ true → s ⟶* State.payment_review
  to_review State.pending h = edge pay_late
  to_review State.expired h = edge pay_expired
  to_review _ h = cc

  pub paid_late-Evolves :
      (event : String) (at : ℕ)
      → (is_pending b.state || is_expired b.state) ≡ true
      → Evolves db.bookings (paid_late ids event at b db).bookings
  paid_late-Evolves event at p =
      updated-Evolves db.bookings b review_row found (λ a. refl)
        (to_review b.state p, kept_terms b State.payment_review _ b.confirmed_at b.cancelled_at)

pub booked-Evolves :
    (ids : ℕ → String) (b : Booking) (key fingerprint : String) (seats : ℕ) (db : Db)
    → Evolves db.bookings
        (booked ids b key fingerprint
          (ensure_allocation b.event_id seats b.policy_version db.allocations)
          db).bookings
booked-Evolves ids b key fingerprint seats db id x found = (
  x,
  ground (
    arith,
    found,
    find-append (has_id id) db.bookings (record b { version = 1; cancelled_at = none }),
  ),
  (here, same-SameTerms x),
)
