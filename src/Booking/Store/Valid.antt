-- ===== src/Booking/Store/Valid.antt =====
-- The invariant of the booking tables, and the effect of each operation on it.
use mathlib.Core.Path.{subst}
use mathlib.Core.Logic.{◌≢◌}
use match_mate_dating_web.Base.{
  ℕ, ◌+◌, ◌≡◌, refl, Bool, true, false, ◌&&◌, ◌||◌, none, some, List, [], ◌∷◌, ◌++◌, String, arith,
  eq_iff, ◌==◌, string_eq, if◌then◌else◌, count, any, inl, inr, Bool-cases, count-append, All,
  All-append,
}
use match_mate_dating_web.Base.Tables.{find, update_row, All-found, All-update_row, find-none-any}
use match_mate_dating_web.Booking.Domain.{State, Booking, is_pending, is_expired}
use match_mate_dating_web.Booking.Store.{
  Allocation, Db, of_event, has_id, at_venue, collides, free_seat,
}
use match_mate_dating_web.Booking.Store.Creations.{take_seat, seat_taken, ensure_allocation, booked}
use match_mate_dating_web.Booking.Store.Cancellations.{cancelled_by, cancel_row}
use match_mate_dating_web.Booking.Store.Expirations.{expired_by, expire_row}
use match_mate_dating_web.Booking.Store.Payments.{
  paid, paid_late, confirm_seat, confirm_row, review_row,
}
use match_mate_dating_web.Booking.Store.Seats.{
  holds, confirms, Seats, find-update_event, find-update_event_other, ensure-Seats, take-Seats,
}
use match_mate_dating_web.Booking.Store.Moves.{
  IsConsistent, move-Seats, free-Exchanges, confirm-Exchanges, review-Exchanges, same_row,
  update_row-same,
}
use match_mate_dating_web.Base.Keys.{HasUniqueKeys-append, HasUniqueKeys-update_row}
use match_mate_dating_web.Booking.Store.Ids.{HasUniqueIds}

-- A booking that waits for its payment is one that is paid online.
abbrev pub WaitsOnline : Booking → Type 0
WaitsOnline b = (is_pending b.state && at_venue b) ≡ false

pub record IsValid (db : Db) : Type 0 where
  pub consistent : IsConsistent db
  pub online : All WaitsOnline db.bookings
  pub unique : HasUniqueIds db.bookings

module _ (db : Db) (b : Booking) (found : find (has_id b.id) db.bookings ≡ some b)
    (valid : IsValid db) where
  found-WaitsOnline : b.state ≡ State.pending → at_venue b ≡ false
  found-WaitsOnline p =
      ground (arith, p, All-found WaitsOnline (has_id b.id) db.bookings b valid.online found)

  free_seat-keeps : (v : Bool) (a : Allocation) → (free_seat v a).event_id ≡ a.event_id
  free_seat-keeps true a = ground arith
  free_seat-keeps false a = ground arith

  pub cancelled_by-IsValid :
      (ids : ℕ → String) (actor id key : String) (now : ℕ)
      → b.state ≡ State.pending
      → IsValid (cancelled_by ids actor id key now b db)
  cancelled_by-IsValid ids actor id key now p = record {
    consistent =
        move-Seats db b (cancel_row now) (free_seat (at_venue b)) found refl
          (free_seat-keeps (at_venue b))
          (free-Exchanges (at_venue b) b.state State.cancelled (found-WaitsOnline p) p refl refl)
          valid.consistent;
    online =
        All-update_row WaitsOnline (has_id b.id) (cancel_row now) db.bookings (λ a w. ground arith)
          valid.online;
    unique =
        HasUniqueKeys-update_row (λ a. a.id) (has_id b.id) (cancel_row now) db.bookings (λ a. refl)
          valid.unique;
  }

  pub expired_by-IsValid :
      (ids : ℕ → String) (now : ℕ) → b.state ≡ State.pending → IsValid (expired_by ids now b db)
  expired_by-IsValid ids now p = record {
    consistent =
        move-Seats db b expire_row (free_seat false) found refl (free_seat-keeps false)
          (free-Exchanges false b.state State.expired refl p refl refl) valid.consistent;
    online =
        All-update_row WaitsOnline (has_id b.id) expire_row db.bookings (λ a w. ground arith)
          valid.online;
    unique =
        HasUniqueKeys-update_row (λ a. a.id) (has_id b.id) expire_row db.bookings (λ a. refl)
          valid.unique;
  }

  pub paid-IsValid :
      (ids : ℕ → String) (event : String) (at : ℕ)
      → b.state ≡ State.pending
      → IsValid (paid ids event at b db)
  paid-IsValid ids event at p = record {
    consistent =
        move-Seats db b (confirm_row at) confirm_seat found refl (λ a. ground arith)
          (confirm-Exchanges b.state p) valid.consistent;
    online =
        All-update_row WaitsOnline (has_id b.id) (confirm_row at) db.bookings (λ a w. ground arith)
          valid.online;
    unique =
        HasUniqueKeys-update_row (λ a. a.id) (has_id b.id) (confirm_row at) db.bookings (λ a. refl)
          valid.unique;
  }

  late_seats : (v : Bool) → Allocation → Allocation
  late_seats true = free_seat false
  late_seats false = same_row

  -- A payment that comes after the hold, or for an expired booking.
  pub paid_late-IsValid :
      (ids : ℕ → String) (event : String) (at : ℕ)
      → (is_pending b.state || is_expired b.state) ≡ true
      → IsValid (paid_late ids event at b db)
  paid_late-IsValid ids event at p = record {
    consistent = elim (Bool-cases (is_pending b.state)) [
      | inl waits ↦ rw waits (
          move-Seats db b review_row (free_seat false) found refl (free_seat-keeps false)
            (free-Exchanges false b.state State.payment_review refl (ground arith) refl refl)
            valid.consistent)
      | inr over ↦
          rw (over, ← update_row-same (of_event b.event_id) db.allocations)
            (move-Seats db b review_row same_row found refl (λ a. refl)
              (review-Exchanges b.state (ground arith)) valid.consistent)
    ];
    online =
        All-update_row WaitsOnline (has_id b.id) review_row db.bookings (λ a w. ground arith)
          valid.online;
    unique =
        HasUniqueKeys-update_row (λ a. a.id) (has_id b.id) review_row db.bookings (λ a. refl)
          valid.unique;
  }

-- A booking as the service makes it: confirmed at once if it is paid at the venue, else pending.
fresh-WaitsOnline :
    (venue : Bool) (s : State)
    → s ≡ (if venue then State.confirmed else State.pending)
    → (is_pending s && venue) ≡ false
fresh-WaitsOnline true s h = rw h refl
fresh-WaitsOnline false s h = rw h refl

abbrev pub IsFresh : Booking → Type 0
IsFresh b = b.state ≡ (if at_venue b then State.confirmed else State.pending)

module _ (db : Db) (b : Booking) (fresh : IsFresh b) (valid : IsValid db)
    (free : any (collides b) db.bookings ≡ false) (policy seats : ℕ)
    (room : seat_taken policy (
        find
          (of_event b.event_id)
          (ensure_allocation b.event_id seats b.policy_version db.allocations))
      ≡ true) where
  abbrev stored : Booking
  stored = record b { version = 1; cancelled_at = none }

  abbrev rows : List Allocation
  rows = ensure_allocation b.event_id seats b.policy_version db.allocations

  before-Seats :
      (d : String)
      → Seats
          (find (of_event d) rows)
          (count (holds d) db.bookings)
          (count (confirms d) db.bookings)
  before-Seats d =
      ensure-Seats d b.event_id seats b.policy_version db.allocations _ _ (valid.consistent d)

  take_seat-keeps : (v : Bool) (a : Allocation) → (take_seat v a).event_id ≡ a.event_id
  take_seat-keeps true a = refl
  take_seat-keeps false a = refl

  held_own :
      count (holds b.event_id) (db.bookings ++ stored ∷ [])
      ≡ count (holds b.event_id) db.bookings + (if at_venue b then 0 else 1)
  held_own = ground (
    arith,
    fresh,
    count-append (holds b.event_id) db.bookings (stored ∷ []),
    eq_iff b.event_id b.event_id,
  )

  sold_own :
      count (confirms b.event_id) (db.bookings ++ stored ∷ [])
      ≡ count (confirms b.event_id) db.bookings + (if at_venue b then 1 else 0)
  sold_own = ground (
    arith,
    fresh,
    count-append (confirms b.event_id) db.bookings (stored ∷ []),
    eq_iff b.event_id b.event_id,
  )

  booked-Seats_own :
      Seats
        (find
          (of_event b.event_id)
          (update_row (of_event b.event_id) (take_seat (at_venue b)) rows))
        (count (holds b.event_id) (db.bookings ++ stored ∷ []))
        (count (confirms b.event_id) (db.bookings ++ stored ∷ []))
  booked-Seats_own =
      let (a, found, taken) = take-Seats (at_venue b) policy _ _ _ (before-Seats b.event_id) room in
      rw
        (
          find-update_event b.event_id (take_seat (at_venue b)) rows a found
              (take_seat-keeps (at_venue b)),
          held_own,
          sold_own,
        )
        taken

  booked-Seats_other :
      (d : String)
      → b.event_id ≢ d
      → Seats
          (find (of_event d) (update_row (of_event b.event_id) (take_seat (at_venue b)) rows))
          (count (holds d) (db.bookings ++ stored ∷ []))
          (count (confirms d) (db.bookings ++ stored ∷ []))
  booked-Seats_other d ne =
      let held : count (holds d) (db.bookings ++ stored ∷ []) ≡ count (holds d) db.bookings =
        ground (arith, count-append (holds d) db.bookings (stored ∷ []), eq_iff b.event_id d) in
      let sold : count (confirms d) (db.bookings ++ stored ∷ []) ≡ count (confirms d) db.bookings =
        ground (arith, count-append (confirms d) db.bookings (stored ∷ []), eq_iff b.event_id d) in
      rw
        (
          find-update_event_other b.event_id d (take_seat (at_venue b)) rows ne
              (take_seat-keeps (at_venue b)),
          held,
          sold,
        )
        (before-Seats d)

  booked-consistent :
      (d : String)
      → Seats
          (find (of_event d) (update_row (of_event b.event_id) (take_seat (at_venue b)) rows))
          (count (holds d) (db.bookings ++ stored ∷ []))
          (count (confirms d) (db.bookings ++ stored ∷ []))
  booked-consistent d = elim (Bool-cases (b.event_id == d)) [
    | inl same ↦
        subst
          (λ e.
            Seats
              (find (of_event e) (update_row (of_event b.event_id) (take_seat (at_venue b)) rows))
              (count (holds e) (db.bookings ++ stored ∷ []))
              (count (confirms e) (db.bookings ++ stored ∷ [])))
          ((eq_iff b.event_id d).0 same) booked-Seats_own
    | inr other ↦ booked-Seats_other d (ground (arith, eq_iff b.event_id d))
  ]

  pub booked-IsValid :
      (ids : ℕ → String) (key fingerprint : String) → IsValid (booked ids b key fingerprint rows db)
  booked-IsValid ids key fingerprint = record {
    consistent = booked-consistent;
    online =
        All-append WaitsOnline db.bookings stored valid.online
          (fresh-WaitsOnline (at_venue b) b.state fresh);
    unique =
        HasUniqueKeys-append (λ a. a.id) db.bookings stored valid.unique
          (find-none-any (collides b) (has_id b.id) db.bookings
            (λ a h. ground (arith, eq_iff a.id b.id, eq_iff b.id a.id)) free);
  }
