-- ===== src/Booking/Store/Moves.antt =====
-- One booking changes its state: what that does to the seats of every event.
use mathlib.Core.Path.{subst}
use mathlib.Core.Logic.{◌≢◌}
use match_mate_dating_web.Base.{
  ℕ, ◌+◌, ◌≡◌, refl, Bool, true, false, Option, none, some, List, [], ◌∷◌, String, arith, eq_iff,
  count, inl, inr, Bool-cases, Option-cases, ◌==◌, string_eq,
}
use match_mate_dating_web.Base.Tables.{
  find, update_row, update_row_missing, count-update_row, indicator,
}
use match_mate_dating_web.Booking.Domain.{State, Booking, is_pending, is_confirmed}
use match_mate_dating_web.Booking.Store.{Allocation, Db, of_event, has_id, free_seat}
use match_mate_dating_web.Booking.Store.Payments.{confirm_seat}
use match_mate_dating_web.Booking.Store.Seats.{
  holds, confirms, Seats, find-update_event, find-update_event_other,
}

-- Every event's allocation agrees with the bookings.
abbrev pub IsConsistent : Db → Type 0
IsConsistent db =
    (e : String)
    → Seats (find (of_event e) db.allocations) (count (holds e) db.bookings)
        (count (confirms e) db.bookings)

abbrev pub map_row : (Allocation → Allocation) → Option Allocation → Option Allocation
map_row f none = none
map_row f (some a) = some (f a)

find-update_row-event :
    (e : String) (f : Allocation → Allocation) (rows : List Allocation)
    → ((a : Allocation) → (f a).event_id ≡ a.event_id)
    → find (of_event e) (update_row (of_event e) f rows) ≡ map_row f (find (of_event e) rows)
find-update_row-event e f rows keep = elim (Option-cases (find (of_event e) rows)) [
  | inl missing ↦ rw (missing, update_row_missing (of_event e) f rows missing) missing
  | inr (a, found) ↦ rw found (find-update_event e f rows a found keep)
]

-- How the seats of the booking's own event change with its state.
abbrev pub Exchanges : (Allocation → Allocation) → State → State → Type 0
Exchanges f old new =
    (o : Option Allocation) (held sold held' sold' : ℕ)
    → Seats o held sold
    → held' + indicator (is_pending old) ≡ held + indicator (is_pending new)
    → sold' + indicator (is_confirmed old) ≡ sold + indicator (is_confirmed new)
    → Seats (map_row f o) held' sold'

module _ (db : Db) (b : Booking) (g : Booking → Booking) (f : Allocation → Allocation)
    (found : find (has_id b.id) db.bookings ≡ some b) (same_event : (g b).event_id ≡ b.event_id)
    (keep : (a : Allocation) → (f a).event_id ≡ a.event_id)
    (exchanges : Exchanges f b.state (g b).state) (before : IsConsistent db) where
  abbrev pub after_rows : List Booking
  after_rows = update_row (has_id b.id) g db.bookings

  move-Seats_own :
      Seats
        (find (of_event b.event_id) (update_row (of_event b.event_id) f db.allocations))
        (count (holds b.event_id) after_rows)
        (count (confirms b.event_id) after_rows)
  move-Seats_own =
      let held = count-update_row (has_id b.id) (holds b.event_id) g db.bookings b found in
      let sold = count-update_row (has_id b.id) (confirms b.event_id) g db.bookings b found in
      rw (find-update_row-event b.event_id f db.allocations keep) (
        exchanges (find (of_event b.event_id) db.allocations) (count (holds b.event_id) db.bookings)
          (count (confirms b.event_id) db.bookings) (count (holds b.event_id) after_rows)
          (count (confirms b.event_id) after_rows) (before b.event_id)
          (ground (
            arith,
            held,
            same_event,
            eq_iff b.event_id b.event_id,
            eq_iff (g b).event_id b.event_id,
          ))
          (ground (
            arith,
            sold,
            same_event,
            eq_iff b.event_id b.event_id,
            eq_iff (g b).event_id b.event_id,
          )))

  counts_other :
      (d : String)
      → b.event_id ≢ d
      → (count (holds d) after_rows ≡ count (holds d) db.bookings)
        × (count (confirms d) after_rows ≡ count (confirms d) db.bookings)
  counts_other d ne =
      let held = count-update_row (has_id b.id) (holds d) g db.bookings b found in
      let sold = count-update_row (has_id b.id) (confirms d) g db.bookings b found in
      (
        ground (arith, held, same_event, eq_iff b.event_id d, eq_iff (g b).event_id d),
        ground (arith, sold, same_event, eq_iff b.event_id d, eq_iff (g b).event_id d),
      )

  -- The seats of every event agree with the bookings after the change.
  pub move-Seats :
      (d : String)
      → Seats
          (find (of_event d) (update_row (of_event b.event_id) f db.allocations))
          (count (holds d) after_rows)
          (count (confirms d) after_rows)
  move-Seats d = elim (Bool-cases (b.event_id == d)) [
    | inl same ↦
        subst
          (λ e.
            Seats (find (of_event e) (update_row (of_event b.event_id) f db.allocations))
              (count (holds e) after_rows) (count (confirms e) after_rows))
          ((eq_iff b.event_id d).0 same) move-Seats_own
    | inr other ↦
        let ne : b.event_id ≢ d = ground (arith, eq_iff b.event_id d) in
        let (held, sold) = counts_other d ne in
        rw (find-update_event_other b.event_id d f db.allocations ne keep, held, sold) (before d)
  ]

-- The changes of state that the repository makes.
pub free-Exchanges :
    (v : Bool) (old new : State)
    → v ≡ false
    → old ≡ State.pending
    → is_pending new ≡ false
    → is_confirmed new ≡ false
    → Exchanges (free_seat v) old new
free-Exchanges true old new h p q r o held sold held' sold' s t u = cc
free-Exchanges false old new h p q r none held sold held' sold' s t u = ground arith
free-Exchanges false old new h p q r (some a) held sold held' sold' s t u = ground arith

pub confirm-Exchanges :
    (old : State) → old ≡ State.pending → Exchanges confirm_seat old State.confirmed
confirm-Exchanges old p none held sold held' sold' s t u = ground arith
confirm-Exchanges old p (some a) held sold held' sold' s t u = ground arith

abbrev pub same_row : Allocation → Allocation
same_row a = a

pub review-Exchanges :
    (old : State) → old ≡ State.expired → Exchanges same_row old State.payment_review
review-Exchanges old p none held sold held' sold' s t u = ground arith
review-Exchanges old p (some a) held sold held' sold' s t u = ground arith

pub update_row-same :
    (p : Allocation → Bool) (rows : List Allocation) → update_row p same_row rows ≡ rows
update_row-same p [] = refl
update_row-same p (a ∷ rows) = ground (arith, update_row-same p rows)
