-- ===== src/Booking/Store/Seats.antt =====
-- The seats of an event: what each statement does to the allocation and to the counts of bookings.
use match_mate_dating_web.Base.{
  ℕ, ◌+◌, ◌≤◌, ◌≡◌, refl, ◌≢◌, Bool, true, false, ◌&&◌, Option, none, some, List, String, arith,
  eq_iff, ◌==◌, nat_eq, string_eq, if◌then◌else◌,
}
use match_mate_dating_web.Base.Tables.{
  find, update_row, find-update_row, find-update_row_other, find-append, find_passes,
}
use match_mate_dating_web.Booking.Domain.{Booking, is_pending, is_confirmed}
use match_mate_dating_web.Booking.Store.{Allocation, of_event}
use match_mate_dating_web.Booking.Store.Creations.{take_seat, seat_taken, ensure_allocation}

-- The bookings of an event that hold a seat, and those that have confirmed one.
abbrev pub holds : String → Booking → Bool
holds e b = is_pending b.state && b.event_id == e

abbrev pub confirms : String → Booking → Bool
confirms e b = is_confirmed b.state && b.event_id == e

-- The allocation counts exactly these bookings, and they do not exceed the capacity.
abbrev pub Seats : Option Allocation → ℕ → ℕ → Type 0
Seats none held sold = (held ≡ 0) × (sold ≡ 0)
Seats (some a) held sold =
    (a.held_count ≡ held) × (a.confirmed_count ≡ sold) × (held + sold ≤ a.configured_capacity)

-- An update of the event's own row that keeps its key is found under that key.
pub find-update_event :
    (e : String) (f : Allocation → Allocation) (rows : List Allocation) (a : Allocation)
    → find (of_event e) rows ≡ some a
    → ((b : Allocation) → (f b).event_id ≡ b.event_id)
    → find (of_event e) (update_row (of_event e) f rows) ≡ some (f a)
find-update_event e f rows a h k = find-update_row (of_event e) f rows a h (
    ground
      (arith, k a, find_passes (of_event e) rows a h, eq_iff a.event_id e, eq_iff (f a).event_id e))

pub find-update_event_other :
    (e d : String) (f : Allocation → Allocation) (rows : List Allocation)
    → e ≢ d
    → ((b : Allocation) → (f b).event_id ≡ b.event_id)
    → find (of_event d) (update_row (of_event e) f rows) ≡ find (of_event d) rows
find-update_event_other e d f rows ne k =
    find-update_row_other (of_event e) (of_event d) f rows (λ a h.
      ground (arith, k a, h, eq_iff a.event_id e, eq_iff a.event_id d, eq_iff (f a).event_id d))

abbrev new_allocation : String → ℕ → ℕ → Allocation
new_allocation e seats policy = record {
  event_id = e;
  configured_capacity = seats;
  policy_version = policy;
  held_count = 0;
  confirmed_count = 0;
  version = 1;
}

pub ensure-Seats :
    (d e : String) (seats policy : ℕ) (rows : List Allocation) (held sold : ℕ)
    → Seats (find (of_event d) rows) held sold
    → Seats (find (of_event d) (ensure_allocation e seats policy rows)) held sold
unfolding ensure_allocation
ensure-Seats d e seats policy rows held sold h =
    ground (arith, find-append (of_event d) rows (new_allocation e seats policy), eq_iff e d)

-- After a seat is taken, for the bookings of the event and for those of another.
pub take-Seats :
    (venue : Bool) (policy : ℕ) (o : Option Allocation) (held sold : ℕ)
    → Seats o held sold
    → seat_taken policy o ≡ true
    → (a : Allocation) × (o ≡ some a)
      × Seats
          (some (take_seat venue a))
          (held + (if venue then 0 else 1))
          (sold + (if venue then 1 else 0))
take-Seats venue policy none held sold h t = cc
take-Seats true policy (some a) held sold h t = (a, refl, ground arith)
take-Seats false policy (some a) held sold h t = (a, refl, ground arith)
