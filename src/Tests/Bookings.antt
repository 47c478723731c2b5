-- ===== src/Tests/Bookings.antt =====
-- Runs of the booking service.
use match_mate_dating_web.Base.{
  ℕ, ◌+◌, ◌≡◌, ◌≤◌, refl, Bool, true, false, some, [], ◌∷◌, String, count, ◌==◌, string_eq,
  if◌then◌else◌,
}
use match_mate_dating_web.Base.Tables.{find}
use match_mate_dating_web.Base.Result.{ok, err}
use match_mate_dating_web.Base.Text
use match_mate_dating_web.Booking.Domain
use match_mate_dating_web.Booking.Domain.{State, Booking, EventSnapshot}
use match_mate_dating_web.Booking.Store
use match_mate_dating_web.Booking.Store.Creations
use match_mate_dating_web.Booking.Store.Payments
use match_mate_dating_web.Booking.Store.{Db, Allocation, conflict, empty, of_event, has_id}
use match_mate_dating_web.Booking.Store.Creations.{booked, ensure_allocation, create}
use match_mate_dating_web.Booking.Store.Expirations.{is_due, expire}
use match_mate_dating_web.Booking.Store.Payments.{apply_payment_event}
use match_mate_dating_web.Booking.Store.Seats.{holds, confirms}
use match_mate_dating_web.Booking.Store.Valid.{IsValid}
use match_mate_dating_web.Booking.Store.Lifecycle.{Becomes}
use match_mate_dating_web.Booking.Store.Replay.{
  create-create, stored_row, apply_payment_event-twice,
}
use Prim.Native.Nat.{min}
use match_mate_dating_web.Booking.Store.Expiry.{expire_finishes}
use match_mate_dating_web.Booking.Service
use match_mate_dating_web.Booking.Service.{Command, creates, expires, pays, new_booking, run}
use match_mate_dating_web.Booking.Service.Capacity.{run-not_oversold, run-IsValid, empty-IsValid}
use match_mate_dating_web.Booking.Service.History.{run-keeps_bookings}

abbrev no_fault : ℕ → Bool
no_fault n = false

abbrev no_ids : ℕ → String
no_ids n = "b1"

abbrev pub upper : String → String
upper s = s

abbrev dinner : EventSnapshot
dinner = record {
  event_id = "e1";
  status = "REGISTRATION_OPEN";
  price = "10";
  currency = "LKR";
  payment_options = "ONLINE";
  configured_capacity = 1;
  capacity_policy_version = 1;
  registration_closes_at = 1000;
}

-- The only seat is held, another account asks for it, and the hold is paid.
abbrev pub hold : Command
hold = creates no_fault no_ids 5 100 (some dinner) "ann" "e1" "" "k1"

abbrev too_late : Command
too_late = creates no_fault (λ n. "b2") 6 100 (some dinner) "ben" "e1" "" "k2"

abbrev pub payment : Command
payment = pays no_fault no_ids "p1" "PaymentCompleted" "b1" 50

abbrev sold_out : Allocation
sold_out = record {
  event_id = "e1";
  configured_capacity = 1;
  policy_version = 1;
  held_count = 0;
  confirmed_count = 1;
  version = 3;
}

sold_out-found :
    find (of_event "e1") (run upper (hold ∷ too_late ∷ payment ∷ []) empty).allocations
    ≡ some sold_out
unfolding run Service.execute Service.create Service.place Domain.validate_event
    Domain.money_pattern Domain.normalize_money Domain.after_point Creations.create
    Creations.create_new Creations.ensure_allocation Store.insert_fact Payments.apply_payment_event
    Payments.payment_new Payments.payment_effect Text.is_digit Domain.allowed_payment_method
    Text.byte_length
sold_out-found = refl

run-not_oversold_example :
    (0 ≡ count (holds "e1") (run upper (hold ∷ too_late ∷ payment ∷ []) empty).bookings)
    × (1 ≡ count (confirms "e1") (run upper (hold ∷ too_late ∷ payment ∷ []) empty).bookings)
    × (count (holds "e1") (run upper (hold ∷ too_late ∷ payment ∷ []) empty).bookings
          + count (confirms "e1") (run upper (hold ∷ too_late ∷ payment ∷ []) empty).bookings
        ≤ 1)
run-not_oversold_example =
    run-not_oversold upper (hold ∷ too_late ∷ payment ∷ []) "e1" sold_out sold_out-found

abbrev ann-booking : Booking
ann-booking = new_booking no_ids 5 100 "ann" "ONLINE" dinner

abbrev ann-fingerprint : String
ann-fingerprint = "e1:ONLINE"

abbrev one_booking : Db
one_booking =
    booked no_ids ann-booking "k1" ann-fingerprint
      (record {
        event_id = "e1";
        configured_capacity = 1;
        policy_version = 1;
        held_count = 0;
        confirmed_count = 0;
        version = 1;
      }
        ∷ [])
      empty

ann-booked :
    create no_fault no_ids ann-booking "k1" ann-fingerprint 1 empty
    ≡ ok ((ann-booking, false), one_booking)
unfolding create Creations.create_new Creations.ensure_allocation
ann-booked = refl

-- The same key for another event.
create-create_example :
    create no_fault no_ids
      (record ann-booking { id = "b9"; event_id = "e2" })
      "k1"
      "e2:ONLINE"
      7
      one_booking
    ≡ (if ann-fingerprint == "e2:ONLINE"
        then ok ((stored_row ann-booking, true), one_booking)
        else err conflict)
create-create_example =
    create-create no_fault no_fault no_ids no_ids ann-booking ann-booking
      (record ann-booking { id = "b9"; event_id = "e2" }) "k1" ann-fingerprint "e2:ONLINE" 1 7 empty
      one_booking ann-booked refl (refl, refl, refl)

-- A payment that fails changes nothing but the inbox.
abbrev failure_seen : Db
failure_seen = record one_booking { inbox = "p1" ∷ [] }

failure-applied :
    apply_payment_event no_fault no_ids "p1" "PaymentFailed" "b1" 50 one_booking ≡ ok failure_seen
unfolding apply_payment_event Payments.payment_new Payments.payment_effect
failure-applied = refl

apply_payment_event-twice_example :
    apply_payment_event no_fault no_ids "p1" "PaymentCompleted" "b1" 60 failure_seen
    ≡ ok failure_seen
apply_payment_event-twice_example =
    apply_payment_event-twice no_fault no_fault no_ids no_ids "p1" "PaymentFailed" "b1"
      "PaymentCompleted" "b1" 50 60 one_booking failure_seen failure-applied (refl, refl, refl)

abbrev held : Db
held = run upper (hold ∷ []) empty

held-IsValid : IsValid held
held-IsValid = run-IsValid upper (hold ∷ []) empty empty-IsValid

run-keeps_bookings_example :
    (c : Booking) × (find (has_id "b1") (run upper (payment ∷ []) held).bookings ≡ some c)
    × Becomes (stored_row ann-booking) c
unfolding run Service.execute Service.create Service.place Domain.validate_event
    Domain.money_pattern Domain.normalize_money Domain.after_point Creations.create
    Creations.create_new Creations.ensure_allocation Store.insert_fact Text.is_digit
    Domain.allowed_payment_method Text.byte_length
run-keeps_bookings_example =
    run-keeps_bookings upper (payment ∷ []) held "b1" (stored_row ann-booking) held-IsValid refl

expire_finishes_example :
    (r : ℕ × Db) × (expire no_fault no_ids 200 10 held ≡ ok r)
    × (r.0 ≡ min 10 (count (is_due 200) held.bookings))
    × (r.0 + count (is_due 200) r.1.bookings ≡ count (is_due 200) held.bookings)
expire_finishes_example = expire_finishes no_fault no_ids 200 10 held held-IsValid (λ n. refl)
