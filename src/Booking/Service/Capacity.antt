-- ===== src/Booking/Service/Capacity.antt =====
-- Seats and bookings of an event over lists of calls.
use mathlib.Core.Path.{subst}
use match_mate_dating_web.Base.{
  ℕ, ◌+◌, ◌≤◌, ◌≡◌, refl, Bool, none, some, List, [], ◌∷◌, String, arith, string_eq, count,
}
use match_mate_dating_web.Base.Tables.{find}
use match_mate_dating_web.Base.Result.{Result, ok, err, ok_inj, bind-eq-ok, ◌>>=◌}
use match_mate_dating_web.Booking.Domain.{Booking, EventSnapshot}
use match_mate_dating_web.Booking.Store.{Allocation, Db, empty, Error, of_event}
use match_mate_dating_web.Booking.Store.Cancellations
use match_mate_dating_web.Booking.Store.Creations
use match_mate_dating_web.Booking.Store.Seats.{holds, confirms, Seats}
use match_mate_dating_web.Booking.Store.Valid.{IsValid, IsFresh}
use match_mate_dating_web.Booking.Store.Keeps.{
  create-IsValid, cancel-IsValid, expire-IsValid, apply_payment_event-IsValid,
}
use match_mate_dating_web.Booking.Service.{
  Command, creates, cancels, expires, pays, create, cancel, execute, run, committed, committed_db,
  new_booking, default_method, fingerprint, place, without_flag,
}

new_booking-IsFresh :
    (ids : ℕ → String) (now hold : ℕ) (actor method : String) (e : EventSnapshot)
    → IsFresh (new_booking ids now hold actor method e)
new_booking-IsFresh ids now hold actor method e = refl

create-eq-ok :
    (to_upper : String → String) (fault : ℕ → Bool) (ids : ℕ → String) (now hold : ℕ)
    (e : EventSnapshot) (actor event given key : String) (db : Db) (r : Booking × Db)
    → create to_upper fault ids now hold (some e) actor event given key db ≡ ok r
    → place fault ids now hold e actor event (default_method e given) key db ≡ ok r
unfolding create
create-eq-ok to_upper fault ids now hold e actor event given key db r h = ground arith

-- A successful service call is a successful call of the repository.
pub create-eq-ok_service :
    (to_upper : String → String) (fault : ℕ → Bool) (ids : ℕ → String) (now hold : ℕ)
    (e : EventSnapshot) (actor event given key : String) (db : Db) (r : Booking × Db)
    → create to_upper fault ids now hold (some e) actor event given key db ≡ ok r
    → (s : (Booking × Bool) × Db) × (Creations.create fault
          (λ n. ids (n + 1))
          (new_booking ids now hold actor (default_method e given) e)
          key
          (fingerprint event (default_method e given))
          e.configured_capacity
          db
        ≡ ok s)
      × ((s.0.0, s.1) ≡ r)
unfolding place
create-eq-ok_service to_upper fault ids now hold e actor event given key db r h =
    let (s, done, same) =
      bind-eq-ok
        (Creations.create fault (λ n. ids (n + 1))
          (new_booking ids now hold actor (default_method e given) e) key
          (fingerprint event (default_method e given)) e.configured_capacity db)
        without_flag r (create-eq-ok to_upper fault ids now hold e actor event given key db r h) in
    (s, done, ok_inj same)

pub cancel-eq-ok_service :
    (fault : ℕ → Bool) (ids : ℕ → String) (now : ℕ) (actor id key : String) (db : Db)
    (r : Booking × Db)
    → cancel fault ids now actor id key db ≡ ok r
    → (s : (Booking × Bool) × Db) × (Cancellations.cancel fault ids actor id key now db ≡ ok s)
      × ((s.0.0, s.1) ≡ r)
unfolding cancel
cancel-eq-ok_service fault ids now actor id key db r h =
    let called : (Cancellations.cancel fault ids actor id key now db >>= without_flag) ≡ ok r =
      ground arith in
    let (s, done, same) =
      bind-eq-ok (Cancellations.cancel fault ids actor id key now db) without_flag r called in
    (s, done, ok_inj same)

pub create-unreachable :
    (to_upper : String → String) (fault : ℕ → Bool) (ids : ℕ → String) (now hold : ℕ)
    (actor event given key : String) (db : Db) (r : Booking × Db)
    → ¬ (create to_upper fault ids now hold none actor event given key db ≡ ok r)
unfolding create
create-unreachable to_upper fault ids now hold actor event given key db r h = ground arith

committed-IsValid :
    {A : Type 0} (m : Result Error (A × Db)) (db : Db)
    → IsValid db
    → ((r : A × Db) → m ≡ ok r → IsValid r.1)
    → IsValid (committed m db)
committed-IsValid (ok r) db valid h = h r refl
committed-IsValid (err e) db valid h = valid

committed_db-IsValid :
    (m : Result Error Db) (db : Db)
    → IsValid db
    → ((db' : Db) → m ≡ ok db' → IsValid db')
    → IsValid (committed_db m db)
committed_db-IsValid (ok db') db valid h = h db' refl
committed_db-IsValid (err e) db valid h = valid

pub execute-IsValid :
    (to_upper : String → String) (c : Command) (db : Db)
    → IsValid db
    → IsValid (execute to_upper c db)
unfolding execute
execute-IsValid to_upper (creates fault ids now hold none actor event method key) db valid =
    committed-IsValid _ db valid
      (λ r h. absurd (create-unreachable to_upper fault ids now hold actor event method key db r h))
execute-IsValid to_upper (creates fault ids now hold (some e) actor event method key) db valid =
    committed-IsValid _ db valid (λ r h.
      let b = new_booking ids now hold actor (default_method e method) e in
      let (s, done, same) =
        create-eq-ok_service to_upper fault ids now hold e actor event method key db r h in
      subst (λ t. IsValid t.1) same
        (create-IsValid fault (λ n. ids (n + 1)) b key (fingerprint event (default_method e method))
          e.configured_capacity db s refl valid done))
execute-IsValid to_upper (cancels fault ids now actor id key) db valid =
    committed-IsValid _ db valid (λ r h.
      let (s, done, same) = cancel-eq-ok_service fault ids now actor id key db r h in
      subst (λ t. IsValid t.1) same (cancel-IsValid fault ids actor id key now db s valid done))
execute-IsValid to_upper (expires fault ids now limit) db valid =
    committed-IsValid _ db valid (λ r. expire-IsValid fault ids now limit db r valid)
execute-IsValid to_upper (pays fault ids event event_type booking at) db valid =
    committed_db-IsValid _ db valid
      (λ db'. apply_payment_event-IsValid fault ids event event_type booking at db db' valid)

-- The invariant of the booking tables (the allocation of every event counts exactly its pending and
-- its confirmed bookings, which do not exceed its capacity; pending bookings are paid online;
-- identifiers are distinct) is kept by any list of calls, with any faults.
pub run-IsValid :
    (to_upper : String → String) (cs : List Command) (db : Db)
    → IsValid db
    → IsValid (run to_upper cs db)
unfolding run
run-IsValid to_upper [] db valid = valid
run-IsValid to_upper (c ∷ cs) db valid =
    run-IsValid to_upper cs (execute to_upper c db) (execute-IsValid to_upper c db valid)

pub empty-IsValid : IsValid empty
empty-IsValid = record { consistent = λ e. (refl, refl); online = tt; unique = tt }

-- After any list of service calls, expiry runs and payment events from empty tables, with faults
-- of the database anywhere among them: where an event has an allocation, its two counters are the
-- numbers of the event's pending and confirmed bookings, and together these are at most the
-- allocation's configured capacity.
pub run-not_oversold :
    (to_upper : String → String) (cs : List Command) (event : String) (a : Allocation)
    → let db = run to_upper cs empty in
      find (of_event event) db.allocations ≡ some a
      → (a.held_count ≡ count (holds event) db.bookings)
        × (a.confirmed_count ≡ count (confirms event) db.bookings)
        × (count (holds event) db.bookings + count (confirms event) db.bookings
            ≤ a.configured_capacity)
run-not_oversold to_upper cs event a found =
    subst
      (λ o.
        Seats o (count (holds event) (run to_upper cs empty).bookings)
          (count (confirms event) (run to_upper cs empty).bookings))
      found ((run-IsValid to_upper cs empty empty-IsValid).consistent event)
