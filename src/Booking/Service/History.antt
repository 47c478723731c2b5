-- ===== src/Booking/Service/History.antt =====
-- The history of a booking under the service's calls.
use mathlib.Core.Path.{subst}
use match_mate_dating_web.Base.{◌+◌, ◌≡◌, refl, none, some, List, [], ◌∷◌, String}
use match_mate_dating_web.Base.Tables.{find}
use match_mate_dating_web.Base.Result.{Result, ok, err}
use match_mate_dating_web.Booking.Domain.{Booking}
use match_mate_dating_web.Booking.Store.{Db, Error, has_id}
use match_mate_dating_web.Booking.Store.Valid.{IsValid}
use match_mate_dating_web.Booking.Store.Lifecycle.{Evolves, Evolves-refl, Evolves-trans, Becomes}
use match_mate_dating_web.Booking.Store.Evolution.{
  create-Evolves, cancel-Evolves, expire-Evolves, apply_payment_event-Evolves,
}
use match_mate_dating_web.Booking.Service.{
  Command, creates, cancels, expires, pays, execute, run, committed, committed_db,
}
use match_mate_dating_web.Booking.Service.Capacity.{
  create-eq-ok_service, cancel-eq-ok_service, create-unreachable, execute-IsValid,
}

committed-Evolves :
    {A : Type 0} (m : Result Error (A × Db)) (db : Db)
    → ((r : A × Db) → m ≡ ok r → Evolves db.bookings r.1.bookings)
    → Evolves db.bookings (committed m db).bookings
committed-Evolves (ok r) db h = h r refl
committed-Evolves (err e) db h = Evolves-refl db.bookings

committed_db-Evolves :
    (m : Result Error Db) (db : Db)
    → ((db' : Db) → m ≡ ok db' → Evolves db.bookings db'.bookings)
    → Evolves db.bookings (committed_db m db).bookings
committed_db-Evolves (ok db') db h = h db' refl
committed_db-Evolves (err e) db h = Evolves-refl db.bookings

module _ (to_upper : String → String) where
  execute-Evolves :
      (c : Command) (db : Db) → IsValid db → Evolves db.bookings (execute to_upper c db).bookings
  unfolding execute
  execute-Evolves (creates fault ids now hold none actor event method key) db valid =
      committed-Evolves _ db (λ r h.
        absurd (create-unreachable to_upper fault ids now hold actor event method key db r h))
  execute-Evolves (creates fault ids now hold (some e) actor event method key) db valid =
      committed-Evolves _ db (λ r h.
        let (s, done, same) =
          create-eq-ok_service to_upper fault ids now hold e actor event method key db r h in
        subst (λ t. Evolves db.bookings t.1.bookings) same
          (create-Evolves fault (λ n. ids (n + 1)) _ key _ e.configured_capacity db s done))
  execute-Evolves (cancels fault ids now actor id key) db valid = committed-Evolves _ db (λ r h.
      let (s, done, same) = cancel-eq-ok_service fault ids now actor id key db r h in
      subst (λ t. Evolves db.bookings t.1.bookings) same
        (cancel-Evolves fault ids actor id key now db s valid done))
  execute-Evolves (expires fault ids now limit) db valid =
      committed-Evolves _ db (λ r. expire-Evolves fault ids now limit db r valid)
  execute-Evolves (pays fault ids event event_type booking at) db valid =
      committed_db-Evolves _ db
        (λ db'. apply_payment_event-Evolves fault ids event event_type booking at db db' valid)

  run-Evolves :
      (cs : List Command) (db : Db) → IsValid db → Evolves db.bookings (run to_upper cs db).bookings
  unfolding run
  run-Evolves [] db valid = Evolves-refl db.bookings
  run-Evolves (c ∷ cs) db valid =
      Evolves-trans db.bookings (execute to_upper c db).bookings
        (run to_upper cs (execute to_upper c db)).bookings (execute-Evolves c db valid)
        (run-Evolves cs (execute to_upper c db) (execute-IsValid to_upper c db valid))

  -- From any valid tables, and so from those of any earlier calls, each booking is still there after
  -- any further calls: its state has moved along pending → confirmed, cancelled, expired or payment
  -- review and expired → payment review, and its identifier, account, event, method, amount,
  -- currency, expiry and creation time are unchanged.
  pub run-keeps_bookings :
      (cs : List Command) (db : Db) (id : String) (b : Booking)
      → IsValid db
      → find (has_id id) db.bookings ≡ some b
      → (c : Booking) × (find (has_id id) (run to_upper cs db).bookings ≡ some c) × Becomes b c
  run-keeps_bookings cs db id b valid = run-Evolves cs db valid id b
