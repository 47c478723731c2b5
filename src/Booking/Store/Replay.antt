-- ===== src/Booking/Store/Replay.antt =====
-- A request that is sent again: idempotency keys and the inbox of payment events.
use mathlib.Core.Path.{subst}
use match_mate_dating_web.Base.{
  ℕ, ◌+◌, ◌≡◌, sym, Bool, true, false, none, some, [], ◌∷◌, ◌++◌, String, arith, eq_iff, ◌==◌,
  string_eq, if◌then◌else◌, inl, inr, any, any-append, ◌⊎◌,
}
use match_mate_dating_web.Base.Tables.{find, find-append, find-none-any}
use match_mate_dating_web.Base.Result.{ok, err}
use match_mate_dating_web.Booking.Domain.{Booking}
use match_mate_dating_web.Booking.Store.{
  Db, IdempotencyRecord, conflict, has_id, has_key, collides, idempotency_record,
}
use match_mate_dating_web.Booking.Store.Payments.{payment_new, apply_payment_event}
use match_mate_dating_web.Booking.Store.Creations.{create, create_new}
use match_mate_dating_web.Booking.Store.Keeps.{
  create_new-eq-ok, payment_effect-cases, payment_new-eq-ok,
}

-- The row of a new booking.
abbrev pub stored_row : Booking → Booking
stored_row b = record b { version = 1; cancelled_at = none }

create-eq-new :
    (fault : ℕ → Bool) (ids : ℕ → String) (b c : Booking) (key fingerprint : String) (seats : ℕ)
    (db db' : Db)
    → create fault ids b key fingerprint seats db ≡ ok ((c, false), db')
    → (find (has_key b.account_id "booking.create" key) db.idempotency ≡ none)
      × (create_new fault ids b key fingerprint seats db ≡ ok ((c, false), db'))
unfolding create
create-eq-new fault ids b c key fingerprint seats db db' h = ground arith

create_recorded :
    (fault : ℕ → Bool) (ids : ℕ → String) (b c : Booking) (key fingerprint : String) (seats : ℕ)
    (db db' : Db)
    → create fault ids b key fingerprint seats db ≡ ok ((c, false), db')
    → (find (has_key b.account_id "booking.create" key) db'.idempotency
        ≡ some (idempotency_record b.account_id "booking.create" key fingerprint b.id b.created_at))
      × (find (has_id b.id) db'.bookings ≡ some (stored_row b))
create_recorded fault ids b c key fingerprint seats db db' h =
    let (unused, made) = create-eq-new fault ids b c key fingerprint seats db db' h in
    let (_, free, same) =
      create_new-eq-ok fault ids b key fingerprint seats db ((c, false), db') made in
    let row = idempotency_record b.account_id "booking.create" key fingerprint b.id b.created_at in
    let no_id : find (has_id b.id) db.bookings ≡ none =
      find-none-any (collides b) (has_id b.id) db.bookings
        (λ a k. ground (arith, k, eq_iff a.id b.id, eq_iff b.id a.id)) free in
    subst
      (λ s.
        (find (has_key b.account_id "booking.create" key) s.1.idempotency ≡ some row)
        × (find (has_id b.id) s.1.bookings ≡ some (stored_row b)))
      (sym same)
      (
        ground (
          arith,
          unused,
          find-append (has_key b.account_id "booking.create" key) db.idempotency row,
          eq_iff b.account_id b.account_id,
          eq_iff key key,
        ),
        ground
            (arith, no_id, find-append (has_id b.id) db.bookings (stored_row b), eq_iff b.id b.id),
      )

create_recalled :
    (fault : ℕ → Bool) (ids : ℕ → String) (b found : Booking) (key fingerprint : String) (seats : ℕ)
    (db : Db) (r : IdempotencyRecord)
    → find (has_key b.account_id "booking.create" key) db.idempotency ≡ some r
    → find (has_id r.booking_id) db.bookings ≡ some found
    → (fault 0 ≡ false) × (fault 1 ≡ false) × (fault 2 ≡ false)
    → create fault ids b key fingerprint seats db
      ≡ (if r.fingerprint == fingerprint then ok ((found, true), db) else err conflict)
unfolding create
create_recalled fault ids b found key fingerprint seats db r recorded row up = ground arith

-- After a booking has been created, a request of the same account with the same key changes nothing
-- while the database answers: with the same fingerprint it returns the booking that was stored, as a
-- replay, and with another fingerprint it is a conflict.
pub create-create :
    (fault fault' : ℕ → Bool) (ids ids' : ℕ → String) (b c b' : Booking)
    (key fingerprint fingerprint' : String) (seats seats' : ℕ) (db db' : Db)
    → create fault ids b key fingerprint seats db ≡ ok ((c, false), db')
    → b'.account_id ≡ b.account_id
    → (fault' 0 ≡ false) × (fault' 1 ≡ false) × (fault' 2 ≡ false)
    → create fault' ids' b' key fingerprint' seats' db'
      ≡ (if fingerprint == fingerprint' then ok ((stored_row b, true), db') else err conflict)
create-create fault fault' ids ids' b c b' key fingerprint fingerprint' seats seats' db db' h same
      up =
    let (recorded, row) = create_recorded fault ids b c key fingerprint seats db db' h in
    create_recalled fault' ids' b' (stored_row b) key fingerprint' seats' db'
      (idempotency_record b.account_id "booking.create" key fingerprint b.id b.created_at)
      (subst
        (λ a.
          find (has_key a "booking.create" key) db'.idempotency
          ≡ some
              (idempotency_record b.account_id "booking.create" key fingerprint b.id b.created_at))
        (sym same) recorded)
      row up

apply_payment_event-eq-seen :
    (fault : ℕ → Bool) (ids : ℕ → String) (event event_type booking : String) (at : ℕ) (db db' : Db)
    → apply_payment_event fault ids event event_type booking at db ≡ ok db'
    → ((any (λ seen. seen == event) db.inbox ≡ true) × (db' ≡ db))
      ⊎ (payment_new fault ids event event_type booking at
            (record db { inbox = db.inbox ++ event ∷ [] })
          ≡ ok db')
unfolding apply_payment_event
apply_payment_event-eq-seen fault ids event event_type booking at db db' h = ground arith

seen-after :
    (fault : ℕ → Bool) (ids : ℕ → String) (event event_type booking : String) (at : ℕ) (db db' : Db)
    → apply_payment_event fault ids event event_type booking at db ≡ ok db'
    → any (λ seen. seen == event) db'.inbox ≡ true
seen-after fault ids event event_type booking at db db' h =
    elim (apply_payment_event-eq-seen fault ids event event_type booking at db db' h) [
      | inl (seen, same) ↦ subst (λ s. any (λ e. e == event) s.inbox ≡ true) (sym same) seen
      | inr new ↦
          let read : Db = record db { inbox = db.inbox ++ event ∷ [] } in
          let now_seen : any (λ e. e == event) read.inbox ≡ true =
            ground
              (arith, any-append (λ e. e == event) db.inbox (event ∷ []), eq_iff event event) in
          let (b, _, done) = payment_new-eq-ok fault ids event event_type booking at read db' new in
          elim (payment_effect-cases (λ n. fault (n + 4)) ids event event_type at b read db' done) [
            | inl same ↦ subst (λ s. any (λ e. e == event) s.inbox ≡ true) (sym same) now_seen
            | inr (inl (_, same)) ↦
                subst (λ s. any (λ e. e == event) s.inbox ≡ true) (sym same) now_seen
            | inr (inr (_, same)) ↦
                subst (λ s. any (λ e. e == event) s.inbox ≡ true) (sym same) now_seen
          ]
    ]

-- A payment event that has been applied is never applied again: delivered once more, with any type,
-- booking and time, it leaves the tables as they are while the database answers.
pub apply_payment_event-twice :
    (fault fault' : ℕ → Bool) (ids ids' : ℕ → String)
    (event event_type booking event_type' booking' : String) (at at' : ℕ) (db db' : Db)
    → apply_payment_event fault ids event event_type booking at db ≡ ok db'
    → (fault' 0 ≡ false) × (fault' 1 ≡ false) × (fault' 2 ≡ false)
    → apply_payment_event fault' ids' event event_type' booking' at' db' ≡ ok db'
unfolding apply_payment_event
apply_payment_event-twice fault fault' ids ids' event event_type booking event_type' booking' at at'
      db db' h up =
    let seen = seen-after fault ids event event_type booking at db db' h in ground (arith, seen, up)
