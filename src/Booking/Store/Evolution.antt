-- ===== src/Booking/Store/Evolution.antt =====
-- Every operation of the repository lets the bookings evolve along the changes of Lifecycle.
use mathlib.Core.Path.{subst}
use match_mate_dating_web.Base.{
  ℕ, ◌+◌, ◌≡◌, sym, Bool, false, List, [], ◌∷◌, ◌++◌, String, arith, inl, inr, All, All-map,
  All-zip,
}
use match_mate_dating_web.Base.Tables.{All-find-none}
use match_mate_dating_web.Base.Result.{ok, ok_inj}
use match_mate_dating_web.Booking.Domain.{Booking}
use match_mate_dating_web.Booking.Store.{Db, has_id}
use match_mate_dating_web.Booking.Store.Creations.{create}
use match_mate_dating_web.Booking.Store.Cancellations.{cancel}
use match_mate_dating_web.Booking.Store.Expirations.{expire, expire_each, expired_by, due}
use match_mate_dating_web.Booking.Store.Payments.{apply_payment_event, payment_new}
use match_mate_dating_web.Booking.Store.Ids.{HasUniqueIds, due-HasUniqueIds}
use match_mate_dating_web.Booking.Store.Valid.{IsValid}
use match_mate_dating_web.Booking.Store.Keeps.{
  found-by_id, create_new-eq-ok, create-eq-ok, cancel-eq-ok, cancel_found-eq-ok, IsListed,
  IsListed-expired_by, due-IsListed, expire-eq-ok, payment_effect-cases, payment_new-eq-ok,
  apply_payment_event-eq-ok,
}
use match_mate_dating_web.Booking.Store.Lifecycle.{
  Evolves, Evolves-refl, Evolves-trans, booked-Evolves, cancelled_by-Evolves, expired_by-Evolves,
  paid-Evolves, paid_late-Evolves,
}

abbrev From : Db → Db → Type 0
From db db' = Evolves db.bookings db'.bookings

module _ (fault : ℕ → Bool) (ids : ℕ → String) where
  pub create-Evolves :
      (b : Booking) (key fingerprint : String) (seats : ℕ) (db : Db) (r : (Booking × Bool) × Db)
      → create fault ids b key fingerprint seats db ≡ ok r
      → Evolves db.bookings r.1.bookings
  create-Evolves b key fingerprint seats db r h =
      elim (create-eq-ok fault ids b key fingerprint seats db r h) [
        | inl same ↦ subst (From db) (sym same) (Evolves-refl db.bookings)
        | inr new ↦
            let (_, _, same) = create_new-eq-ok fault ids b key fingerprint seats db r new in
            subst (λ s. From db s.1) (sym same) (booked-Evolves ids b key fingerprint seats db)
      ]

  pub cancel-Evolves :
      (actor id key : String) (now : ℕ) (db : Db) (r : (Booking × Bool) × Db)
      → IsValid db
      → cancel fault ids actor id key now db ≡ ok r
      → Evolves db.bookings r.1.bookings
  cancel-Evolves actor id key now db r valid h =
      elim (cancel-eq-ok fault ids actor id key now db r h) [
        | inl same ↦ subst (From db) (sym same) (Evolves-refl db.bookings)
        | inr (b, found, done) ↦ elim (cancel_found-eq-ok fault ids actor id key now b db r done) [
          | inl same ↦ subst (From db) (sym same) (Evolves-refl db.bookings)
          | inr (waits, same) ↦ subst (From db) (sym same) (
              cancelled_by-Evolves ids db b (found-by_id db valid _ b found) actor id key now waits)
        ]
      ]

  payment_new-Evolves :
      (event event_type booking : String) (at : ℕ) (db db' : Db)
      → IsValid db
      → payment_new fault ids event event_type booking at db ≡ ok db'
      → Evolves db.bookings db'.bookings
  payment_new-Evolves event event_type booking at db db' valid new =
      let (b, found, done) = payment_new-eq-ok fault ids event event_type booking at db db' new in
      let row = found-by_id db valid (has_id booking) b found in
      elim (payment_effect-cases (λ n. fault (n + 4)) ids event event_type at b db db' done) [
        | inl same ↦ subst (From db) (sym same) (Evolves-refl db.bookings)
        | inr (inl (waits, same)) ↦
            subst (From db) (sym same) (paid-Evolves ids db b row event at waits)
        | inr (inr (late, same)) ↦
            subst (From db) (sym same) (paid_late-Evolves ids db b row event at late)
      ]

  pub apply_payment_event-Evolves :
      (event event_type booking : String) (at : ℕ) (db db' : Db)
      → IsValid db
      → apply_payment_event fault ids event event_type booking at db ≡ ok db'
      → Evolves db.bookings db'.bookings
  apply_payment_event-Evolves event event_type booking at db db' valid h =
      elim (apply_payment_event-eq-ok fault ids event event_type booking at db db' h) [
        | inl same ↦ subst (From db) (sym same) (Evolves-refl db.bookings)
        | inr new ↦
            payment_new-Evolves event event_type booking at
              (record db { inbox = db.inbox ++ event ∷ [] }) db'
              (record {
                consistent = valid.consistent;
                online = valid.online;
                unique = valid.unique;
              })
              new
      ]

expire_each-Evolves :
    (fault : ℕ → Bool) (ids : ℕ → String) (now : ℕ) (list : List Booking) (db db' : Db)
    → HasUniqueIds list
    → All (IsListed db) list
    → expire_each fault ids now list db ≡ ok db'
    → Evolves db.bookings db'.bookings
unfolding expire_each
expire_each-Evolves fault ids now [] db db' unique listed h =
    subst (From db) (ok_inj h) (Evolves-refl db.bookings)
expire_each-Evolves fault ids now (b ∷ bs) db db' unique listed h =
    Evolves-trans db.bookings (expired_by ids now b db).bookings db'.bookings
      (expired_by-Evolves ids db b listed.0.0 now listed.0.1)
      (expire_each-Evolves (λ n. fault (n + 3)) (λ n. ids (n + 2)) now bs (expired_by ids now b db)
        db' unique.1
        (All-map bs (λ c k. IsListed-expired_by ids now b db c k.0 k.1)
          (All-zip (λ c. has_id b.id c ≡ false) (IsListed db) bs
            (All-find-none (has_id b.id) bs unique.0) listed.1))
        (ground arith))

pub expire-Evolves :
    (fault : ℕ → Bool) (ids : ℕ → String) (now limit : ℕ) (db : Db) (r : ℕ × Db)
    → IsValid db
    → expire fault ids now limit db ≡ ok r
    → Evolves db.bookings r.1.bookings
expire-Evolves fault ids now limit db r valid h =
    expire_each-Evolves (λ n. fault (n + 3)) ids now (due now limit db.bookings) db r.1
      (due-HasUniqueIds now limit db.bookings valid.unique) (due-IsListed now limit db valid)
      (expire-eq-ok fault ids now limit db r h).1
