-- ===== src/Booking/Store/Keeps.antt =====
-- Every operation of the repository keeps the invariant, on every path that commits.
use mathlib.Core.Path.{subst, ◌∙◌}
use match_mate_dating_web.Base.{
  ℕ, ◌+◌, ◌≡◌, sym, Bool, true, false, ◌||◌, some, List, [], ◌∷◌, ◌++◌, String, arith, eq_iff,
  string_eq, any, inl, inr, length, All, All-map, All-zip, Option-cases, ◌⊎◌,
}
use match_mate_dating_web.Base.Tables.{find, All-found, All-find-none, find-update_row_other}
use match_mate_dating_web.Base.Result.{ok, ok_inj}
use match_mate_dating_web.Booking.Domain.{State, Booking, is_pending, is_expired}
use match_mate_dating_web.Booking.Store.{Db, of_event, has_id, collides, owned}
use match_mate_dating_web.Booking.Store.Creations.{
  create, create_new, ensure_allocation, seat_taken, booked,
}
use match_mate_dating_web.Booking.Store.Cancellations.{cancel, cancel_found, cancelled_by}
use match_mate_dating_web.Booking.Store.Expirations.{
  expire, expire_each, due, is_due, expired_by, expire_row,
}
use match_mate_dating_web.Booking.Store.Payments.{
  apply_payment_event, payment_new, payment_effect, paid, paid_late,
}
use match_mate_dating_web.Base.Keys.{HasUniqueKeys-find}
use match_mate_dating_web.Booking.Store.Ids.{HasUniqueIds, due-HasUniqueIds, due-All, due-All-due}
use match_mate_dating_web.Booking.Store.Valid.{
  IsValid, IsFresh, booked-IsValid, cancelled_by-IsValid, expired_by-IsValid, paid-IsValid,
  paid_late-IsValid,
}

-- A row that any search finds is the one that its identifier finds.
pub found-by_id :
    (db : Db)
    → IsValid db
    → (p : Booking → Bool) (b : Booking) → find p db.bookings ≡ some b
    → find (has_id b.id) db.bookings ≡ some b
found-by_id db valid p b found =
    All-found (λ a. find (has_id a.id) db.bookings ≡ some a) p db.bookings b
      (HasUniqueKeys-find (λ a. a.id) db.bookings valid.unique) found

module _ (fault : ℕ → Bool) (ids : ℕ → String) where
  pub create_new-eq-ok :
      (b : Booking) (key fingerprint : String) (seats : ℕ) (db : Db) (r : (Booking × Bool) × Db)
      → create_new fault ids b key fingerprint seats db ≡ ok r
      → (seat_taken b.policy_version (
            find
              (of_event b.event_id)
              (ensure_allocation b.event_id seats b.policy_version db.allocations))
          ≡ true)
        × (any (collides b) db.bookings ≡ false)
        × (r ≡ (
          (b, false),
          booked ids b key fingerprint
              (ensure_allocation b.event_id seats b.policy_version db.allocations)
              db,
        ))
  unfolding create_new
  create_new-eq-ok b key fingerprint seats db r h = ground arith

  pub create-eq-ok :
      (b : Booking) (key fingerprint : String) (seats : ℕ) (db : Db) (r : (Booking × Bool) × Db)
      → create fault ids b key fingerprint seats db ≡ ok r
      → (r.1 ≡ db) ⊎ (create_new fault ids b key fingerprint seats db ≡ ok r)
  unfolding create
  create-eq-ok b key fingerprint seats db r h = ground arith

  pub create_new-IsValid :
      (b : Booking) (key fingerprint : String) (seats : ℕ) (db : Db) (r : (Booking × Bool) × Db)
      → IsFresh b
      → IsValid db
      → create_new fault ids b key fingerprint seats db ≡ ok r
      → IsValid r.1
  create_new-IsValid b key fingerprint seats db r fresh valid h =
      let (room, free, same) = create_new-eq-ok b key fingerprint seats db r h in
      subst (λ s. IsValid s.1) (sym same)
        (booked-IsValid db b fresh valid free b.policy_version seats room ids key fingerprint)

  pub create-IsValid :
      (b : Booking) (key fingerprint : String) (seats : ℕ) (db : Db) (r : (Booking × Bool) × Db)
      → IsFresh b
      → IsValid db
      → create fault ids b key fingerprint seats db ≡ ok r
      → IsValid r.1
  create-IsValid b key fingerprint seats db r fresh valid h =
      elim (create-eq-ok b key fingerprint seats db r h) [
        | inl same ↦ subst IsValid (sym same) valid
        | inr new ↦ create_new-IsValid b key fingerprint seats db r fresh valid new
      ]

  pub cancel_found-eq-ok :
      (actor id key : String) (now : ℕ) (b : Booking) (db : Db) (r : (Booking × Bool) × Db)
      → cancel_found fault ids actor id key now b db ≡ ok r
      → (r.1 ≡ db) ⊎ ((b.state ≡ State.pending) × (r.1 ≡ cancelled_by ids actor id key now b db))
  unfolding cancel_found
  cancel_found-eq-ok actor id key now b db r h = ground arith

  pub cancel-eq-ok :
      (actor id key : String) (now : ℕ) (db : Db) (r : (Booking × Bool) × Db)
      → cancel fault ids actor id key now db ≡ ok r
      → (r.1 ≡ db)
        ⊎ ((b : Booking) × (find (owned id actor) db.bookings ≡ some b)
            × (cancel_found fault ids actor id key now b db ≡ ok r))
  unfolding cancel
  cancel-eq-ok actor id key now db r h = elim (Option-cases (find (owned id actor) db.bookings)) [
    | inl missing ↦ inl (ground arith)
    | inr (b, found) ↦
        let cases : (r.1 ≡ db) ⊎ (cancel_found fault ids actor id key now b db ≡ ok r) =
          ground arith in
        elim cases [ inl same ↦ inl same | inr done ↦ inr (b, found, done) ]
  ]

  pub payment_effect-cases :
      (event event_type : String) (at : ℕ) (b : Booking) (db db' : Db)
      → payment_effect fault ids event event_type at b db ≡ ok db'
      → (db' ≡ db)
        ⊎ (((b.state ≡ State.pending) × (db' ≡ paid ids event at b db))
            ⊎ (((is_pending b.state || is_expired b.state) ≡ true)
                × (db' ≡ paid_late ids event at b db)))
  unfolding payment_effect
  payment_effect-cases event event_type at b db db' h = ground arith

  pub cancel-IsValid :
      (actor id key : String) (now : ℕ) (db : Db) (r : (Booking × Bool) × Db)
      → IsValid db
      → cancel fault ids actor id key now db ≡ ok r
      → IsValid r.1
  cancel-IsValid actor id key now db r valid h = elim (cancel-eq-ok actor id key now db r h) [
    | inl same ↦ subst IsValid (sym same) valid
    | inr (b, found, done) ↦ elim (cancel_found-eq-ok actor id key now b db r done) [
      | inl same ↦ subst IsValid (sym same) valid
      | inr (waits, same) ↦ subst IsValid (sym same) (
          cancelled_by-IsValid db b (found-by_id db valid (owned id actor) b found) valid ids actor
            id key now waits)
    ]
  ]

  pub payment_effect-IsValid :
      (event event_type : String) (at : ℕ) (b : Booking) (db db' : Db)
      → find (has_id b.id) db.bookings ≡ some b
      → IsValid db
      → payment_effect fault ids event event_type at b db ≡ ok db'
      → IsValid db'
  payment_effect-IsValid event event_type at b db db' found valid h =
      elim (payment_effect-cases event event_type at b db db' h) [
        | inl same ↦ subst IsValid (sym same) valid
        | inr (inl (waits, same)) ↦
            subst IsValid (sym same) (paid-IsValid db b found valid ids event at waits)
        | inr (inr (late, same)) ↦
            subst IsValid (sym same) (paid_late-IsValid db b found valid ids event at late)
      ]

  pub payment_new-eq-ok :
      (event event_type booking : String) (at : ℕ) (db db' : Db)
      → payment_new fault ids event event_type booking at db ≡ ok db'
      → (b : Booking) × (find (has_id booking) db.bookings ≡ some b)
        × (payment_effect (λ n. fault (n + 4)) ids event event_type at b db ≡ ok db')
  unfolding payment_new
  payment_new-eq-ok event event_type booking at db db' h =
      elim (Option-cases (find (has_id booking) db.bookings)) [
        | inl missing ↦ absurd (ground arith)
        | inr (b, found) ↦ (b, found, ground arith)
      ]

  pub apply_payment_event-eq-ok :
      (event event_type booking : String) (at : ℕ) (db db' : Db)
      → apply_payment_event fault ids event event_type booking at db ≡ ok db'
      → (db' ≡ db)
        ⊎ (payment_new fault ids event event_type booking at
              (record db { inbox = db.inbox ++ event ∷ [] })
            ≡ ok db')
  unfolding apply_payment_event
  apply_payment_event-eq-ok event event_type booking at db db' h = ground arith

module _ (fault : ℕ → Bool) (ids : ℕ → String) where
  pub apply_payment_event-IsValid :
      (event event_type booking : String) (at : ℕ) (db db' : Db)
      → IsValid db
      → apply_payment_event fault ids event event_type booking at db ≡ ok db'
      → IsValid db'
  apply_payment_event-IsValid event event_type booking at db db' valid h =
      elim (apply_payment_event-eq-ok fault ids event event_type booking at db db' h) [
        | inl same ↦ subst IsValid (sym same) valid
        | inr new ↦
            let seen : Db = record db { inbox = db.inbox ++ event ∷ [] } in
            let valid' : IsValid seen = record {
              consistent = valid.consistent;
              online = valid.online;
              unique = valid.unique;
            } in
            let (b, found, done) =
              payment_new-eq-ok fault ids event event_type booking at seen db' new in
            payment_effect-IsValid (λ n. fault (n + 4)) ids event event_type at b seen db'
              (found-by_id seen valid' (has_id booking) b found) valid' done
      ]

-- The bookings that a loop of `Expire` still has to expire are in the table as they were read.
abbrev pub IsListed : Db → Booking → Type 0
IsListed db b = (find (has_id b.id) db.bookings ≡ some b) × (b.state ≡ State.pending)

pub IsListed-expired_by :
    (ids : ℕ → String) (now : ℕ) (b : Booking) (db : Db) (c : Booking)
    → has_id b.id c ≡ false
    → IsListed db c
    → IsListed (expired_by ids now b db) c
IsListed-expired_by ids now b db c ne (found, waits) = (
  find-update_row_other (has_id b.id) (has_id c.id) expire_row db.bookings
        (λ a h. ground (arith, h, eq_iff a.id b.id, eq_iff a.id c.id, eq_iff c.id b.id))
      ∙ found,
  waits,
)

pub expire_each-IsValid :
    (fault : ℕ → Bool) (ids : ℕ → String) (now : ℕ) (list : List Booking) (db db' : Db)
    → HasUniqueIds list
    → All (IsListed db) list
    → IsValid db
    → expire_each fault ids now list db ≡ ok db'
    → IsValid db'
unfolding expire_each
expire_each-IsValid fault ids now [] db db' unique listed valid h = subst IsValid (ok_inj h) valid
expire_each-IsValid fault ids now (b ∷ bs) db db' unique listed valid h =
    expire_each-IsValid (λ n. fault (n + 3)) (λ n. ids (n + 2)) now bs (expired_by ids now b db) db'
      unique.1
      (All-map bs (λ c k. IsListed-expired_by ids now b db c k.0 k.1)
        (All-zip (λ c. has_id b.id c ≡ false) (IsListed db) bs
          (All-find-none (has_id b.id) bs unique.0) listed.1))
      (expired_by-IsValid db b listed.0.0 valid ids now listed.0.1) (ground arith)

-- The rows that `Expire` reads are listed in the table, under distinct identifiers.
pub due-IsListed :
    (now limit : ℕ) (db : Db) → IsValid db → All (IsListed db) (due now limit db.bookings)
due-IsListed now limit db valid =
    All-map (due now limit db.bookings) (λ b k. (k.0, ground (arith, k.1)))
      (All-zip (λ b. find (has_id b.id) db.bookings ≡ some b) (λ b. is_due now b ≡ true)
        (due now limit db.bookings)
        (due-All (λ b. find (has_id b.id) db.bookings ≡ some b) now limit db.bookings
          (HasUniqueKeys-find (λ a. a.id) db.bookings valid.unique))
        (due-All-due now limit db.bookings))

pub expire-eq-ok :
    (fault : ℕ → Bool) (ids : ℕ → String) (now limit : ℕ) (db : Db) (r : ℕ × Db)
    → expire fault ids now limit db ≡ ok r
    → (r.0 ≡ length (due now limit db.bookings))
      × (expire_each (λ n. fault (n + 3)) ids now (due now limit db.bookings) db ≡ ok r.1)
unfolding expire
expire-eq-ok fault ids now limit db r h = ground arith

pub expire-IsValid :
    (fault : ℕ → Bool) (ids : ℕ → String) (now limit : ℕ) (db : Db) (r : ℕ × Db)
    → IsValid db
    → expire fault ids now limit db ≡ ok r
    → IsValid r.1
expire-IsValid fault ids now limit db r valid h =
    expire_each-IsValid (λ n. fault (n + 3)) ids now (due now limit db.bookings) db r.1
      (due-HasUniqueIds now limit db.bookings valid.unique) (due-IsListed now limit db valid) valid
      (expire-eq-ok fault ids now limit db r h).1
