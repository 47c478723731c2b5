-- ===== src/Booking/Store/Expiry.antt =====
-- How many holds a run of `Expire` ends.
use mathlib.Core.Path.{subst, ◌∙◌}
use match_mate_dating_web.Base.{
  ℕ, zero, suc, ◌+◌, ◌≡◌, refl, ap, Bool, true, false, some, List, [], ◌∷◌, String, arith, count,
  length, take, filter, All, All-map, All-zip,
}
use Prim.Native.Nat.{min}
use match_mate_dating_web.Base.Tables.{find, count-update_row, All-find-none}
use match_mate_dating_web.Base.Result.{ok, ok_inj}
use match_mate_dating_web.Booking.Domain.{Booking}
use match_mate_dating_web.Booking.Store.{Db, has_id}
use match_mate_dating_web.Booking.Store.Expirations.{
  expire, expire_each, expire_row, expired_by, due, is_due, insert_by_expiry, sort_by_expiry,
}
use match_mate_dating_web.Booking.Store.Ids.{HasUniqueIds, due-HasUniqueIds, due-All-due}
use match_mate_dating_web.Booking.Store.Valid.{IsValid}
use match_mate_dating_web.Booking.Store.Keeps.{
  IsListed, IsListed-expired_by, due-IsListed, expire-eq-ok,
}

length-insert_by_expiry :
    (b : Booking) (bs : List Booking) → length (insert_by_expiry b bs) ≡ suc (length bs)
unfolding insert_by_expiry
length-insert_by_expiry b [] = refl
length-insert_by_expiry b (c ∷ bs) = ground (arith, length-insert_by_expiry b bs)

length-sort_by_expiry : (bs : List Booking) → length (sort_by_expiry bs) ≡ length bs
unfolding sort_by_expiry
length-sort_by_expiry [] = refl
length-sort_by_expiry (b ∷ bs) =
    length-insert_by_expiry b (sort_by_expiry bs) ∙ ap suc (length-sort_by_expiry bs)

length-filter : (p : Booking → Bool) (bs : List Booking) → length (filter p bs) ≡ count p bs
length-filter p [] = refl
length-filter p (b ∷ bs) = ground (arith, length-filter p bs)

length-take : (n : ℕ) (bs : List Booking) → length (take n bs) ≡ min n (length bs)
length-take zero bs = omega arith
length-take (suc n) [] = omega arith
length-take (suc n) (b ∷ bs) = omega (arith, length-take n bs)

length-due :
    (now limit : ℕ) (bs : List Booking)
    → length (due now limit bs) ≡ min limit (count (is_due now) bs)
unfolding due
length-due now limit bs =
    length-take limit (sort_by_expiry (filter (is_due now) bs))
    ∙ ap (min limit)
        (length-sort_by_expiry (filter (is_due now) bs) ∙ length-filter (is_due now) bs)

-- One round ends one hold.
count-expired_by :
    (ids : ℕ → String) (now : ℕ) (b : Booking) (db : Db)
    → find (has_id b.id) db.bookings ≡ some b
    → is_due now b ≡ true
    → suc (count (is_due now) (expired_by ids now b db).bookings) ≡ count (is_due now) db.bookings
count-expired_by ids now b db found is =
    ground (arith, count-update_row (has_id b.id) (is_due now) expire_row db.bookings b found)

count-expire_each :
    (fault : ℕ → Bool) (ids : ℕ → String) (now : ℕ) (list : List Booking) (db db' : Db)
    → HasUniqueIds list
    → All (IsListed db) list
    → All (λ b. is_due now b ≡ true) list
    → expire_each fault ids now list db ≡ ok db'
    → length list + count (is_due now) db'.bookings ≡ count (is_due now) db.bookings
unfolding expire_each
count-expire_each fault ids now [] db db' unique listed over h =
    subst (λ s. 0 + count (is_due now) s.bookings ≡ count (is_due now) db.bookings) (ok_inj h)
      (omega arith)
count-expire_each fault ids now (b ∷ bs) db db' unique listed over h =
    let later =
      count-expire_each (λ n. fault (n + 3)) (λ n. ids (n + 2)) now bs (expired_by ids now b db) db'
        unique.1
        (All-map bs (λ c k. IsListed-expired_by ids now b db c k.0 k.1)
          (All-zip (λ c. has_id b.id c ≡ false) (IsListed db) bs
            (All-find-none (has_id b.id) bs unique.0) listed.1))
        over.1 (ground arith) in
    omega (arith, later, count-expired_by ids now b db listed.0.0 over.0)

-- A run that commits reports as many bookings as it has expired.
expire_counts :
    (fault : ℕ → Bool) (ids : ℕ → String) (now limit : ℕ) (db : Db) (r : ℕ × Db)
    → IsValid db
    → expire fault ids now limit db ≡ ok r
    → (r.0 ≡ min limit (count (is_due now) db.bookings))
      × (r.0 + count (is_due now) r.1.bookings ≡ count (is_due now) db.bookings)
expire_counts fault ids now limit db r valid h =
    let (number, done) = expire-eq-ok fault ids now limit db r h in
    let ended =
      count-expire_each (λ n. fault (n + 3)) ids now (due now limit db.bookings) db r.1
        (due-HasUniqueIds now limit db.bookings valid.unique) (due-IsListed now limit db valid)
        (due-All-due now limit db.bookings) done in
    (number ∙ length-due now limit db.bookings, omega (arith, number, ended))

expire_each-finishes :
    (fault : ℕ → Bool) (ids : ℕ → String) (now : ℕ) (bs : List Booking) (db : Db)
    → ((n : ℕ) → fault n ≡ false)
    → (db' : Db) × (expire_each fault ids now bs db ≡ ok db')
unfolding expire_each
expire_each-finishes fault ids now [] db up = (db, refl)
expire_each-finishes fault ids now (b ∷ bs) db up =
    let (db', done) =
      expire_each-finishes (λ n. fault (n + 3)) (λ n. ids (n + 2)) now bs (expired_by ids now b db)
        (λ n. up (n + 3)) in
    (db', rw (up 0, up 1, up 2) done)

-- On valid tables, with the database answering, a run of `Expire` commits and reports as many
-- bookings as it has expired: the limit, or all whose hold is over if these are fewer; so many fewer
-- are due afterwards.
pub expire_finishes :
    (fault : ℕ → Bool) (ids : ℕ → String) (now limit : ℕ) (db : Db)
    → IsValid db
    → ((n : ℕ) → fault n ≡ false)
    → (r : ℕ × Db) × (expire fault ids now limit db ≡ ok r)
      × (r.0 ≡ min limit (count (is_due now) db.bookings))
      × (r.0 + count (is_due now) r.1.bookings ≡ count (is_due now) db.bookings)
unfolding expire
expire_finishes fault ids now limit db valid up =
    let list = due now limit db.bookings in
    let (db', ended) =
      expire_each-finishes (λ n. fault (n + 3)) ids now list db (λ n. up (n + 3)) in
    let done : expire fault ids now limit db ≡ ok (length list, db') =
      rw (up 0, up 1, up 2, ended) refl in
    let (number, fewer) = expire_counts fault ids now limit db (length list, db') valid done in
    ((length list, db'), done, number, fewer)
