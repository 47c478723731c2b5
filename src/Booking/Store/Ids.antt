-- ===== src/Booking/Store/Ids.antt =====
-- Bookings have distinct identifiers (the table's primary key).
use match_mate_dating_web.Base.{
  ℕ, zero, suc, ◌≡◌, refl, Bool, true, false, none, List, [], ◌∷◌, arith, eq_iff, string_eq, All,
  All-take, All-filter, filter, take, leb, inl, inr, Bool-cases,
}
use match_mate_dating_web.Base.Tables.{find, find-take-none, find-filter-none}
use match_mate_dating_web.Base.Keys.{HasUniqueKeys}
use match_mate_dating_web.Booking.Domain.{Booking}
use match_mate_dating_web.Booking.Store.{has_id}
use match_mate_dating_web.Booking.Store.Expirations.{insert_by_expiry, sort_by_expiry, due, is_due}

abbrev pub HasUniqueIds : List Booking → Type 0
HasUniqueIds = HasUniqueKeys (λ b. b.id)

find-insert_by_expiry-none :
    (p : Booking → Bool) (b : Booking) (bs : List Booking)
    → p b ≡ false
    → find p bs ≡ none
    → find p (insert_by_expiry b bs) ≡ none
unfolding insert_by_expiry
find-insert_by_expiry-none p b [] h k = ground arith
find-insert_by_expiry-none p b (c ∷ bs) h k = ground (arith, find-insert_by_expiry-none p b bs)

find-sort_by_expiry-none :
    (p : Booking → Bool) (bs : List Booking) → find p bs ≡ none → find p (sort_by_expiry bs) ≡ none
unfolding sort_by_expiry
find-sort_by_expiry-none p [] h = refl
find-sort_by_expiry-none p (b ∷ bs) h =
    find-insert_by_expiry-none p b (sort_by_expiry bs) (ground arith)
      (find-sort_by_expiry-none p bs (ground arith))

insert_by_expiry-HasUniqueIds :
    (b : Booking) (bs : List Booking)
    → find (has_id b.id) bs ≡ none
    → HasUniqueIds bs
    → HasUniqueIds (insert_by_expiry b bs)
unfolding insert_by_expiry
insert_by_expiry-HasUniqueIds b [] h k = (refl, tt)
insert_by_expiry-HasUniqueIds b (c ∷ bs) h k = elim (Bool-cases (leb b.expires_at c.expires_at)) [
  | inl first ↦ rw first (h, k)
  | inr later ↦ rw later (
    find-insert_by_expiry-none (has_id c.id) b bs
        (ground (arith, eq_iff b.id c.id, eq_iff c.id b.id)) k.0,
    insert_by_expiry-HasUniqueIds b bs (ground arith) k.1,
  )
]

sort_by_expiry-HasUniqueIds :
    (bs : List Booking) → HasUniqueIds bs → HasUniqueIds (sort_by_expiry bs)
unfolding sort_by_expiry
sort_by_expiry-HasUniqueIds [] h = tt
sort_by_expiry-HasUniqueIds (b ∷ bs) h =
    insert_by_expiry-HasUniqueIds b (sort_by_expiry bs)
      (find-sort_by_expiry-none (has_id b.id) bs h.0) (sort_by_expiry-HasUniqueIds bs h.1)

filter-HasUniqueIds :
    (p : Booking → Bool) (bs : List Booking) → HasUniqueIds bs → HasUniqueIds (filter p bs)
filter-HasUniqueIds p [] h = tt
filter-HasUniqueIds p (b ∷ bs) h = elim (Bool-cases (p b)) [
  | inl t ↦ rw t (find-filter-none (has_id b.id) p bs h.0, filter-HasUniqueIds p bs h.1)
  | inr e ↦ rw e (filter-HasUniqueIds p bs h.1)
]

take-HasUniqueIds : (n : ℕ) (bs : List Booking) → HasUniqueIds bs → HasUniqueIds (take n bs)
take-HasUniqueIds zero bs h = tt
take-HasUniqueIds (suc n) [] h = tt
take-HasUniqueIds (suc n) (b ∷ bs) h =
    (find-take-none (has_id b.id) n bs h.0, take-HasUniqueIds n bs h.1)

pub due-HasUniqueIds :
    (now limit : ℕ) (bs : List Booking) → HasUniqueIds bs → HasUniqueIds (due now limit bs)
unfolding due
due-HasUniqueIds now limit bs h =
    take-HasUniqueIds limit _
      (sort_by_expiry-HasUniqueIds _ (filter-HasUniqueIds (is_due now) bs h))

module _ (P : Booking → Type 0) where
  insert_by_expiry-All :
      (b : Booking) (bs : List Booking) → P b → All P bs → All P (insert_by_expiry b bs)
  unfolding insert_by_expiry
  insert_by_expiry-All b [] p h = (p, tt)
  insert_by_expiry-All b (c ∷ bs) p h = elim (Bool-cases (leb b.expires_at c.expires_at)) [
    | inl first ↦ rw first (p, h)
    | inr later ↦ rw later (h.0, insert_by_expiry-All b bs p h.1)
  ]

  sort_by_expiry-All : (bs : List Booking) → All P bs → All P (sort_by_expiry bs)
  unfolding sort_by_expiry
  sort_by_expiry-All [] h = tt
  sort_by_expiry-All (b ∷ bs) h =
      insert_by_expiry-All b (sort_by_expiry bs) h.0 (sort_by_expiry-All bs h.1)

  -- What holds of every row holds of those that are due.
  pub due-All : (now limit : ℕ) (bs : List Booking) → All P bs → All P (due now limit bs)
  unfolding due
  due-All now limit bs h =
      All-take P limit _ (sort_by_expiry-All _ (All-filter P (is_due now) bs h))

All-filter_passes : (p : Booking → Bool) (bs : List Booking) → All (λ b. p b ≡ true) (filter p bs)
All-filter_passes p [] = tt
All-filter_passes p (b ∷ bs) = elim (Bool-cases (p b)) [
  | inl t ↦ rw t (t, All-filter_passes p bs)
  | inr e ↦ rw e (All-filter_passes p bs)
]

-- Every booking that is listed as due is pending, and its hold is over.
pub due-All-due :
    (now limit : ℕ) (bs : List Booking) → All (λ b. is_due now b ≡ true) (due now limit bs)
unfolding due
due-All-due now limit bs =
    All-take (λ b. is_due now b ≡ true) limit _
      (sort_by_expiry-All (λ b. is_due now b ≡ true) _ (All-filter_passes (is_due now) bs))
