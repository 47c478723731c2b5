-- ===== src/Booking/Lists.antt =====
-- The lists of bookings: List and ListForEvent of
-- services/booking-service/internal/store/postgres/repository.go and
-- internal/application/service.go. `is_uuid` is whether `uuid.Parse` accepts a text. Bookings of the
-- same time, which `List` may give in any order, come with the greater id first.
use Prim.Native.String.{compare}
use Prim.Native.Nat.{Ordering}
use match_mate_dating_web.Base.{
  ℕ, zero, suc, Bool, true, false, not, ◌&&◌, ◌||◌, List, [], ◌∷◌, String, ltb, ◌==◌, nat_eq,
  string_eq, if◌then◌else◌, take, filter,
}
use match_mate_dating_web.Base.Result.{Result, ok, fail_if, ◌>>◌}
use match_mate_dating_web.Booking.Domain.{Booking}
use match_mate_dating_web.Booking.Store.{Db, Error, store_failed, invalid}

abbrev pub is_older : Booking → Booking → Bool
is_older b c =
    ltb b.created_at c.created_at
    || (b.created_at == c.created_at && elim (compare b.id c.id) [ Ordering.lt ↦ true | _ ↦ false ])

-- `ORDER BY created_at DESC,id DESC`
unfoldable pub insert_newest : Booking → List Booking → List Booking
insert_newest b [] = b ∷ []
insert_newest b (c ∷ cs) =
    let rest = insert_newest b cs in if is_older b c then c ∷ rest else b ∷ c ∷ cs

unfoldable pub newest_first : List Booking → List Booking
unfolding insert_newest
newest_first [] = []
newest_first (b ∷ bs) = insert_newest b (newest_first bs)

abbrev pub skip : ℕ → List Booking → List Booking
skip zero bs = bs
skip (suc n) [] = []
skip (suc n) (b ∷ bs) = skip n bs

-- `List` of the repository
unfoldable pub own_bookings : (ℕ → Bool) → String → ℕ → Db → Result Error (List Booking)
unfolding newest_first
own_bookings fault actor limit db = do
  fail_if (fault 0) store_failed
  ok (take limit (newest_first (filter (λ b. b.account_id == actor) db.bookings)))

-- `ListForEvent` of the repository
unfoldable pub event_bookings : (ℕ → Bool) → String → ℕ → ℕ → Db → Result Error (List Booking)
unfolding newest_first
event_bookings fault event limit offset db = do
  fail_if (fault 0) store_failed
  ok (take limit (skip offset (newest_first (filter (λ b. b.event_id == event) db.bookings))))

-- `List`
unfoldable pub list : (ℕ → Bool) → String → ℕ → Db → Result Error (List Booking)
list fault actor limit db =
    own_bookings fault actor (if ltb limit 1 || ltb 100 limit then 20 else limit) db

-- `ListForEvent`; a negative offset is refused before the repository sees it.
unfoldable pub list_for_event :
    (String → Bool) → (ℕ → Bool) → String → ℕ → ℕ → Db → Result Error (List Booking)
list_for_event is_uuid fault event limit offset db = do
  fail_if (not (is_uuid event) || (ltb limit 1 || ltb 51 limit)) invalid
  event_bookings fault event limit offset db
