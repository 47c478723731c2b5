-- ===== src/Event/Listing/Pages.antt =====
-- What a page of discoverable events shows.
use match_mate_dating_web.Base.{
  ℕ, ◌+◌, ◌≡◌, ◌≤◌, ◌<◌, Bool, true, false, Option, List, [], ◌∷◌, String, arith, ltb, ◌||◌,
  if◌then◌else◌, take, filter, length, length-take-le, All, All-take, All-map, Bool-cases, inl, inr,
}
use match_mate_dating_web.Base.Result.{ok, bind-eq-ok, ok_inj, fail_if}
use mathlib.Core.Path.{subst}
use match_mate_dating_web.Event.Domain.{Event}
use match_mate_dating_web.Event.Store.{Db, is_public}
use match_mate_dating_web.Event.Listing.{
  Page, insert_newest, newest_first, page, checked_limit, starts, start, list_failed,
  is_discoverable, is_bad_id, list_discoverable, list,
}

module _ (time : Event → ℕ) (P : Event → Type 0) where
  insert_newest-All :
      (e : Event) (es : List Event) → P e → All P es → All P (insert_newest time e es)
  unfolding insert_newest
  insert_newest-All e [] p h = (p, tt)
  insert_newest-All e (f ∷ fs) p h =
      newest_if _ (insert_newest time e fs) (p, h) (insert_newest-All e fs p h.1)
    where
      newest_if :
          (b : Bool) (rest : List Event)
          → All P (e ∷ f ∷ fs)
          → All P rest
          → All P (if b then f ∷ rest else e ∷ f ∷ fs)
      newest_if true rest old new = (h.0, new)
      newest_if false rest old new = old

  newest_first-All : (es : List Event) → All P es → All P (newest_first time es)
  unfolding newest_first
  newest_first-All [] h = tt
  newest_first-All (e ∷ es) h =
      insert_newest-All e (newest_first time es) h.0 (newest_first-All es h.1)

filter-All : (test : Event → Bool) (es : List Event) → All (λ e. test e ≡ true) (filter test es)
filter-All test [] = tt
filter-All test (e ∷ es) = elim (Bool-cases (test e)) [
  | inl passes ↦ rw passes (passes, filter-All test es)
  | inr fails ↦ rw fails (filter-All test es)
]

-- A page has only rows that pass the test, and at most `limit` of them.
page-items :
    (time : Event → ℕ) (encode : ℕ × String → String) (test : Event → Bool) (limit : ℕ)
    (events : List Event)
    → All (λ e. test e ≡ true) (page time encode test limit events).items
      × (length (page time encode test limit events).items ≤ limit)
unfolding page
page-items time encode test limit events =
    let rows = take (limit + 1) (newest_first time (filter test events)) in
    let all : All (λ e. test e ≡ true) rows =
      All-take (λ e. test e ≡ true) (limit + 1) (newest_first time (filter test events))
        (newest_first-All time (λ e. test e ≡ true) (filter test events)
          (filter-All test events)) in
    elim (Bool-cases (ltb limit (length rows))) [
      | inl more ↦ rw more (All-take (λ e. test e ≡ true) limit rows all, length-take-le limit rows)
      | inr fits ↦ rw fits (all, ground (arith, fits))
    ]

checked_limit-le : (default limit l : ℕ) → checked_limit default limit ≡ ok l → l ≤ 100
unfolding checked_limit
checked_limit-le default limit l h = ground arith

-- A list of events that succeeds shows at most 100 events, all of them published and not cancelled,
-- and all of them later than now.
pub list-shows_public :
    {Bytes : Type 0} (is_uuid : String → Bool) (decode : String → Option (ℕ × String))
    (encode : ℕ × String → String) (last_time : ℕ) (failed : Bool) (cursor : String) (limit now : ℕ)
    (db : Db Bytes) (r : Page)
    → list is_uuid decode encode last_time failed cursor limit now db ≡ ok r
    → All (λ e. (is_public e.status ≡ true) × (now < e.starts_at)) r.items × (length r.items ≤ 100)
unfolding list list_discoverable
list-shows_public is_uuid decode encode last_time failed cursor limit now db r h =
    let (l, within, listed) = bind-eq-ok (checked_limit 20 limit) _ r h in
    let (from, started, k) = bind-eq-ok (start decode last_time cursor) _ r listed in
    let (u, up, done) =
      bind-eq-ok (fail_if (failed || is_bad_id is_uuid cursor from) list_failed) _ r k in
    let (all, few) = page-items starts encode (is_discoverable now from) l db.events in
    subst
      (λ q.
        All (λ e. (is_public e.status ≡ true) × (now < e.starts_at)) q.items
        × (length q.items ≤ 100))
      (ok_inj done)
      (
        All-map _ (λ e shown. (ground (arith, shown), ground (arith, shown))) all,
        omega (arith, few, checked_limit-le 20 limit l within),
      )
