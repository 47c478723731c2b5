-- ===== src/Notification/Service/Laws.antt =====
-- Reading the member feed.
use match_mate_dating_web.Base.{
  ℕ, ◌≡◌, refl, Bool, true, false, List, [], ◌∷◌, String, arith, eq_iff, string_eq, count, map, inl,
  inr, ◌≢◌, Option-cases,
}
use match_mate_dating_web.Base.Result.{ok}
use match_mate_dating_web.Notification.Store.{Db, FeedRow}
use match_mate_dating_web.Notification.Store.Reads
use match_mate_dating_web.Notification.Store.Reads.{
  is_unread_of, is_read, read_since, mark, is_item_of,
}
use match_mate_dating_web.Notification.Service.{unread_count, mark_all_read}

all_read :
    (account : String) (now : ℕ) (feed : List FeedRow)
    → count (is_unread_of account) (map (mark (is_unread_of account) now) feed) ≡ 0
all_read account now [] = refl
all_read account now (f ∷ fs) = elim (Option-cases (f.read_at)) [
  | inl unread ↦ ground (arith, unread, all_read account now fs)
  | inr (t, read) ↦ ground (arith, read, all_read account now fs)
]

others_kept :
    (account other : String) (now : ℕ) (feed : List FeedRow)
    → other ≢ account
    → count (is_unread_of other) (map (mark (is_unread_of account) now) feed)
      ≡ count (is_unread_of other) feed
others_kept account other now [] h = refl
others_kept account other now (f ∷ fs) h = ground (
  arith,
  h,
  eq_iff f.recipient_account_id account,
  eq_iff f.recipient_account_id other,
  others_kept account other now fs h,
)

-- If `MarkAllRead` succeeds, its answer is the number of the account's unread items, none is left
-- unread, and the number of unread items of any other account is what it was.
pub mark_all_read-unread_count :
    (failed : Bool) (account other : String) (now : ℕ) (db : Db) (r : ℕ × Db)
    → other ≢ account
    → mark_all_read failed account now db ≡ ok r
    → (unread_count false account db ≡ ok r.0)
      × (unread_count false account r.1 ≡ ok 0)
      × (unread_count false other r.1 ≡ unread_count false other db)
unfolding mark_all_read unread_count Reads.mark_all_read Reads.unread_count
mark_all_read-unread_count true account other now db r ne h = absurd (cc)
mark_all_read-unread_count false account other now db r ne h =
    ground (arith, h, all_read account now db.feed, others_kept account other now db.feed ne)
