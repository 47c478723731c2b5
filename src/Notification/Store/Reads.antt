-- ===== src/Notification/Store/Reads.antt =====
-- The member feed of services/notification-service/internal/store/postgres/repository.go. Texts of
-- canonical identifiers are in the order of their UUIDs.
use Prim.Native.String.{compare}
use match_mate_dating_web.Base.{
  ℕ, ◌+◌, Bool, true, false, not, ◌&&◌, ◌||◌, Option, none, some, List, [], ◌∷◌, ◌++◌, String, ltb,
  ◌==◌, nat_eq, string_eq, if◌then◌else◌, count, filter, length, map, take,
}
use match_mate_dating_web.Base.Integers.{pos, less}
use match_mate_dating_web.Base.Tables.{find}
use match_mate_dating_web.Base.Result.{Result, ok, fail_if, ◌>>◌}
use match_mate_dating_web.Notification.Domain.{FeedCursor, FeedRecord}
use match_mate_dating_web.Notification.Store.{
  StoredTemplate, Row, FeedRow, Db, Error, store_failed, has_id,
}
use match_mate_dating_web.Notification.Store.Attempts.{has_template_id}
use Prim.Native.Nat.{Ordering}

abbrev pub text_before : String → String → Bool
text_before s t = elim (compare s t) [ Ordering.lt ↦ true | _ ↦ false ]

-- `(f.created_at,f.id)<($3,$4)`
abbrev pub is_past : Option FeedCursor → FeedRecord → Bool
is_past none f = true
is_past (some c) f =
    less (pos f.created_at) c.created_at
    || (not (less c.created_at (pos f.created_at)) && text_before f.id c.id)

-- `ORDER BY f.created_at DESC,f.id DESC`
abbrev pub goes_before : FeedRecord → FeedRecord → Bool
goes_before a b =
    ltb b.created_at a.created_at || (a.created_at == b.created_at && text_before b.id a.id)

abbrev pub put_in : FeedRecord → List FeedRecord → List FeedRecord
put_in f [] = f ∷ []
put_in f (g ∷ gs) = let rest = put_in f gs in if goes_before g f then g ∷ rest else f ∷ g ∷ gs

abbrev pub newest_first : List FeedRecord → List FeedRecord
newest_first [] = []
newest_first (f ∷ fs) = put_in f (newest_first fs)

abbrev pub with_template : FeedRow → Row → Option StoredTemplate → List FeedRecord
with_template f r none = []
with_template f r (some s) =
    record {
      id = f.id;
      source_event_type = r.source_event_type;
      category = r.category;
      template = s.template;
      variables = r.variables;
      read_at = f.read_at;
      created_at = f.created_at;
    }
    ∷ []

abbrev pub with_delivery : List StoredTemplate → FeedRow → Option Row → List FeedRecord
with_delivery ts f none = []
with_delivery ts f (some r) = with_template f r (find (has_template_id r.template_id) ts)

-- The rows of one account, joined with their deliveries and templates.
abbrev pub feed_records : String → Db → List FeedRow → List FeedRecord
feed_records account db [] = []
feed_records account db (f ∷ fs) =
    let rest = feed_records account db fs in
    if f.recipient_account_id == account
    then with_delivery db.templates f (find (has_id f.delivery_id) db.deliveries) ++ rest
    else rest

-- `ListFeed`
unfoldable pub list_feed :
    Bool → String → ℕ → Option FeedCursor → Db → Result Error (List FeedRecord × Bool)
list_feed failed account limit cursor db = do
  fail_if failed store_failed
  let records =
      take (limit + 1) (newest_first (filter (is_past cursor) (feed_records account db db.feed)))
  ok (take limit records, ltb limit (length records))

abbrev pub is_read : Option ℕ → Bool
is_read none = false
is_read (some t) = true

abbrev pub is_unread_of : String → FeedRow → Bool
is_unread_of account f = f.recipient_account_id == account && not (is_read f.read_at)

-- `UnreadCount`
unfoldable pub unread_count : Bool → String → Db → Result Error ℕ
unread_count failed account db = do
  fail_if failed store_failed
  ok (count (is_unread_of account) db.feed)

abbrev pub is_item_of : String → String → FeedRow → Bool
is_item_of account id f = f.id == id && f.recipient_account_id == account

abbrev pub read_since : ℕ → Option ℕ → Option ℕ
read_since now none = some now
read_since now (some t) = some t

abbrev pub mark : (FeedRow → Bool) → ℕ → FeedRow → FeedRow
mark p now f = if p f then record f { read_at = read_since now f.read_at } else f

-- `MarkRead`; the id is the primary key.
unfoldable pub mark_read : Bool → String → String → ℕ → Db → Result Error (Bool × Db)
mark_read failed account id now db = do
  fail_if failed store_failed
  ok (
    count (is_item_of account id) db.feed == 1,
    record db { feed = map (mark (is_item_of account id) now) db.feed },
  )

-- `MarkAllRead`
unfoldable pub mark_all_read : Bool → String → ℕ → Db → Result Error (ℕ × Db)
mark_all_read failed account now db = do
  fail_if failed store_failed
  ok (
    count (is_unread_of account) db.feed,
    record db { feed = map (mark (is_unread_of account) now) db.feed },
  )
