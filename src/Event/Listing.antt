-- ===== src/Event/Listing.antt =====
-- The paged lists of events: ListDiscoverable and ListManaged of
-- services/event-service/internal/store/postgres/repository.go, List and ListManaged of
-- internal/application/service.go, and Public of internal/domain/event.go.
-- `decode` and `encode` are base64 with JSON: the time and the id in a cursor, `none` for a cursor
-- that is not valid. `is_uuid` says which texts PostgreSQL casts to a UUID, `last_time` the first
-- instant of the year 9999.
pub mod Pages
use Prim.Native.String.{compare}
use Prim.Native.Nat.{Ordering}
use match_mate_dating_web.Base.{
  ℕ, zero, suc, ◌+◌, Bool, true, false, not, ◌&&◌, ◌||◌, Option, none, some, List, [], ◌∷◌, String,
  ltb, ◌==◌, nat_eq, string_eq, if◌then◌else◌, take, filter, length,
}
use match_mate_dating_web.Base.Result.{Result, ok, err, fail_if, ◌>>=◌, ◌>>◌}
use match_mate_dating_web.Event.Domain.{Status, Event, Principal, has_role}
use match_mate_dating_web.Event.Store.{Db, is_public}

pub record PublicEvent : Type 0 where
  pub id : String
  pub name : String
  pub description : String
  pub broad_location : String
  pub time_zone : String
  pub starts_at : ℕ
  pub ends_at : ℕ
  pub registration_opens_at : ℕ
  pub registration_closes_at : ℕ
  pub price : String
  pub currency : String
  pub payment_options : String
  pub image_version : ℕ
  pub configured_capacity : ℕ
  pub matching_ruleset_version : String
  pub status : Status
  pub version : ℕ

-- `Public`: without the organizer, the venue and the times of the record.
abbrev pub public_event : Event → PublicEvent
public_event e = record {
  id = e.id;
  name = e.name;
  description = e.description;
  broad_location = e.broad_location;
  time_zone = e.time_zone;
  starts_at = e.starts_at;
  ends_at = e.ends_at;
  registration_opens_at = e.registration_opens_at;
  registration_closes_at = e.registration_closes_at;
  price = e.price;
  currency = e.currency;
  payment_options = e.payment_options;
  image_version = e.image_version;
  configured_capacity = e.configured_capacity;
  matching_ruleset_version = e.matching_ruleset_version;
  status = e.status;
  version = e.version;
}

pub record Page : Type 0 where
  pub items : List Event
  pub next_cursor : String
  pub limit : ℕ

pub data ListError : Type 0 where
  cursor_invalid limit_invalid list_forbidden list_failed : ListError

abbrev pub text_less : String → String → Bool
text_less s t = elim (compare s t) [ Ordering.lt ↦ true | _ ↦ false ]

-- `(time,event_id)<($1,$2)`
abbrev pub row_less : ℕ × String → ℕ × String → Bool
row_less (t, i) (u, j) = ltb t u || (t == u && text_less i j)

abbrev pub last_id : String
last_id = "ffffffff-ffff-ffff-ffff-ffffffffffff"

-- The place from which a page is read.
abbrev pub start : (String → Option (ℕ × String)) → ℕ → String → Result ListError (ℕ × String)
start decode last_time cursor =
    if cursor == "" then ok (last_time, last_id) else elim (decode cursor) [
      | none ↦ err cursor_invalid
      | some (t, id) ↦ (if id == "" then err cursor_invalid else ok (t, id))
    ]

-- `ORDER BY time DESC,event_id DESC`
module _ (time : Event → ℕ) where
  unfoldable pub insert_newest : Event → List Event → List Event
  insert_newest e [] = e ∷ []
  insert_newest e (f ∷ fs) =
      let rest = insert_newest e fs in
      if row_less (time e, e.id) (time f, f.id) then f ∷ rest else e ∷ f ∷ fs

  unfoldable pub newest_first : List Event → List Event
  unfolding insert_newest
  newest_first [] = []
  newest_first (e ∷ es) = insert_newest e (newest_first es)

  abbrev pub last_key : List Event → ℕ × String
  last_key [] = (0, "")
  last_key (e ∷ []) = (time e, e.id)
  last_key (e ∷ f ∷ es) = last_key (f ∷ es)

  -- The page of `limit` of the rows that pass a test, by reading one row more.
  unfoldable pub page : (ℕ × String → String) → (Event → Bool) → ℕ → List Event → Page
  unfolding newest_first
  page encode test limit events =
      let rows = take (limit + 1) (newest_first (filter test events)) in
      if ltb limit (length rows)
      then record {
        items = take limit rows;
        next_cursor = encode (last_key (take limit rows));
        limit = limit;
      }
      else record { items = rows; next_cursor = ""; limit = limit }

-- The limit of a request: a default for zero, and an error out of 1 to 100.
unfoldable pub checked_limit : ℕ → ℕ → Result ListError ℕ
checked_limit default limit =
    let l = if limit == 0 then default else limit in
    if ltb l 1 || ltb 100 l then err limit_invalid else ok l

abbrev pub starts : Event → ℕ
starts e = e.starts_at

abbrev pub updates : Event → ℕ
updates e = e.updated_at

abbrev pub is_discoverable : ℕ → ℕ × String → Event → Bool
is_discoverable now from e =
    is_public e.status && (ltb now e.starts_at && row_less (e.starts_at, e.id) from)

abbrev pub is_managed : Principal → ℕ × String → Event → Bool
is_managed p from e =
    (has_role p "admin" || e.organizer_id == p.subject) && row_less (e.updated_at, e.id) from

-- `$3::uuid` fails on a text that is not a UUID.
abbrev pub is_bad_id : (String → Bool) → String → ℕ × String → Bool
is_bad_id is_uuid cursor from = not (cursor == "") && not (is_uuid from.1)

module _ {Bytes : Type 0} (is_uuid : String → Bool) (decode : String → Option (ℕ × String))
    (encode : ℕ × String → String) (last_time : ℕ) (failed : Bool) where
  -- `ListDiscoverable` of the repository
  unfoldable pub list_discoverable : String → ℕ → ℕ → Db Bytes → Result ListError Page
  unfolding page
  list_discoverable cursor limit now db = do
    from ← start decode last_time cursor
    fail_if (failed || is_bad_id is_uuid cursor from) list_failed
    ok (page starts encode (is_discoverable now from) limit db.events)

  -- `ListManaged` of the repository
  unfoldable pub list_managed_rows : Principal → String → ℕ → Db Bytes → Result ListError Page
  unfolding page
  list_managed_rows p cursor limit db = do
    from ← start decode last_time cursor
    fail_if (failed || is_bad_id is_uuid cursor from) list_failed
    ok (page updates encode (is_managed p from) limit db.events)

  -- `List`
  unfoldable pub list : String → ℕ → ℕ → Db Bytes → Result ListError Page
  unfolding checked_limit list_discoverable
  list cursor limit now db = do l ← checked_limit 20 limit; list_discoverable cursor l now db

  -- `ListManaged`
  unfoldable pub list_managed : Principal → String → ℕ → Db Bytes → Result ListError Page
  unfolding checked_limit list_managed_rows
  list_managed p cursor limit db = do
    fail_if (not (has_role p "admin") && not (has_role p "organizer")) list_forbidden
    l ← checked_limit 50 limit
    list_managed_rows p cursor l db
