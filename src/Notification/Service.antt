-- ===== src/Notification/Service.antt =====
-- services/notification-service/internal/application: service.go and feed.go. `base64_decode` and
-- `base64_encode` are `base64.RawURLEncoding`, `is_uuid` is `uuid.Parse`. A cursor's time
-- counts nanoseconds from 1970 on.
pub mod Cursor
pub mod Laws
use Prim.Native.Char.{Char, code}
use text.Mathlib.Text.{starts_with}
use match_mate_dating_web.Base.{
  ℕ, zero, suc, ◌+◌, ◌-◌, ◌*◌, ◌/◌, ◌%◌, ◌^◌, Bool, true, false, not, ◌&&◌, ◌||◌, Option, none,
  some, List, [], ◌∷◌, String, ltb, leb, ◌==◌, nat_eq, string_eq, if◌then◌else◌,
}
use match_mate_dating_web.Base.Result.{Result, ok, err, fail_if, ◌>>=◌, ◌>>◌}
use match_mate_dating_web.Base.Integers.{ℤ, pos}
use match_mate_dating_web.Base.Text.{◌<>◌, trim_space, byte_length}
use match_mate_dating_web.Notification.Domain.{
  EventEnvelope, FeedCursor, FeedRecord, FeedItem, RenderedMessage, RenderProblem, render,
}
use match_mate_dating_web.Notification.Router.{Router, BookingPayload, InvalidEvent, route}
use match_mate_dating_web.Notification.Store
use match_mate_dating_web.Notification.Store.{Db}
use match_mate_dating_web.Notification.Store.Events.{apply_event}
use match_mate_dating_web.Notification.Store.Reads
use match_mate_dating_web.Notification.Store.Reads.{list_feed}
use match_mate_dating_web.Base.Numerals.{format_int, parse_int}

pub data Error : Type 0 where
  invalid_event : InvalidEvent → Error
  invalid_cursor notification_missing contract_exceeded : Error
  not_rendered : RenderProblem → Error
  from_store : Store.Error → Error

abbrev pub lift : {A : Type 0} → Result Store.Error A → Result Error A
lift (ok a) = ok a
lift (err e) = err (from_store e)

abbrev pub lift_route : {A : Type 0} → Result InvalidEvent A → Result Error A
lift_route (ok a) = ok a
lift_route (err e) = err (invalid_event e)

abbrev pub lift_render : {A : Type 0} → Result RenderProblem A → Result Error A
lift_render (ok a) = ok a
lift_render (err e) = err (not_rendered e)

-- `Handle`
unfoldable pub handle :
    (String → Bool)
    → (String → Option String)
    → (String → Option BookingPayload)
    → Router
    → ℕ
    → (ℕ → Bool)
    → (ℕ → String)
    → ℕ
    → EventEnvelope
    → Db
    → Result Error (Bool × Db)
handle is_uuid account_payload booking_payload router max fault ids now e db = do
  plan ← lift_route (route is_uuid account_payload booking_payload router e)
  lift (apply_event fault ids e plan now max db)

-- `strings.Split(s, "|")`
abbrev pub put_char : Char → List String → List String
put_char c [] = String.◌∷◌ c "" ∷ []
put_char c (p ∷ ps) = String.◌∷◌ c p ∷ ps

unfoldable pub split_bars : String → List String
split_bars String.[] = "" ∷ []
split_bars (String.◌∷◌ c s) =
    let rest = split_bars s in if code c == b'|' then "" ∷ rest else put_char c rest

-- `encodeCursor`
unfoldable pub encode_cursor : (String → String) → FeedCursor → String
encode_cursor base64_encode c = base64_encode (format_int c.created_at <> "|" <> c.id)

abbrev pub cursor_of : Option ℤ → String → Result Error (Option FeedCursor)
cursor_of none id = err invalid_cursor
cursor_of (some t) id = ok (some (record { created_at = t; id = id }))

-- The two parts of a cursor.
unfoldable pub read_parts : (String → Bool) → List String → Result Error (Option FeedCursor)
read_parts is_uuid (t ∷ id ∷ []) =
    if is_uuid id then cursor_of (parse_int t) id else err invalid_cursor
read_parts is_uuid _ = err invalid_cursor

-- `decodeCursor`
unfoldable pub decode_cursor :
    (String → Bool) → (String → Option String) → String → Result Error (Option FeedCursor)
decode_cursor is_uuid base64_decode value =
    if trim_space value == "" then ok none else elim (base64_decode value) [
      | none ↦ err invalid_cursor
      | some s ↦ read_parts is_uuid (split_bars s)
    ]

-- `actionPath`
unfoldable pub action_path : String → String
action_path kind =
    if starts_with kind "Booking" || kind == "HoldExpired" then "/app/bookings" else "/app/profile"

pub record FeedPage : Type 0 where
  pub items : List FeedItem
  pub next_cursor : String
  pub unread_count : ℕ

abbrev pub feed_item : FeedRecord → RenderedMessage → FeedItem
feed_item f m = record {
  id = f.id;
  source_event_type = f.source_event_type;
  category = f.category;
  title = m.subject;
  message = m.body;
  action_path = action_path f.source_event_type;
  read_at = f.read_at;
  created_at = f.created_at;
}

-- The loop of `List` over the records.
unfoldable pub feed_items :
    (String → List (String × String) → Option String)
    → List FeedRecord
    → Result Error (List FeedItem)
feed_items execute [] = ok []
feed_items execute (f ∷ fs) =
    let rest = feed_items execute fs in
    (do
      m ← lift_render (render execute f.template f.variables)
      fail_if (ltb 160 (byte_length m.subject) || ltb 2000 (byte_length m.body)) contract_exceeded
      items ← rest
      ok (feed_item f m ∷ items))

abbrev pub last_cursor : (String → String) → List FeedRecord → String
last_cursor base64_encode [] = ""
last_cursor base64_encode (f ∷ []) =
    encode_cursor base64_encode (record { created_at = pos f.created_at; id = f.id })
last_cursor base64_encode (f ∷ g ∷ fs) = last_cursor base64_encode (g ∷ fs)

-- `List`
unfoldable pub list :
    (String → List (String × String) → Option String)
    → (String → Bool)
    → (String → String)
    → (String → Option String)
    → (ℕ → Bool)
    → String
    → ℕ
    → String
    → Db
    → Result Error FeedPage
list execute is_uuid base64_encode base64_decode fault account limit cursor db = do
  fail_if (ltb limit 1 || ltb 50 limit) invalid_cursor
  c ← decode_cursor is_uuid base64_decode cursor
  r ← lift (list_feed (fault 0) account limit c db)
  items ← feed_items execute r.0
  unread ← lift (Reads.unread_count (fault 1) account db)
  ok (record {
    items = items;
    next_cursor = if r.1 then last_cursor base64_encode r.0 else "";
    unread_count = unread;
  })

-- `UnreadCount`
unfoldable pub unread_count : Bool → String → Db → Result Error ℕ
unread_count failed account db = lift (Reads.unread_count failed account db)

-- `MarkRead`; the statement's effect stays when the answer is an error of the service.
unfoldable pub mark_read :
    (String → Bool) → Bool → String → String → ℕ → Db → Result Error (Unit {0}) × Db
mark_read is_uuid failed account id now db =
    if is_uuid id
    then elim (Reads.mark_read failed account id now db) [
      | err e ↦ (err (from_store e), db)
      | ok r ↦ (fail_if (not r.0) notification_missing, r.1)
    ]
    else (err notification_missing, db)

-- `MarkAllRead`
unfoldable pub mark_all_read : Bool → String → ℕ → Db → Result Error (ℕ × Db)
mark_all_read failed account now db = lift (Reads.mark_all_read failed account now db)
