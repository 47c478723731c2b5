-- ===== src/Tests/Worker.antt =====
-- Runs of the worker, the router and the member feed.
use match_mate_dating_web.Base.{
  ℕ, ◌≡◌, ◌≢◌, refl, sym, ◌∙◌, Bool, true, false, Option, none, some, [], ◌∷◌, String, arith, ◌==◌,
  string_eq, All,
}
use match_mate_dating_web.Base.{eq_iff}
use match_mate_dating_web.Base.Integers.{pos}
use match_mate_dating_web.Base.Numerals.RoundTrip.{has_no_bar}
use match_mate_dating_web.Base.Text
use match_mate_dating_web.Base.Text.{trim_space}
use match_mate_dating_web.Base.Result.{ok}
use match_mate_dating_web.Booking.Domain
use match_mate_dating_web.Booking.Domain.{Booking}
use match_mate_dating_web.Booking.Store
use match_mate_dating_web.Booking.Store.{FactPayload}
use match_mate_dating_web.Booking.Store.Creations
use match_mate_dating_web.Booking.Store.Payments
use match_mate_dating_web.Booking.Service
use match_mate_dating_web.Notification.Domain.{FeedCursor, Plan}
use match_mate_dating_web.Notification.Store.{Db}
use match_mate_dating_web.Notification.Store.Commands
use match_mate_dating_web.Notification.Store.Events
use match_mate_dating_web.Notification.Store.Reads
use match_mate_dating_web.Notification.Router.{Router, BookingPayload, route}
use match_mate_dating_web.Notification.Router.Bookings.{
  run-route, envelope, IsNotice, is_identified, payload_of,
}
use match_mate_dating_web.Notification.Worker.{Worker, Provider, other}
use match_mate_dating_web.Notification.Service.{
  decode_cursor, encode_cursor, unread_count, mark_all_read,
}
use match_mate_dating_web.Notification.Service.Cursor.{decode_cursor-encode_cursor, cons_is_full}
use match_mate_dating_web.Notification.Service.Laws.{mark_all_read-unread_count}
use match_mate_dating_web.Tests.Notifications.{applied}
use match_mate_dating_web.Tests.Bookings.{hold, payment, upper}

abbrev down : Provider
down = record { execute = λ s vs. some s; resolver = none; send = λ d m to. ("", some other) }

abbrev worker : Worker
worker = record { lease = 5; retry_base = 30 }

abbrev known : String → Bool
known s = true

abbrev router : Router
router = record { locale = "en"; channel = "EMAIL" }

abbrev plain : String → Option BookingPayload
plain s = some (record { booking_id = "b1"; event_id = "e1"; account_id = "ann"; state = "" })

abbrev cursor : FeedCursor
cursor = record { created_at = pos 17; id = "n1" }

abbrev same : String → String
same s = s

abbrev decode_same : String → Option String
decode_same s = some s

-- A letter before every text but the empty one, in place of base64.
mark : String → String
mark String.[] = ""
mark (String.◌∷◌ c s) = String.◌∷◌ "x" (String.◌∷◌ c s)

unmark : String → Option String
unmark String.[] = some ""
unmark (String.◌∷◌ c s) = some s

unmark-mark : (s : String) → unmark (mark s) ≡ some s
unfolding mark unmark
unmark-mark String.[] = refl
unmark-mark (String.◌∷◌ c s) = refl

mark_blank : (s : String) → (trim_space (mark s) == "") ≡ (s == "")
unfolding mark trim_space Text.trim_left Text.trim_right
mark_blank String.[] = refl
mark_blank (String.◌∷◌ c s) =
    cons_is_full "x" (Text.trim_right (String.◌∷◌ c s)) ∙ sym (cons_is_full c s)

cursor-has_no_bar : has_no_bar cursor.id ≡ true
unfolding has_no_bar
cursor-has_no_bar = refl

decode_cursor-encode_cursor_example :
    decode_cursor known unmark (encode_cursor mark cursor) ≡ ok (some cursor)
decode_cursor-encode_cursor_example =
    decode_cursor-encode_cursor known mark unmark cursor unmark-mark mark_blank refl refl
      cursor-has_no_bar

abbrev read_all : ℕ × Db
read_all = (1, Commands.run (Commands.marks_all false "ann" 60 ∷ []) applied)

read_all-ok : mark_all_read false "ann" 60 applied ≡ ok read_all
unfolding mark_all_read Reads.mark_all_read Commands.run Commands.execute Events.apply_event
    Events.perform Events.deliver Events.insert_row Events.insert_feed
read_all-ok = refl

bob-ne-ann : ◌≢◌ {A = String} "bob" "ann"
bob-ne-ann h = absurd (ground (arith, h, eq_iff "bob" "ann"))

mark_all_read-unread_count_example :
    (unread_count false "ann" applied ≡ ok 1)
    × (unread_count false "ann" read_all.1 ≡ ok 0)
    × (unread_count false "bob" read_all.1 ≡ unread_count false "bob" applied)
mark_all_read-unread_count_example =
    mark_all_read-unread_count false "ann" "bob" 60 applied read_all bob-ne-ann read_all-ok

abbrev no_text : FactPayload → String
no_text b = ""

facts_identified :
    All
      (λ f. is_identified known f ≡ true)
      (Service.run upper (hold ∷ payment ∷ []) Store.empty).outbox
unfolding Service.run Service.execute Service.create Service.place Domain.validate_event
    Domain.money_pattern Domain.normalize_money Domain.after_point Creations.create
    Creations.create_new Creations.ensure_allocation Store.insert_fact Payments.apply_payment_event
    Payments.payment_new Payments.payment_effect Text.is_digit Domain.allowed_payment_method
    Text.byte_length
facts_identified = (refl, (refl, tt))

facts_decoded :
    All
      (λ f. plain (no_text f.payload) ≡ some (payload_of no_text f.payload))
      (Service.run upper (hold ∷ payment ∷ []) Store.empty).outbox
unfolding Service.run Service.execute Service.create Service.place Domain.validate_event
    Domain.money_pattern Domain.normalize_money Domain.after_point Creations.create
    Creations.create_new Creations.ensure_allocation Store.insert_fact Payments.apply_payment_event
    Payments.payment_new Payments.payment_effect Text.is_digit Domain.allowed_payment_method
    Text.byte_length
facts_decoded = (refl, (refl, tt))

run-route_example :
    All
      (λ f.
        (q : Plan) × (route known decode_same plain router (envelope no_text f) ≡ ok q)
        × IsNotice router f q)
      (Service.run upper (hold ∷ payment ∷ []) Store.empty).outbox
run-route_example =
    run-route known decode_same plain no_text router no_text upper (hold ∷ payment ∷ [])
      facts_identified facts_decoded
