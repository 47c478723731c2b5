-- ===== src/Tests/Events.antt =====
-- Runs of the event service.
use match_mate_dating_web.Base.{ℕ, ◌≡◌, refl, Bool, true, false, some, [], ◌∷◌, String}
use match_mate_dating_web.Base.Tables.{find}
use match_mate_dating_web.Base.Result.{ok}
use match_mate_dating_web.Event.Domain.{Status, Event, CreateInput, Principal}
use match_mate_dating_web.Event.Store.{Db, has_id}
use match_mate_dating_web.Event.Store.Lifecycle.{Follows}
use match_mate_dating_web.Event.Store.Keeps.{IsValid}
use match_mate_dating_web.Event.Service.{Command, creates, updates, moves, transition, run}
use match_mate_dating_web.Event.Domain
use match_mate_dating_web.Event.Store
use match_mate_dating_web.Event.Service
use match_mate_dating_web.Base.{◌<◌, ◌≤◌, All, length, Option, none}
use match_mate_dating_web.Event.Store.{is_public}
use match_mate_dating_web.Event.Listing
use match_mate_dating_web.Event.Listing.{Page, list}
use match_mate_dating_web.Event.Listing.Pages.{list-shows_public}
use match_mate_dating_web.Base.Text
use match_mate_dating_web.Base.{inl, arith}
use match_mate_dating_web.Event.Service.Terms.{IsSound, run-AreSound}
use match_mate_dating_web.Event.Service.Laws.{run-keeps_events}

abbrev no_fault : ℕ → Bool
no_fault n = false

abbrev no_ids : ℕ → String
no_ids n = "id"

abbrev any_zone : String → Bool
any_zone z = true

abbrev same_text : String → String
same_text t = t

abbrev admin : Principal
admin = record { subject = "root"; roles = "admin" ∷ [] }

-- A published event.
abbrev dinner : Event
dinner = record {
  id = "e1";
  organizer_id = "olga";
  name = "Dinner";
  description = "";
  venue_name = "";
  broad_location = "Colombo";
  time_zone = "Asia/Colombo";
  starts_at = 300;
  ends_at = 400;
  registration_opens_at = 100;
  registration_closes_at = 200;
  price = "10.00";
  currency = "LKR";
  payment_options = "ONLINE";
  image_version = 0;
  configured_capacity = 20;
  capacity_policy_version = 1;
  matching_ruleset_version = "v1";
  status = Status.published;
  version = 2;
  created_at = 1;
  updated_at = 1;
}

abbrev one_event : Db String
one_event = record { events = dinner ∷ []; audit = []; image_audit = []; images = []; outbox = [] }

one_event-IsValid : IsValid one_event
one_event-IsValid = record { unique = (refl, tt); checked = (refl, tt) }

abbrev opening : Command String
opening = moves false no_fault no_ids 150 admin "e1" 2 Status.registration_open "" "c"

dinner-IsSound : IsSound any_zone dinner
unfolding Text.currency_pattern
dinner-IsSound = record {
  zone = refl;
  window = omega arith;
  closing = omega arith;
  times = omega arith;
  room = omega arith;
  at_most = omega arith;
  currency = refl;
  payable = inl refl;
}

abbrev ball : CreateInput
ball = record {
  organizer_id = "olga";
  name = "Ball";
  description = "";
  venue_name = "";
  broad_location = "Kandy";
  time_zone = "Asia/Colombo";
  starts_at = 700;
  ends_at = 800;
  registration_opens_at = 500;
  registration_closes_at = 600;
  price = "10.00";
  currency = "LKR";
  payment_options = "";
  configured_capacity = 40;
  matching_ruleset_version = "v1";
}

abbrev planning : Command String
planning = creates no_fault no_ids 160 admin ball "c"

two_events-length : length (run any_zone same_text (opening ∷ planning ∷ []) one_event).events ≡ 2
unfolding run Service.execute Service.create Service.transition Service.authorize
    Service.check_transition Store.get Store.transition Store.create Domain.can_transition
    Domain.validate Domain.money Domain.more_digits Text.currency_pattern Text.is_digit
    Text.trim_space Text.trim_left Text.trim_right Text.byte_length
two_events-length = refl

run-AreSound_example :
    All (IsSound any_zone) (run any_zone same_text (opening ∷ planning ∷ []) one_event).events
run-AreSound_example =
    run-AreSound any_zone same_text (opening ∷ planning ∷ []) one_event (dinner-IsSound, tt)

run-keeps_events_example :
    (e' : Event) × (find (has_id "e1") (run any_zone same_text (opening ∷ []) one_event).events
      ≡ some e')
    × Follows dinner e'
run-keeps_events_example =
    run-keeps_events any_zone same_text (opening ∷ []) one_event "e1" dinner one_event-IsValid refl

abbrev opened : Event × Db String
opened = (
  record dinner { status = Status.registration_open; version = 3; updated_at = 150 },
  record {
    events =
        record dinner { status = Status.registration_open; version = 3; updated_at = 150 } ∷ [];
    audit =
        record {
          event_id = "e1";
          actor_id = "root";
          action = "EventRegistrationOpened";
          reason = "";
          prior_state = Status.published;
          new_state = Status.registration_open;
          occurred_at = 150;
        }
        ∷ [];
    image_audit = [];
    images = [];
    outbox =
        record {
          fact_id = "id";
          kind = "EventRegistrationOpened";
          aggregate_id = "e1";
          correlation_id = "c";
          actor_id = "root";
          status = some Status.registration_open;
          version = 3;
        }
        ∷ [];
  },
)

abbrev no_cursor : String → Option (ℕ × String)
no_cursor s = none

abbrev dinner_page : Page
dinner_page = record { items = dinner ∷ []; next_cursor = ""; limit = 20 }

dinner_page-ok : list any_zone no_cursor (λ k. k.1) 9999 false "" 0 50 one_event ≡ ok dinner_page
unfolding list Listing.newest_first
dinner_page-ok = refl

list-shows_public_example :
    All (λ e. (is_public e.status ≡ true) × (50 < e.starts_at)) (dinner ∷ [])
    × (length (dinner ∷ []) ≤ 100)
list-shows_public_example =
    list-shows_public any_zone no_cursor (λ k. k.1) 9999 false "" 0 50 one_event dinner_page
      dinner_page-ok
