-- ===== src/Event/Service.antt =====
-- services/event-service/internal/application/service.go. Each call gives the new database or an
-- error. The clock `now` is the time of the call. Event ids are UUIDs in their canonical spelling.
pub mod Laws
pub mod Terms
use match_mate_dating_web.Base.{
  ℕ, suc, ◌+◌, Bool, true, false, not, ◌&&◌, ◌||◌, Option, none, some, List, [], ◌∷◌, String, ltb,
  ◌==◌, string_eq, if◌then◌else◌,
}
use match_mate_dating_web.Base.Result.{Result, ok, err, fail_if, ◌>>=◌, ◌>>◌}
use match_mate_dating_web.Base.Text.{trim_space}
use match_mate_dating_web.Event.Domain.{
  Status, Event, CreateInput, Principal, has_role, can_transition, validate,
}
use match_mate_dating_web.Event.Store
use match_mate_dating_web.Event.Store.{Fact, Db}

-- The problems, by their codes, and the errors of the store that pass through.
pub data Error : Type 0 where
  admin_required : Error
  validation_failed : List (String × String) → Error
  event_not_found state_conflict organizer_scope version_conflict transition_invalid : Error
  publication_window_expired cancellation_reason_required registration_window_inactive : Error
  forbidden image_invalid image_too_large image_not_found : Error
  from_store : Store.Error → Error

abbrev pub is_some_problem : List (String × String) → Bool
is_some_problem [] = false
is_some_problem (f ∷ fs) = true

abbrev pub is_published : Status → Bool
is_published Status.published = true
is_published _ = false

abbrev pub is_cancelled : Status → Bool
is_cancelled Status.cancelled = true
is_cancelled _ = false

abbrev pub is_open : Status → Bool
is_open Status.registration_open = true
is_open _ = false

-- The names of the facts; a status outside the map has the empty name.
abbrev pub fact_name : Status → String
fact_name Status.draft = ""
fact_name Status.published = "EventPublished"
fact_name Status.registration_open = "EventRegistrationOpened"
fact_name Status.registration_closed = "EventRegistrationClosed"
fact_name Status.cancelled = "EventCancelled"

-- `fact`; `ids 0` is the new correlation id, `ids 1` the id of the fact.
abbrev pub fact : (ℕ → String) → String → Event → Principal → String → Fact
fact ids kind e p corr = record {
  fact_id = ids 1;
  kind = kind;
  aggregate_id = e.id;
  correlation_id = if corr == "" then ids 0 else corr;
  actor_id = p.subject;
  status = some e.status;
  version = e.version;
}

abbrev pub or_not_found : {A : Type 0} → Result Store.Error A → Result Error A
or_not_found (ok a) = ok a
or_not_found (err Store.not_found) = err event_not_found
or_not_found (err e) = err (from_store e)

abbrev pub or_version_conflict : {A : Type 0} → Result Store.Error A → Result Error A
or_version_conflict (ok a) = ok a
or_version_conflict (err Store.conflict) = err version_conflict
or_version_conflict (err e) = err (from_store e)

abbrev pub or_same : {A : Type 0} → Result Store.Error A → Result Error A
or_same (ok a) = ok a
or_same (err e) = err (from_store e)

abbrev pub default_to : String → String → String
default_to d s = if s == "" then d else s

abbrev pub may_change : Principal → Event → Bool
may_change p e = has_role p "admin" || (has_role p "organizer" && e.organizer_id == p.subject)

-- The event that `Create` builds.
abbrev pub new_event : (ℕ → String) → ℕ → CreateInput → Event
new_event ids now i = record {
  id = ids 2;
  organizer_id = trim_space i.organizer_id;
  name = trim_space i.name;
  description = trim_space i.description;
  venue_name = trim_space i.venue_name;
  broad_location = trim_space i.broad_location;
  time_zone = i.time_zone;
  starts_at = i.starts_at;
  ends_at = i.ends_at;
  registration_opens_at = i.registration_opens_at;
  registration_closes_at = i.registration_closes_at;
  price = i.price;
  currency = i.currency;
  payment_options = default_to "ONLINE" i.payment_options;
  image_version = 0;
  configured_capacity = i.configured_capacity;
  capacity_policy_version = 1;
  matching_ruleset_version = trim_space i.matching_ruleset_version;
  status = Status.draft;
  version = 1;
  created_at = now;
  updated_at = now;
}

abbrev pub assigned : Event → CreateInput → CreateInput
assigned e i = record i { organizer_id = default_to e.organizer_id i.organizer_id }

abbrev pub priced : Event → CreateInput → CreateInput
priced e i = record i { payment_options = default_to e.payment_options i.payment_options }

-- The tests of `Transition` on the event that it has read.
unfoldable pub check_transition : ℕ → Status → String → Event → Result Error (Unit {0})
check_transition now to reason e = do
  fail_if (not (can_transition e.status to)) transition_invalid
  fail_if (is_published to && not (ltb now e.registration_closes_at)) publication_window_expired
  fail_if (is_cancelled to && trim_space reason == "") cancellation_reason_required
  fail_if
      (is_open to && (ltb now e.registration_opens_at || not (ltb now e.registration_closes_at)))
      registration_window_inactive

-- The tests of `Update` on the event that it has read, and the input that it saves.
unfoldable pub check_update :
    (String → Bool) → Principal → CreateInput → Event → Result Error CreateInput
check_update known_zone p i e = do
  fail_if (not (Store.is_draft e.status)) state_conflict
  fail_if
      (has_role p "organizer"
        && (not (has_role p "admin") && not ((assigned e i).organizer_id == p.subject)))
      organizer_scope
  fail_if (is_some_problem (validate known_zone (assigned e i)))
      (validation_failed (validate known_zone (assigned e i)))
  ok (priced e (assigned e i))

module _ {Bytes : Type 0} (known_zone : String → Bool) (numeric_text : String → String) where
  -- `Create`
  unfoldable pub create :
      (ℕ → Bool)
      → (ℕ → String)
      → ℕ
      → Principal
      → CreateInput
      → String
      → Db Bytes
      → Result Error (Event × Db Bytes)
  create fault ids now p i corr db = do
    fail_if (not (has_role p "admin")) admin_required
    fail_if (is_some_problem (validate known_zone i)) (validation_failed (validate known_zone i))
    or_same (
        Store.create fault numeric_text (new_event ids now i)
          (fact ids "EventCreated" (new_event ids now i) p corr) db)

  -- `authorize`
  unfoldable pub authorize : Bool → Principal → String → Db Bytes → Result Error Event
  authorize failed p id db = do
    e ← or_not_found (Store.get failed id db)
    fail_if (not (may_change p e)) forbidden
    ok e

  -- `Update`; `failed` is for the read of `authorize`.
  unfoldable pub update :
      Bool
      → (ℕ → Bool)
      → (ℕ → String)
      → ℕ
      → Principal
      → String
      → CreateInput
      → ℕ
      → String
      → Db Bytes
      → Result Error (Event × Db Bytes)
  update failed fault ids now p id i expected corr db = do
    e ← authorize failed p id db
    saved ← check_update known_zone p i e
    or_version_conflict (
        Store.update fault numeric_text now id saved expected (fact ids "EventUpdated" e p corr) db)

  -- `Transition`
  unfoldable pub transition :
      Bool
      → (ℕ → Bool)
      → (ℕ → String)
      → ℕ
      → Principal
      → String
      → ℕ
      → Status
      → String
      → String
      → Db Bytes
      → Result Error (Event × Db Bytes)
  transition failed fault ids now p id expected to reason corr db = do
    e ← authorize failed p id db
    check_transition now to reason e
    or_version_conflict (
        Store.transition fault now id expected to reason e.status (fact ids (fact_name to) e p corr)
          db)

-- A call, with the time, the faults and the new ids that it meets. An image is saved after
-- `SanitizeImage` has accepted it.
pub data Command (Bytes : Type 0) : Type 0 where
  creates : (ℕ → Bool) → (ℕ → String) → ℕ → Principal → CreateInput → String → Command Bytes
  updates :
      Bool
      → (ℕ → Bool)
      → (ℕ → String)
      → ℕ
      → Principal
      → String
      → CreateInput
      → ℕ
      → String
      → Command Bytes
  moves :
      Bool
      → (ℕ → Bool)
      → (ℕ → String)
      → ℕ
      → Principal
      → String
      → ℕ
      → Status
      → String
      → String
      → Command Bytes
  saves_image : (ℕ → Bool) → ℕ → String → Bytes → String → Command Bytes

module _ {Bytes : Type 0} where
  abbrev pub committed : {E A : Type 0} → Result E (A × Db Bytes) → Db Bytes → Db Bytes
  committed (ok r) db = r.1
  committed (err e) db = db

  unfoldable pub execute : (String → Bool) → (String → String) → Command Bytes → Db Bytes → Db Bytes
  execute known_zone numeric_text (creates fault ids now p i corr) db =
      committed (create known_zone numeric_text fault ids now p i corr db) db
  execute known_zone numeric_text (updates failed fault ids now p id i expected corr) db =
      committed (update known_zone numeric_text failed fault ids now p id i expected corr db) db
  execute known_zone numeric_text (moves failed fault ids now p id expected to reason corr) db =
      committed
        (transition known_zone numeric_text failed fault ids now p id expected to reason corr db) db
  execute known_zone numeric_text (saves_image fault now id bytes actor) db =
      committed (Store.save_image fault now id bytes actor db) db

  unfoldable pub run :
      (String → Bool) → (String → String) → List (Command Bytes) → Db Bytes → Db Bytes
  run known_zone numeric_text [] db = db
  run known_zone numeric_text (c ∷ cs) db =
      run known_zone numeric_text cs (execute known_zone numeric_text c db)
