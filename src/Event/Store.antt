-- ===== src/Event/Store.antt =====
-- services/event-service/internal/store/postgres/repository.go with the constraints of
-- migrations/. A call is a transaction: it gives a new database or leaves the old one. `fault n`
-- says whether its n-th round trip to the database fails, `numeric_text` is the text of a price
-- that the column NUMERIC(12,2) gives back.
pub mod Lifecycle
pub mod Keeps
use match_mate_dating_web.Base.{
  ℕ, suc, ◌+◌, Bool, true, false, not, ◌&&◌, ◌||◌, Option, none, some, List, [], ◌∷◌, ◌++◌, String,
  ltb, leb, ◌==◌, nat_eq, string_eq, if◌then◌else◌, any,
}
use match_mate_dating_web.Base.Tables.{find, update_row}
use match_mate_dating_web.Base.Result.{Result, ok, err, fail_if, ◌>>=◌, ◌>>◌}
use match_mate_dating_web.Event.Domain.{Status, Event, CreateInput}

pub record Fact : Type 0 where
  pub fact_id : String
  pub kind : String
  pub aggregate_id : String
  pub correlation_id : String
  pub actor_id : String
  pub status : Option Status
  pub version : ℕ

pub record Audit : Type 0 where
  pub event_id : String
  pub actor_id : String
  pub action : String
  pub reason : String
  pub prior_state : Status
  pub new_state : Status
  pub occurred_at : ℕ

pub record ImageAudit : Type 0 where
  pub event_id : String
  pub actor_id : String
  pub prior_version : ℕ
  pub new_version : ℕ
  pub occurred_at : ℕ

pub record Image (Bytes : Type 0) : Type 0 where
  pub event_id : String
  pub bytes : Bytes
  pub updated_at : ℕ

pub record Db (Bytes : Type 0) : Type 0 where
  pub events : List Event
  pub audit : List Audit
  pub image_audit : List ImageAudit
  pub images : List (Image Bytes)
  pub outbox : List Fact

pub data Error : Type 0 where
  not_found conflict store_failed check_violation : Error

abbrev pub has_id : String → Event → Bool
has_id id e = e.id == id

abbrev pub is_draft : Status → Bool
is_draft Status.draft = true
is_draft _ = false

-- The three CHECKs on the times and the one on the capacity.
abbrev pub passes_checks : Event → Bool
passes_checks e =
    ltb e.starts_at e.ends_at
    && (ltb e.registration_opens_at e.registration_closes_at
        && (ltb e.registration_closes_at e.starts_at
            && (leb 1 e.configured_capacity && leb e.configured_capacity 10000)))

-- What `Update` writes into the row.
unfoldable pub updated : (String → String) → ℕ → CreateInput → Event → Event
updated numeric_text now i e = record e {
  organizer_id = i.organizer_id;
  name = i.name;
  description = i.description;
  venue_name = i.venue_name;
  broad_location = i.broad_location;
  time_zone = i.time_zone;
  starts_at = i.starts_at;
  ends_at = i.ends_at;
  registration_opens_at = i.registration_opens_at;
  registration_closes_at = i.registration_closes_at;
  price = numeric_text i.price;
  currency = i.currency;
  payment_options = i.payment_options;
  configured_capacity = i.configured_capacity;
  capacity_policy_version =
      if e.configured_capacity == i.configured_capacity
      then e.capacity_policy_version
      else e.capacity_policy_version + 1;
  matching_ruleset_version = i.matching_ruleset_version;
  version = e.version + 1;
  updated_at = now;
}

-- `WHERE event_id=$1 AND version=$2`
abbrev pub at_version : String → ℕ → Event → Bool
at_version id expected e = e.id == id && e.version == expected

abbrev pub moved : ℕ → Status → Event → Event
moved now to e = record e { status = to; version = e.version + 1; updated_at = now }

abbrev pub next_image : ℕ → Event → Event
next_image now e = record e { image_version = e.image_version + 1; updated_at = now }

abbrev pub is_public : Status → Bool
is_public Status.published = true
is_public Status.registration_open = true
is_public Status.registration_closed = true
is_public _ = false

module _ {Bytes : Type 0} where
  abbrev pub with_events : List Event → Db Bytes → Db Bytes
  with_events events db = record db { events = events }

  abbrev pub with_fact : Fact → Db Bytes → Db Bytes
  with_fact f db = record db { outbox = db.outbox ++ f ∷ [] }

  -- `Create`
  unfoldable pub create :
      (ℕ → Bool) → (String → String) → Event → Fact → Db Bytes → Result Error (Event × Db Bytes)
  create fault numeric_text e f db = do
    fail_if (fault 0) store_failed
    fail_if (fault 1) store_failed
    fail_if (not (passes_checks e)) check_violation
    fail_if (any (has_id e.id) db.events) store_failed
    fail_if (fault 2) store_failed
    fail_if (fault 3) store_failed
    ok (
      e,
      with_fact f (
          with_events
            (db.events ++ record e { price = numeric_text e.price; image_version = 0 } ∷ []) db),
    )

  -- `Get`
  unfoldable pub get : Bool → String → Db Bytes → Result Error Event
  get failed id db = do
    fail_if failed store_failed
    elim (find (has_id id) db.events) [ none ↦ err not_found | some e ↦ ok e ]

  -- The row that `Update` has found.
  abbrev pub update_found :
      (ℕ → Bool) → Event → List Event → Fact → Db Bytes → Result Error (Event × Db Bytes)
  update_found fault e events f db = do
    fail_if (not (passes_checks e)) check_violation
    fail_if (fault 2) store_failed
    fail_if (fault 3) store_failed
    ok (
      e,
      with_fact (record f { aggregate_id = e.id; status = none; version = e.version })
          (with_events events db),
    )

  -- `Update`
  unfoldable pub update :
      (ℕ → Bool)
      → (String → String)
      → ℕ
      → String
      → CreateInput
      → ℕ
      → Fact
      → Db Bytes
      → Result Error (Event × Db Bytes)
  update fault numeric_text now id i expected f db = do
    fail_if (fault 0) store_failed
    fail_if (fault 1) store_failed
    elim (find (at_version id expected) db.events) [
      | none ↦ err conflict
      | some old ↦
          update_found fault (updated numeric_text now i old)
            (update_row (at_version id expected) (updated numeric_text now i) db.events) f db
    ]

  abbrev pub with_audit : Audit → Db Bytes → Db Bytes
  with_audit a db = record db { audit = db.audit ++ a ∷ [] }

  -- `Transition`; the state before is the one that the service has read, in the fact's payload.
  unfoldable pub transition :
      (ℕ → Bool)
      → ℕ
      → String
      → ℕ
      → Status
      → String
      → Status
      → Fact
      → Db Bytes
      → Result Error (Event × Db Bytes)
  transition fault now id expected to reason before f db = do
    fail_if (fault 0) store_failed
    fail_if (fault 1) store_failed
    elim (find (at_version id expected) db.events) [
      | none ↦ err conflict
      | some old ↦ do
        fail_if (fault 2) store_failed
        fail_if (fault 3) store_failed
        fail_if (fault 4) store_failed
        ok (
          moved now to old,
          with_fact
              (record f { aggregate_id = old.id; status = some to; version = old.version + 1 })
              (with_audit
                (record {
                  event_id = id;
                  actor_id = f.actor_id;
                  action = f.kind;
                  reason = reason;
                  prior_state = before;
                  new_state = to;
                  occurred_at = now;
                })
                (with_events (update_row (at_version id expected) (moved now to) db.events) db)),
        )
    ]

  abbrev pub of_event : String → Image Bytes → Bool
  of_event id i = i.event_id == id

  abbrev pub put_image : Image Bytes → List (Image Bytes) → List (Image Bytes)
  put_image i [] = i ∷ []
  put_image i (j ∷ js) =
      let rest = put_image i js in if j.event_id == i.event_id then i ∷ js else j ∷ rest

  -- `SaveImage`
  unfoldable pub save_image :
      (ℕ → Bool) → ℕ → String → Bytes → String → Db Bytes → Result Error (Event × Db Bytes)
  save_image fault now id bytes actor db = do
    fail_if (fault 0) store_failed
    fail_if (fault 1) store_failed
    elim (find (has_id id) db.events) [
      | none ↦ err not_found
      | some e ↦ do
        fail_if (not (is_draft e.status)) conflict
        fail_if (fault 2) store_failed
        fail_if (fault 3) store_failed
        fail_if (fault 4) store_failed
        fail_if (fault 5) store_failed
        ok (
          next_image now e,
          record db {
            events = update_row (has_id id) (next_image now) db.events;
            images =
                put_image (record { event_id = id; bytes = bytes; updated_at = now }) db.images;
            image_audit =
                db.image_audit
                ++ record {
                  event_id = id;
                  actor_id = actor;
                  prior_version = e.image_version;
                  new_version = e.image_version + 1;
                  occurred_at = now;
                }
                  ∷ [];
          },
        )
    ]

  -- `PublicImage`
  unfoldable pub public_image : Bool → String → Db Bytes → Result Error Bytes
  public_image failed id db = do
    fail_if failed store_failed
    elim (find (of_event id) db.images) [
      | none ↦ err not_found
      | some i ↦ elim (find (has_id id) db.events) [
        | none ↦ err not_found
        | some e ↦ if is_public e.status then ok i.bytes else err not_found
      ]
    ]
