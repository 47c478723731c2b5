-- ===== src/Event/Service/Laws.antt =====
-- The laws of the event service: who may change an event, and what its calls keep.
use match_mate_dating_web.Base.{
  ℕ, ◌≡◌, refl, ap, Bool, true, false, not, ◌||◌, some, List, [], ◌∷◌, String, arith, ltb, leb,
  ◌==◌, string_eq, Option-cases, inl, inr,
}
use match_mate_dating_web.Base.Tables.{find}
use match_mate_dating_web.Base.Text.{trim_space}
use match_mate_dating_web.Base.Result.{Result, ok, err, fail_if, ok_inj, bind-eq-ok}
use match_mate_dating_web.Event.Domain.{
  Status, Event, CreateInput, Principal, has_role, can_transition, validate,
}
use match_mate_dating_web.Event.Store
use match_mate_dating_web.Event.Store.{Db, Fact, has_id, passes_checks}
use match_mate_dating_web.Event.Store.Lifecycle.{Follows, Evolves, Evolves-refl, Evolves-trans}
use match_mate_dating_web.Event.Store.Keeps.{
  IsValid, create-IsValid, create-Evolves, update-IsValid, update-Evolves, transition-IsValid,
  transition-Evolves, save_image-IsValid, save_image-Evolves,
}
use match_mate_dating_web.Event.Service.{
  Command, creates, updates, moves, saves_image, create, authorize, update, transition,
  check_transition, check_update, may_change, fact, fact_name, is_some_problem, admin_required,
  validation_failed, new_event, committed, execute, run, or_version_conflict, or_same, is_published,
  is_cancelled, is_open, assigned, priced,
}

or_version_conflict-eq-ok :
    {A : Type 0} (m : Result Store.Error A) (a : A) → or_version_conflict m ≡ ok a → m ≡ ok a
or_version_conflict-eq-ok (ok b) a h = ap ok (ok_inj h)
or_version_conflict-eq-ok (err Store.conflict) a h = cc
or_version_conflict-eq-ok (err Store.not_found) a h = cc
or_version_conflict-eq-ok (err Store.store_failed) a h = cc
or_version_conflict-eq-ok (err Store.check_violation) a h = cc

or_same-eq-ok : {A : Type 0} (m : Result Store.Error A) (a : A) → or_same m ≡ ok a → m ≡ ok a
or_same-eq-ok (ok b) a h = ap ok (ok_inj h)
or_same-eq-ok (err e) a h = cc

-- What `Transition` asks of the event that it has read.
pub record IsAllowed (now : ℕ) (to : Status) (reason : String) (e : Event) : Type 0 where
  pub step : can_transition e.status to ≡ true
  pub before_closing :
      (not (is_published to || is_open to) || ltb now e.registration_closes_at) ≡ true
  pub after_opening : (not (is_open to) || leb e.registration_opens_at now) ≡ true
  pub explained : (not (is_cancelled to) || not (trim_space reason == "")) ≡ true

check_transition-eq-ok :
    (now : ℕ) (to : Status) (reason : String) (e : Event) (u : Unit {0})
    → check_transition now to reason e ≡ ok u
    → IsAllowed now to reason e
unfolding check_transition
check_transition-eq-ok now to reason e u h = record {
  step = ground arith;
  before_closing = ground arith;
  after_opening = ground arith;
  explained = ground arith;
}

check_update-eq-ok :
    (known_zone : String → Bool) (p : Principal) (i saved : CreateInput) (e : Event)
    → check_update known_zone p i e ≡ ok saved
    → (Store.is_draft e.status ≡ true)
      × (saved ≡ priced e (assigned e i))
      × (is_some_problem (validate known_zone (assigned e i)) ≡ false)
unfolding check_update
check_update-eq-ok known_zone p i saved e h = (ground arith, ground arith, ground arith)

module _ {Bytes : Type 0} (known_zone : String → Bool) (numeric_text : String → String) where
  authorize-eq-ok :
      (failed : Bool) (p : Principal) (id : String) (db : Db Bytes) (e : Event)
      → authorize known_zone numeric_text failed p id db ≡ ok e
      → (find (has_id id) db.events ≡ some e) × (may_change p e ≡ true)
  unfolding authorize Store.get
  authorize-eq-ok failed p id db e h = elim (Option-cases (find (has_id id) db.events)) [
    | inl missing ↦ ground arith
    | inr (x, found) ↦ ground arith
  ]

  -- A transition that succeeds.
  pub transition-eq-ok :
      (failed : Bool) (fault : ℕ → Bool) (ids : ℕ → String) (now : ℕ) (p : Principal) (id : String)
      (expected : ℕ) (to : Status) (reason corr : String) (db : Db Bytes) (r : Event × Db Bytes)
      → transition known_zone numeric_text failed fault ids now p id expected to reason corr db
        ≡ ok r
      → (e : Event) × ((find (has_id id) db.events ≡ some e) × (may_change p e ≡ true))
        × IsAllowed now to reason e
        × (Store.transition fault now id expected to reason e.status
              (fact ids (fact_name to) e p corr)
              db
            ≡ ok r)
  unfolding transition
  transition-eq-ok failed fault ids now p id expected to reason corr db r h =
      let (e, read, k) = bind-eq-ok (authorize known_zone numeric_text failed p id db) _ r h in
      let (u, checked, done) = bind-eq-ok (check_transition now to reason e) _ r k in
      (
        e,
        authorize-eq-ok failed p id db e read,
        check_transition-eq-ok now to reason e u checked,
        or_version_conflict-eq-ok _ r done,
      )

  pub update-eq-ok :
      (failed : Bool) (fault : ℕ → Bool) (ids : ℕ → String) (now : ℕ) (p : Principal) (id : String)
      (i : CreateInput) (expected : ℕ) (corr : String) (db : Db Bytes) (r : Event × Db Bytes)
      → update known_zone numeric_text failed fault ids now p id i expected corr db ≡ ok r
      → (e : Event) × ((find (has_id id) db.events ≡ some e) × (may_change p e ≡ true))
        × (Store.is_draft e.status ≡ true)
        × (saved : CreateInput) × (Store.update fault numeric_text now id saved expected
              (fact ids "EventUpdated" e p corr)
              db
            ≡ ok r)
        × (saved ≡ priced e (assigned e i))
        × (is_some_problem (validate known_zone (assigned e i)) ≡ false)
  unfolding update
  update-eq-ok failed fault ids now p id i expected corr db r h =
      let (e, read, k) = bind-eq-ok (authorize known_zone numeric_text failed p id db) _ r h in
      let (saved, checked, done) = bind-eq-ok (check_update known_zone p i e) _ r k in
      let (draft, same, good) = check_update-eq-ok known_zone p i saved e checked in
      (
        e,
        authorize-eq-ok failed p id db e read,
        draft,
        saved,
        or_version_conflict-eq-ok _ r done,
        same,
        good,
      )

  pub create-eq-ok :
      (fault : ℕ → Bool) (ids : ℕ → String) (now : ℕ) (p : Principal) (i : CreateInput)
      (corr : String) (db : Db Bytes) (r : Event × Db Bytes)
      → create known_zone numeric_text fault ids now p i corr db ≡ ok r
      → (has_role p "admin" ≡ true)
        × (Store.create fault numeric_text
              (new_event ids now i)
              (fact ids "EventCreated" (new_event ids now i) p corr)
              db
            ≡ ok r)
        × (is_some_problem (validate known_zone i) ≡ false)
  unfolding create
  create-eq-ok fault ids now p i corr db r h =
      let (u, admin, k) = bind-eq-ok (fail_if (not (has_role p "admin")) admin_required) _ r h in
      let (v, good, done) =
        bind-eq-ok
          (fail_if (is_some_problem (validate known_zone i))
            (validation_failed (validate known_zone i)))
          _ r k in
      (ground (arith, admin), or_same-eq-ok _ r done, ground (arith, good))

  pub committed-holds :
      {E A : Type 0} (P : Db Bytes → Type 0) (m : Result E (A × Db Bytes)) (db : Db Bytes)
      → P db
      → ((r : A × Db Bytes) → m ≡ ok r → P r.1)
      → P (committed m db)
  committed-holds P (ok r) db h k = k r refl
  committed-holds P (err e) db h k = h

  execute-IsValid :
      (c : Command Bytes) (db : Db Bytes)
      → IsValid db
      → IsValid (execute known_zone numeric_text c db)
  unfolding execute
  execute-IsValid (creates fault ids now p i corr) db valid =
      committed-holds IsValid _ db valid (λ r h.
        let (admin, done, _) = create-eq-ok fault ids now p i corr db r h in
        create-IsValid fault db numeric_text _ _ r valid done)
  execute-IsValid (updates failed fault ids now p id i expected corr) db valid =
      committed-holds IsValid _ db valid (λ r h.
        let (e, read, draft, saved, done, _, _) =
          update-eq-ok failed fault ids now p id i expected corr db r h in
        update-IsValid fault db numeric_text now id saved expected _ r valid done)
  execute-IsValid (moves failed fault ids now p id expected to reason corr) db valid =
      committed-holds IsValid _ db valid (λ r h.
        let (e, read, allowed, done) =
          transition-eq-ok failed fault ids now p id expected to reason corr db r h in
        transition-IsValid fault db now id expected to reason e.status _ r valid done)
  execute-IsValid (saves_image fault now id bytes actor) db valid =
      committed-holds IsValid _ db valid
        (λ r. save_image-IsValid fault db now id bytes actor r valid)

  execute-Evolves :
      (c : Command Bytes) (db : Db Bytes)
      → IsValid db
      → Evolves db.events (execute known_zone numeric_text c db).events
  unfolding execute
  execute-Evolves (creates fault ids now p i corr) db valid =
      committed-holds (λ d. Evolves db.events d.events) _ db (Evolves-refl db.events)
        (λ r h.
          let (admin, done, _) = create-eq-ok fault ids now p i corr db r h in
          create-Evolves fault db numeric_text _ _ r done)
  execute-Evolves (updates failed fault ids now p id i expected corr) db valid =
      committed-holds (λ d. Evolves db.events d.events) _ db (Evolves-refl db.events)
        (λ r h.
          let (e, read, draft, saved, done, _, _) =
            update-eq-ok failed fault ids now p id i expected corr db r h in
          update-Evolves fault db numeric_text now id saved expected _ r e valid read.0 draft done)
  execute-Evolves (moves failed fault ids now p id expected to reason corr) db valid =
      committed-holds (λ d. Evolves db.events d.events) _ db (Evolves-refl db.events)
        (λ r h.
          let (e, read, allowed, done) =
            transition-eq-ok failed fault ids now p id expected to reason corr db r h in
          transition-Evolves fault db now id expected to reason e.status _ r e valid read.0
            allowed.step done)
  execute-Evolves (saves_image fault now id bytes actor) db valid =
      committed-holds (λ d. Evolves db.events d.events) _ db (Evolves-refl db.events)
        (λ r. save_image-Evolves fault db now id bytes actor r valid)

  run-IsValid :
      (cs : List (Command Bytes)) (db : Db Bytes)
      → IsValid db
      → IsValid (run known_zone numeric_text cs db)
  unfolding run
  run-IsValid [] db valid = valid
  run-IsValid (c ∷ cs) db valid =
      run-IsValid cs (execute known_zone numeric_text c db) (execute-IsValid c db valid)

  run-Evolves :
      (cs : List (Command Bytes)) (db : Db Bytes)
      → IsValid db
      → Evolves db.events (run known_zone numeric_text cs db).events
  unfolding run
  run-Evolves [] db valid = Evolves-refl db.events
  run-Evolves (c ∷ cs) db valid =
      Evolves-trans db.events (execute known_zone numeric_text c db).events
        (run known_zone numeric_text cs (execute known_zone numeric_text c db)).events
        (execute-Evolves c db valid)
        (run-Evolves cs (execute known_zone numeric_text c db) (execute-IsValid c db valid))

  -- From tables with distinct event ids whose rows pass the CHECKs, after any list of calls one after
  -- the other, each event is still there under
  -- its id, its status has moved along the allowed transitions, and if it was no draft at first, it
  -- is the same but for its status, its version and the time of its last change.
  pub run-keeps_events :
      (cs : List (Command Bytes)) (db : Db Bytes) (id : String) (e : Event)
      → IsValid db
      → find (has_id id) db.events ≡ some e
      → (e' : Event) × (find (has_id id) (run known_zone numeric_text cs db).events ≡ some e')
        × Follows e e'
  run-keeps_events cs db id e valid = run-Evolves cs db valid id e
