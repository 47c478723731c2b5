-- ===== src/Event/Store/Keeps.antt =====
-- What each call of the repository keeps: distinct ids, the CHECKs of the rows, and the steps.
use mathlib.Core.Path.{subst, ◌∙◌}
use match_mate_dating_web.Base.{
  ℕ, ◌≡◌, refl, sym, Bool, true, false, some, List, [], ◌∷◌, ◌++◌, String, arith, eq_iff, string_eq,
  nat_eq, All, All-append, any, Option-cases, inl, inr,
}
use match_mate_dating_web.Base.Tables.{find, find_passes, update_row, All-update_row, find-none-any}
use match_mate_dating_web.Base.Keys.{HasUniqueKeys, HasUniqueKeys-append, HasUniqueKeys-update_row}
use match_mate_dating_web.Base.Result.{ok}
use match_mate_dating_web.Event.Domain.{Status, Event, CreateInput, can_transition}
use match_mate_dating_web.Event.Store.{
  Db, Fact, create, update, transition, save_image, has_id, is_draft, at_version, updated, moved,
  next_image, passes_checks,
}
use match_mate_dating_web.Event.Store.Lifecycle.{
  Evolves, here, then_step, append-Evolves, update_row-Evolves, found_by_id,
}

pub record IsValid {Bytes : Type 0} (db : Db Bytes) : Type 0 where
  pub unique : HasUniqueKeys (λ e. e.id) db.events
  pub checked : All (λ e. passes_checks e ≡ true) db.events

module _ {Bytes : Type 0} (fault : ℕ → Bool) (db : Db Bytes) where
  create-eq-ok :
      (numeric_text : String → String) (e : Event) (f : Fact) (r : Event × Db Bytes)
      → create fault numeric_text e f db ≡ ok r
      → (stored : Event) × (r.1.events ≡ db.events ++ stored ∷ [])
        × (stored.id ≡ e.id)
        × (passes_checks stored ≡ true)
        × (any (has_id e.id) db.events ≡ false)
  unfolding create
  create-eq-ok numeric_text e f r h = (
    record e { price = numeric_text e.price; image_version = 0 },
    ground arith,
    refl,
    ground arith,
    ground arith,
  )

  pub update-eq-ok :
      (numeric_text : String → String) (now : ℕ) (id : String) (i : CreateInput) (expected : ℕ)
      (f : Fact) (r : Event × Db Bytes)
      → update fault numeric_text now id i expected f db ≡ ok r
      → (old : Event) × (find (at_version id expected) db.events ≡ some old)
        × (r.1.events ≡ update_row (at_version id expected) (updated numeric_text now i) db.events)
        × (passes_checks (updated numeric_text now i old) ≡ true)
  unfolding update
  update-eq-ok numeric_text now id i expected f r h =
      elim (Option-cases (find (at_version id expected) db.events)) [
        | inl missing ↦ ground arith
        | inr (old, found) ↦ (old, found, ground arith, ground arith)
      ]

  pub transition-eq-ok :
      (now : ℕ) (id : String) (expected : ℕ) (to : Status) (reason : String) (before : Status)
      (f : Fact) (r : Event × Db Bytes)
      → transition fault now id expected to reason before f db ≡ ok r
      → (old : Event) × (find (at_version id expected) db.events ≡ some old)
        × (r.1.events ≡ update_row (at_version id expected) (moved now to) db.events)
  unfolding transition
  transition-eq-ok now id expected to reason before f r h =
      elim (Option-cases (find (at_version id expected) db.events)) [
        | inl missing ↦ ground arith
        | inr (old, found) ↦ (old, found, ground arith)
      ]

  pub save_image-eq-ok :
      (now : ℕ) (id : String) (bytes : Bytes) (actor : String) (r : Event × Db Bytes)
      → save_image fault now id bytes actor db ≡ ok r
      → (old : Event) × (find (has_id id) db.events ≡ some old)
        × (is_draft old.status ≡ true)
        × (r.1.events ≡ update_row (has_id id) (next_image now) db.events)
  unfolding save_image
  save_image-eq-ok now id bytes actor r h = elim (Option-cases (find (has_id id) db.events)) [
    | inl missing ↦ ground arith
    | inr (old, found) ↦ (old, found, ground arith, ground arith)
  ]

  -- A state of the tables that has the events `events`.
  IsValid-of :
      (db' : Db Bytes) (events : List Event)
      → db'.events ≡ events
      → HasUniqueKeys (λ e. e.id) events
      → All (λ e. passes_checks e ≡ true) events
      → IsValid db'
  IsValid-of db' events same unique checked = record {
    unique = subst (HasUniqueKeys (λ e. e.id)) (sym same) unique;
    checked = subst (All (λ e. passes_checks e ≡ true)) (sym same) checked;
  }

  append-IsValid :
      (stored : Event)
      → IsValid db
      → passes_checks stored ≡ true
      → any (has_id stored.id) db.events ≡ false
      → (HasUniqueKeys (λ e. e.id) (db.events ++ stored ∷ []))
        × All (λ e. passes_checks e ≡ true) (db.events ++ stored ∷ [])
  append-IsValid stored valid check new = (
    HasUniqueKeys-append (λ e. e.id) db.events stored valid.unique
        (find-none-any (has_id stored.id) (has_id stored.id) db.events (λ a h. h) new),
    All-append (λ e. passes_checks e ≡ true) db.events stored valid.checked check,
  )

  pub create-IsValid :
      (numeric_text : String → String) (e : Event) (f : Fact) (r : Event × Db Bytes)
      → IsValid db
      → create fault numeric_text e f db ≡ ok r
      → IsValid r.1
  create-IsValid numeric_text e f r valid h =
      let (stored, same, id, check, new) = create-eq-ok numeric_text e f r h in
      let (unique, checked) =
        append-IsValid stored valid check
          (subst (λ k. any (has_id k) db.events ≡ false) (sym id) new) in
      IsValid-of r.1 (db.events ++ stored ∷ []) same unique checked

  pub create-Evolves :
      (numeric_text : String → String) (e : Event) (f : Fact) (r : Event × Db Bytes)
      → create fault numeric_text e f db ≡ ok r
      → Evolves db.events r.1.events
  create-Evolves numeric_text e f r h =
      let (stored, same, id, check, new) = create-eq-ok numeric_text e f r h in
      subst (Evolves db.events) (sym same) (append-Evolves db.events stored)

  pub update-IsValid :
      (numeric_text : String → String) (now : ℕ) (id : String) (i : CreateInput) (expected : ℕ)
      (f : Fact) (r : Event × Db Bytes)
      → IsValid db
      → update fault numeric_text now id i expected f db ≡ ok r
      → IsValid r.1
  unfolding updated
  update-IsValid numeric_text now id i expected f r valid h =
      let (old, found, same, check) = update-eq-ok numeric_text now id i expected f r h in
      let p = at_version id expected in
      let g = updated numeric_text now i in
      IsValid-of r.1 (update_row p g db.events) same
        (HasUniqueKeys-update_row (λ e. e.id) p g db.events (λ b. refl) valid.unique)
        (All-update_row (λ e. passes_checks e ≡ true) p g db.events (λ a k. check) valid.checked)

  pub transition-IsValid :
      (now : ℕ) (id : String) (expected : ℕ) (to : Status) (reason : String) (before : Status)
      (f : Fact) (r : Event × Db Bytes)
      → IsValid db
      → transition fault now id expected to reason before f db ≡ ok r
      → IsValid r.1
  transition-IsValid now id expected to reason before f r valid h =
      let (old, found, same) = transition-eq-ok now id expected to reason before f r h in
      let p = at_version id expected in
      let g = moved now to in
      IsValid-of r.1 (update_row p g db.events) same
        (HasUniqueKeys-update_row (λ e. e.id) p g db.events (λ b. refl) valid.unique)
        (All-update_row (λ e. passes_checks e ≡ true) p g db.events (λ a k. k) valid.checked)

  pub save_image-IsValid :
      (now : ℕ) (id : String) (bytes : Bytes) (actor : String) (r : Event × Db Bytes)
      → IsValid db
      → save_image fault now id bytes actor db ≡ ok r
      → IsValid r.1
  save_image-IsValid now id bytes actor r valid h =
      let (old, found, draft, same) = save_image-eq-ok now id bytes actor r h in
      IsValid-of r.1 (update_row (has_id id) (next_image now) db.events) same
        (HasUniqueKeys-update_row (λ e. e.id) (has_id id) (next_image now) db.events (λ b. refl)
          valid.unique)
        (All-update_row (λ e. passes_checks e ≡ true) (has_id id) (next_image now) db.events
          (λ a k. k) valid.checked)

  -- A test of one id.
  one_id :
      (p : Event → Bool) (id : String) (old : Event)
      → find p db.events ≡ some old
      → ((a : Event) → p a ≡ true → has_id id a ≡ true)
      → (a : Event) → p a ≡ true
      → a.id ≡ old.id
  one_id p id old found k a h =
      (eq_iff a.id id).0 (k a h)
      ∙ sym ((eq_iff old.id id).0 (k old (find_passes p db.events old found)))

  -- The event that a versioned statement finds is the one that the service has read.
  same_event :
      (id : String) (expected : ℕ) (e old : Event)
      → IsValid db
      → find (has_id id) db.events ≡ some e
      → find (at_version id expected) db.events ≡ some old
      → e ≡ old
  same_event id expected e old valid read found =
      let by_id = found_by_id (at_version id expected) db.events old valid.unique found in
      let is : old.id ≡ id =
        ground
          (arith, find_passes (at_version id expected) db.events old found, eq_iff old.id id) in
      let again : find (has_id id) db.events ≡ some old =
        subst (λ k. find (has_id k) db.events ≡ some old) is by_id in
      cc

  pub update-Evolves :
      (numeric_text : String → String) (now : ℕ) (id : String) (i : CreateInput) (expected : ℕ)
      (f : Fact) (r : Event × Db Bytes) (e : Event)
      → IsValid db
      → find (has_id id) db.events ≡ some e
      → is_draft e.status ≡ true
      → update fault numeric_text now id i expected f db ≡ ok r
      → Evolves db.events r.1.events
  unfolding updated
  update-Evolves numeric_text now id i expected f r e valid read draft h =
      let (old, found, same, check) = update-eq-ok numeric_text now id i expected f r h in
      let is : e ≡ old = same_event id expected e old valid read found in
      subst (Evolves db.events) (sym same) (
        update_row-Evolves (at_version id expected) (updated numeric_text now i) db.events old
          valid.unique found (one_id (at_version id expected) id old found (λ a k. ground arith))
          (λ a. refl)
          (record {
            same_id = refl;
            path = here;
            frozen = inl (subst (λ x. is_draft x.status ≡ true) is draft);
          }))

  pub transition-Evolves :
      (now : ℕ) (id : String) (expected : ℕ) (to : Status) (reason : String) (before : Status)
      (f : Fact) (r : Event × Db Bytes) (e : Event)
      → IsValid db
      → find (has_id id) db.events ≡ some e
      → can_transition e.status to ≡ true
      → transition fault now id expected to reason before f db ≡ ok r
      → Evolves db.events r.1.events
  transition-Evolves now id expected to reason before f r e valid read can h =
      let (old, found, same) = transition-eq-ok now id expected to reason before f r h in
      let is : e ≡ old = same_event id expected e old valid read found in
      subst (Evolves db.events) (sym same) (
        update_row-Evolves (at_version id expected) (moved now to) db.events old valid.unique found
          (one_id (at_version id expected) id old found (λ a k. ground arith)) (λ a. refl)
          (record {
            same_id = refl;
            path = then_step (subst (λ x. can_transition x.status to ≡ true) is can) here;
            frozen = inr refl;
          }))

  pub save_image-Evolves :
      (now : ℕ) (id : String) (bytes : Bytes) (actor : String) (r : Event × Db Bytes)
      → IsValid db
      → save_image fault now id bytes actor db ≡ ok r
      → Evolves db.events r.1.events
  save_image-Evolves now id bytes actor r valid h =
      let (old, found, draft, same) = save_image-eq-ok now id bytes actor r h in
      subst (Evolves db.events) (sym same) (
        update_row-Evolves (has_id id) (next_image now) db.events old valid.unique found
          (one_id (has_id id) id old found (λ a k. k)) (λ a. refl)
          (record { same_id = refl; path = here; frozen = inl draft }))
