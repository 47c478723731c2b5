-- ===== src/Event/Service/Terms.antt =====
-- What validation has checked of every event that the service stores (application/service.go:
-- Create and Update, with Validate of domain/validation.go).
use mathlib.Core.Path.{subst, sym}
use match_mate_dating_web.Base.{
  ℕ, ◌≡◌, ◌≤◌, ◌<◌, refl, Bool, true, false, not, List, [], ◌∷◌, ◌++◌, String, arith, All,
  All-append, ◌⊎◌, inl, inr, ◌==◌, eq_iff, string_eq, Bool-cases,
}
use match_mate_dating_web.Base.Tables.{All-update_row, All-found}
use match_mate_dating_web.Base.Text.{currency_pattern}
use match_mate_dating_web.Base.Result.{ok}
use match_mate_dating_web.Event.Domain.{
  Status, Event, CreateInput, validate, problem_if, bad_end, bad_window, bad_closing, bad_capacity,
  known_options,
}
use match_mate_dating_web.Event.Store
use match_mate_dating_web.Event.Store.{Db, Fact, has_id, at_version, updated, moved, next_image}
use match_mate_dating_web.Event.Store.Keeps
use match_mate_dating_web.Event.Service.{
  Command, creates, updates, moves, saves_image, is_some_problem, execute, run, new_event, assigned,
  priced, default_to,
}
use match_mate_dating_web.Event.Service.Laws.{
  create-eq-ok, update-eq-ok, transition-eq-ok, committed-holds,
}

-- The terms of an event that members may rely on.
pub record IsSound (known_zone : String → Bool) (e : Event) : Type 0 where
  pub zone : known_zone e.time_zone ≡ true
  pub window : e.registration_opens_at < e.registration_closes_at
  pub closing : e.registration_closes_at < e.starts_at
  pub times : e.starts_at < e.ends_at
  pub room : 1 ≤ e.configured_capacity
  pub at_most : e.configured_capacity ≤ 10000
  pub currency : currency_pattern e.currency ≡ true
  pub payable :
      (e.payment_options ≡ "ONLINE")
      ⊎ ((e.payment_options ≡ "AT_VENUE") ⊎ (e.payment_options ≡ "BOTH"))

-- Without a problem in the end there is none in any test.
problem_if-none :
    (b : Bool) (field text : String) (f : List (String × String))
    → is_some_problem (problem_if b field text f) ≡ false
    → (b ≡ false) × (is_some_problem f ≡ false)
problem_if-none false field text f h = (refl, h)
problem_if-none true field text [] h = absurd (cc)
problem_if-none true field text (p ∷ f) h = absurd (ground (arith, h))

-- The tests of an input that passes.
record Passes (known_zone : String → Bool) (i : CreateInput) : Type 0 where
  capacity : bad_capacity known_zone i ≡ false
  options : known_options i.payment_options ≡ true
  currency : currency_pattern i.currency ≡ true
  closing : bad_closing known_zone i ≡ false
  window : bad_window known_zone i ≡ false
  end : bad_end known_zone i ≡ false
  zone : known_zone i.time_zone ≡ true

of_negated : (b : Bool) → not b ≡ false → b ≡ true
of_negated true h = refl
of_negated false h = absurd (cc)

validate-Passes :
    (known_zone : String → Bool) (i : CreateInput)
    → is_some_problem (validate known_zone i) ≡ false
    → Passes known_zone i
unfolding validate
validate-Passes known_zone i h =
    let (_, h1) = problem_if-none _ _ _ _ h in
    let (capacity, h2) = problem_if-none _ _ _ _ h1 in
    let (options, h3) = problem_if-none (not (known_options i.payment_options)) _ _ _ h2 in
    let (currency, h4) = problem_if-none (not (currency_pattern i.currency)) _ _ _ h3 in
    let (_, h5) = problem_if-none _ _ _ _ h4 in
    let (closing, h6) = problem_if-none _ _ _ _ h5 in
    let (window, h7) = problem_if-none _ _ _ _ h6 in
    let (end, h8) = problem_if-none _ _ _ _ h7 in
    let (zone, h9) = problem_if-none (not (known_zone i.time_zone)) _ _ _ h8 in
    record {
      capacity = capacity;
      options = of_negated _ options;
      currency = of_negated _ currency;
      closing = closing;
      window = window;
      end = end;
      zone = of_negated (known_zone i.time_zone) zone;
    }

abbrev IsPayable : String → Type 0
IsPayable o = (o ≡ "ONLINE") ⊎ ((o ≡ "AT_VENUE") ⊎ (o ≡ "BOTH"))

default_to-IsPayable :
    (d o : String) → IsPayable d → known_options o ≡ true → IsPayable (default_to d o)
default_to-IsPayable d o h k = elim (Bool-cases (o == "")) [
  | inl given ↦ rw given h
  | inr other ↦ rw other (elim (Bool-cases (o == "ONLINE")) [
    | inl online ↦ inl ((eq_iff o "ONLINE").0 online)
    | inr offline ↦ elim (Bool-cases (o == "AT_VENUE")) [
      | inl venue ↦ inr (inl ((eq_iff o "AT_VENUE").0 venue))
      | inr away ↦ inr (inr ((eq_iff o "BOTH").0 (ground (arith, k, other, offline, away))))
    ]
  ])
]

module _ (known_zone : String → Bool) (numeric_text : String → String) where
  new_event-IsSound :
      (ids : ℕ → String) (now : ℕ) (i : CreateInput)
      → is_some_problem (validate known_zone i) ≡ false
      → IsSound known_zone
          (record (new_event ids now i) { price = numeric_text i.price; image_version = 0 })
  new_event-IsSound ids now i good =
      let passes = validate-Passes known_zone i good in
      record {
        zone = passes.zone;
        window = ground (arith, passes.window);
        closing = ground (arith, passes.closing);
        times = ground (arith, passes.end);
        room = ground (arith, passes.capacity);
        at_most = ground (arith, passes.capacity);
        currency = passes.currency;
        payable = default_to-IsPayable "ONLINE" i.payment_options (inl refl) passes.options;
      }

  updated-IsSound :
      (now : ℕ) (i : CreateInput) (e old : Event)
      → IsSound known_zone e
      → is_some_problem (validate known_zone (assigned e i)) ≡ false
      → IsSound known_zone (updated numeric_text now (priced e (assigned e i)) old)
  unfolding updated
  updated-IsSound now i e old sound good =
      let passes = validate-Passes known_zone (assigned e i) good in
      record {
        zone = passes.zone;
        window = ground (arith, passes.window);
        closing = ground (arith, passes.closing);
        times = ground (arith, passes.end);
        room = ground (arith, passes.capacity);
        at_most = ground (arith, passes.capacity);
        currency = passes.currency;
        payable =
            default_to-IsPayable e.payment_options i.payment_options sound.payable passes.options;
      }

  same_terms : (now : ℕ) (e : Event) → IsSound known_zone e → IsSound known_zone (next_image now e)
  same_terms now e sound = record {
    zone = sound.zone;
    window = sound.window;
    closing = sound.closing;
    times = sound.times;
    room = sound.room;
    at_most = sound.at_most;
    currency = sound.currency;
    payable = sound.payable;
  }

  moved-IsSound :
      (now : ℕ) (to : Status) (e : Event)
      → IsSound known_zone e
      → IsSound known_zone (moved now to e)
  moved-IsSound now to e sound = record {
    zone = sound.zone;
    window = sound.window;
    closing = sound.closing;
    times = sound.times;
    room = sound.room;
    at_most = sound.at_most;
    currency = sound.currency;
    payable = sound.payable;
  }

module _ {Bytes : Type 0} (known_zone : String → Bool) (numeric_text : String → String) where
  created_rows :
      (fault : ℕ → Bool) (e : Event) (f : Fact) (db : Db Bytes) (r : Event × Db Bytes)
      → Store.create fault numeric_text e f db ≡ ok r
      → r.1.events ≡ db.events ++ record e { price = numeric_text e.price; image_version = 0 } ∷ []
  unfolding Store.create
  created_rows fault e f db r h = ground arith

  execute-AreSound :
      (c : Command Bytes) (db : Db Bytes)
      → All (IsSound known_zone) db.events
      → All (IsSound known_zone) (execute known_zone numeric_text c db).events
  unfolding execute
  execute-AreSound (creates fault ids now p i corr) db sound =
      committed-holds known_zone numeric_text (λ d. All (IsSound known_zone) d.events) _ db sound
        (λ r h.
          let (_, done, good) =
            create-eq-ok known_zone numeric_text fault ids now p i corr db r h in
          subst (All (IsSound known_zone)) (sym (created_rows fault _ _ db r done)) (
            All-append (IsSound known_zone) db.events _ sound
              (new_event-IsSound known_zone numeric_text ids now i good)))
  execute-AreSound (updates failed fault ids now p id i expected corr) db sound =
      committed-holds known_zone numeric_text (λ d. All (IsSound known_zone) d.events) _ db sound
        (λ r h.
          let (e, read, draft, saved, done, same, good) =
            update-eq-ok known_zone numeric_text failed fault ids now p id i expected corr db r h in
          let (old, found, rows, _) =
            Keeps.update-eq-ok fault db numeric_text now id saved expected _ r done in
          let own = All-found (IsSound known_zone) (has_id id) db.events e sound read.0 in
          subst (All (IsSound known_zone)) (sym rows) (
            All-update_row (IsSound known_zone) (at_version id expected)
              (updated numeric_text now saved) db.events
              (λ a k.
                subst (λ s. IsSound known_zone (updated numeric_text now s a)) (sym same)
                  (updated-IsSound known_zone numeric_text now i e a own good))
              sound))
  execute-AreSound (moves failed fault ids now p id expected to reason corr) db sound =
      committed-holds known_zone numeric_text (λ d. All (IsSound known_zone) d.events) _ db sound
        (λ r h.
          let (e, read, allowed, done) =
            transition-eq-ok known_zone numeric_text failed fault ids now p id expected to reason
              corr db r h in
          let (old, found, rows) =
            Keeps.transition-eq-ok fault db now id expected to reason e.status _ r done in
          subst (All (IsSound known_zone)) (sym rows) (
            All-update_row (IsSound known_zone) (at_version id expected) (moved now to) db.events
              (moved-IsSound known_zone numeric_text now to) sound))
  execute-AreSound (saves_image fault now id bytes actor) db sound =
      committed-holds known_zone numeric_text (λ d. All (IsSound known_zone) d.events) _ db sound
        (λ r h.
          let (old, found, draft, rows) = Keeps.save_image-eq-ok fault db now id bytes actor r h in
          subst (All (IsSound known_zone)) (sym rows) (
            All-update_row (IsSound known_zone) (has_id id) (next_image now) db.events
              (same_terms known_zone numeric_text now) sound))

  -- If every stored event has a known time zone, a registration window that opens before it closes
  -- and closes before the start, a start before the end, a capacity of 1 to 10000, a currency of three
  -- capital letters and one of the three payment options, so it is after any calls, with any faults.
  pub run-AreSound :
      (cs : List (Command Bytes)) (db : Db Bytes)
      → All (IsSound known_zone) db.events
      → All (IsSound known_zone) (run known_zone numeric_text cs db).events
  unfolding run
  run-AreSound [] db sound = sound
  run-AreSound (c ∷ cs) db sound =
      run-AreSound cs (execute known_zone numeric_text c db) (execute-AreSound c db sound)
