-- ===== src/Notification/Store/Deliveries.antt =====
-- What any transactions, in any order, do to the deliveries.
use mathlib.Core.Path.{subst}
use match_mate_dating_web.Base.{
  ℕ, ◌+◌, ◌<◌, ◌≡◌, refl, sym, ap, Bool, true, false, Option, some, List, [], ◌∷◌, String, arith,
  string_eq, nat_eq, inl, inr, ◌⊎◌,
}
use match_mate_dating_web.Base.Tables.{find, find-update_row, find_passes}
use match_mate_dating_web.Base.Keys.{HasUniqueKeys}
use match_mate_dating_web.Base.Evolution.{
  Evolves, Evolves-refl, Evolves-trans, Evolves-append, Evolves-update_row, Evolves-map,
}
use match_mate_dating_web.Base.Result.{ok, err}
use match_mate_dating_web.Notification.Domain.{Action, DeliveryState, EventEnvelope, Plan, Delivery}
use match_mate_dating_web.Notification.Store.{
  Row, Db, StoredTemplate, Preference, Suppression, stale_lease, has_id, is_processing,
}
use match_mate_dating_web.Notification.Store.Events.{
  silenced, insert_row, new_row, first_state, perform, apply_event, with_inbox,
}
use match_mate_dating_web.Notification.Store.Attempts.{
  AttemptResult, next_state, complete_row, claim_row, claim_due, complete_attempt,
}
use match_mate_dating_web.Notification.Store.Reads.{mark_read, mark_all_read}
use match_mate_dating_web.Notification.Store.Effects.{
  insert_row-eq-ok, deliver-eq-ok, apply_event-eq-ok, ignore-eq-ok, suppress-eq-ok, claim_due-eq-ok,
  complete_attempt-eq-ok,
}
use match_mate_dating_web.Notification.Store.Valid.{IsValid, first_due-found}
use match_mate_dating_web.Notification.Store.Keeps.{
  execute-IsValid, run-IsValid, committed-holds, complete_attempt-IsValid,
}
use match_mate_dating_web.Notification.Store.Lifecycle.{
  Follows, Follows-refl, Follows-trans, silenced-Follows, claim_row-Follows, complete_row-Follows,
}
use match_mate_dating_web.Notification.Store.Commands.{
  Command, applies, claims, completes, marks, marks_all, execute, run,
}

abbrev Keeps : List Row → List Row → Type 0
Keeps = Evolves (λ r. r.id) Follows

same_Keeps : (old new : List Row) → new ≡ old → Keeps old new
same_Keeps old new h = subst (Keeps old) (sym h) (Evolves-refl (λ r. r.id) Follows Follows-refl old)

insert_row-Keeps : (r : Row) (old new : List Row) → insert_row r old ≡ ok new → Keeps old new
insert_row-Keeps r old new h = elim (insert_row-eq-ok r old new h) [
  | inl same ↦ same_Keeps old new same
  | inr (_, _, more) ↦
      subst (Keeps old) (sym more) (Evolves-append (λ x. x.id) Follows Follows-refl old r)
]

perform-Keeps :
    (fault : ℕ → Bool) (ids : ℕ → String) (action : Action) (e : EventEnvelope) (plan : Plan)
    (now max : ℕ) (db : Db) (r : Bool × Db)
    → perform fault ids action e plan now max db ≡ ok r
    → Keeps db.deliveries r.1.deliveries
unfolding perform
perform-Keeps fault ids Action.ignore e plan now max db r h =
    same_Keeps db.deliveries r.1.deliveries
      (ap (λ x. x.1.deliveries) (ignore-eq-ok fault ids e plan now max db r h))
perform-Keeps fault ids Action.suppress e plan now max db r h =
    subst (λ x. Keeps db.deliveries x.1.deliveries)
      (sym (suppress-eq-ok fault ids e plan now max db r h))
      (Evolves-map (λ x. x.id) Follows (silenced plan now) db.deliveries (λ x. ground (arith))
        (silenced-Follows plan now))
perform-Keeps fault ids Action.deliver e plan now max db r h =
    let (t, rows, goes, same) = deliver-eq-ok fault ids e plan now max db r h in
    subst (λ x. Keeps db.deliveries x.1.deliveries) (sym same)
      (insert_row-Keeps (new_row (ids 0) e plan t (first_state plan now db) now max) db.deliveries
        rows goes)

apply_event-Keeps :
    (fault : ℕ → Bool) (ids : ℕ → String) (e : EventEnvelope) (plan : Plan) (now max : ℕ) (db : Db)
    (r : Bool × Db)
    → apply_event fault ids e plan now max db ≡ ok r
    → Keeps db.deliveries r.1.deliveries
apply_event-Keeps fault ids e plan now max db r h =
    elim (apply_event-eq-ok fault ids e plan now max db r h) [
      | inl (_, same) ↦ same_Keeps db.deliveries r.1.deliveries (ap (λ x. x.1.deliveries) same)
      | inr (_, done) ↦
          perform-Keeps fault ids plan.action e plan now max (with_inbox e now db) r done
    ]

claim_due-Keeps :
    (fault : ℕ → Bool) (now lease : ℕ) (db : Db) (r : Option Delivery × Db)
    → IsValid db
    → claim_due fault now lease db ≡ ok r
    → Keeps db.deliveries r.1.deliveries
claim_due-Keeps fault now lease db r valid h = elim (claim_due-eq-ok fault now lease db r h) [
  | inl (_, same) ↦ same_Keeps db.deliveries r.1.deliveries (ap (λ x. x.1.deliveries) same)
  | inr (rt, due, same) ↦
      let (found, passed) = first_due-found now db rt valid due in
      let f = claim_row (rt.0.attempt_count + 1) now lease in
      subst (λ x. Keeps db.deliveries x.1.deliveries) (sym same)
        (Evolves-update_row (λ x. x.id) Follows Follows-refl (has_id rt.0.id) f db.deliveries
          (λ x. refl)
          λ x at.
            let one : rt.0 ≡ x = cc in
            subst (λ y. Follows y (f y)) one (claim_row-Follows now lease rt.0 passed))
]

complete_attempt-Keeps :
    (fault : ℕ → Bool) (d : Delivery) (res : AttemptResult) (db : Db) (r : DeliveryState × Db)
    → complete_attempt fault d res db ≡ ok r
    → Keeps db.deliveries r.1.deliveries
complete_attempt-Keeps fault d res db r h =
    let (row, found, busy, _, _, same) = complete_attempt-eq-ok fault d res db r h in
    let f = complete_row (next_state res row.attempt_count row.max_attempts) res in
    subst (λ x. Keeps db.deliveries x.1.deliveries) (sym same)
      (Evolves-update_row (λ x. x.id) Follows Follows-refl (has_id d.id) f db.deliveries (λ x. refl)
        λ x at.
          let one : row ≡ x = cc in
          subst (λ y. Follows y (f y)) one
            (complete_row-Follows res row.attempt_count row.max_attempts row busy))

execute-Keeps : (c : Command) (db : Db) → IsValid db → Keeps db.deliveries (execute c db).deliveries
unfolding execute mark_read mark_all_read
execute-Keeps (applies fault ids e plan now max) db valid =
    committed-holds (λ x. Keeps db.deliveries x.deliveries) _ db
      (same_Keeps db.deliveries db.deliveries refl) (apply_event-Keeps fault ids e plan now max db)
execute-Keeps (claims fault now lease) db valid =
    committed-holds (λ x. Keeps db.deliveries x.deliveries) _ db
      (same_Keeps db.deliveries db.deliveries refl)
      (λ r. claim_due-Keeps fault now lease db r valid)
execute-Keeps (completes fault d res) db valid =
    committed-holds (λ x. Keeps db.deliveries x.deliveries) _ db
      (same_Keeps db.deliveries db.deliveries refl) (complete_attempt-Keeps fault d res db)
execute-Keeps (marks true account id now) db valid = same_Keeps db.deliveries db.deliveries refl
execute-Keeps (marks false account id now) db valid = same_Keeps db.deliveries db.deliveries refl
execute-Keeps (marks_all true account now) db valid = same_Keeps db.deliveries db.deliveries refl
execute-Keeps (marks_all false account now) db valid = same_Keeps db.deliveries db.deliveries refl

run-Keeps : (cs : List Command) (db : Db) → IsValid db → Keeps db.deliveries (run cs db).deliveries
unfolding run
run-Keeps [] db valid = same_Keeps db.deliveries db.deliveries refl
run-Keeps (c ∷ cs) db valid =
    Evolves-trans (λ r. r.id) Follows Follows-trans db.deliveries (execute c db).deliveries
      (run cs (execute c db)).deliveries (execute-Keeps c db valid)
      (run-Keeps cs (execute c db) (execute-IsValid c db valid))

-- Whatever transactions follow on valid tables, a delivery is still there, with the same terms, its
-- state has moved along the lifecycle, its attempts have only been counted up, and if it was
-- finished it is the same in every column.
pub run-keeps_deliveries :
    (cs : List Command) (db : Db) (id : String) (r : Row)
    → IsValid db
    → find (has_id id) db.deliveries ≡ some r
    → (s : Row) × (find (has_id id) (run cs db).deliveries ≡ some s) × Follows r s
run-keeps_deliveries cs db id r valid found = run-Keeps cs db valid id r found

-- The tables before the first event.
abbrev pub start : List StoredTemplate → List Preference → List Suppression → Db
start templates preferences suppressions = record {
  templates = templates;
  deliveries = [];
  attempts = [];
  preferences = preferences;
  suppressions = suppressions;
  inbox = [];
  feed = [];
}

pub start-IsValid :
    (templates : List StoredTemplate) (preferences : List Preference)
    (suppressions : List Suppression)
    → IsValid (start templates preferences suppressions)
start-IsValid templates preferences suppressions = record {
  unique_ids = tt;
  unique_keys = tt;
  unique_feed = tt;
  numbered = tt;
}

-- After any transactions from tables without deliveries there is at most one delivery for each
-- business key and at most one feed item for each delivery.
pub run-notifies_once :
    (cs : List Command) (templates : List StoredTemplate) (preferences : List Preference)
    (suppressions : List Suppression)
    → let db = run cs (start templates preferences suppressions) in
      HasUniqueKeys (λ r. r.business_key) db.deliveries × HasUniqueKeys (λ f. f.delivery_id) db.feed
run-notifies_once cs templates preferences suppressions =
    let valid =
      run-IsValid cs (start templates preferences suppressions)
        (start-IsValid templates preferences suppressions) in
    (valid.unique_keys, valid.unique_feed)

complete_attempt_stale :
    (fault : ℕ → Bool) (d : Delivery) (res : AttemptResult) (db : Db) (s : Row)
    → (fault 0 ≡ false) × (fault 1 ≡ false)
    → find (has_id d.id) db.deliveries ≡ some s
    → (d.attempt_count < s.attempt_count) ⊎ (is_processing s.state ≡ false)
    → complete_attempt fault d res db ≡ err (stale_lease s.state)
unfolding complete_attempt
complete_attempt_stale fault d res db s calm found (inl later) = ground (arith, calm, found, later)
complete_attempt_stale fault d res db s calm found (inr ended) = ground (arith, calm, found, ended)

-- If an attempt has been completed, then whatever transactions follow on valid tables, a further
-- completion of the same attempt is refused as stale, whatever its result is, as long as the
-- database answers.
pub complete_attempt-run-complete_attempt :
    (fault fault' : ℕ → Bool) (d : Delivery) (res res' : AttemptResult) (db : Db)
    (r : DeliveryState × Db) (cs : List Command)
    → IsValid db
    → complete_attempt fault d res db ≡ ok r
    → (fault' 0 ≡ false) × (fault' 1 ≡ false)
    → (s : DeliveryState) × (complete_attempt fault' d res' (run cs r.1) ≡ err (stale_lease s))
complete_attempt-run-complete_attempt fault fault' d res res' db r cs valid h calm =
    let (row, found, busy, count, _, same) = complete_attempt-eq-ok fault d res db r h in
    let f = complete_row (next_state res row.attempt_count row.max_attempts) res in
    let at : find (has_id d.id) r.1.deliveries ≡ some (f row) =
      subst (λ x. find (has_id d.id) x.1.deliveries ≡ some (f row)) (sym same)
        (find-update_row (has_id d.id) f db.deliveries row found
          (find_passes (has_id d.id) db.deliveries row found)) in
    let (s, kept, follows) =
      run-keeps_deliveries cs r.1 d.id (f row) (complete_attempt-IsValid fault d res db r valid h)
        at in
    let over : (d.attempt_count < s.attempt_count) ⊎ (is_processing s.state ≡ false) =
      ground (arith, count, follows.ended) in
    (s.state, complete_attempt_stale fault' d res' (run cs r.1) s calm kept over)
