-- ===== src/Notification/Store/Keeps.antt =====
-- Every transaction keeps the invariant.
use mathlib.Core.Path.{subst}
use match_mate_dating_web.Base.{
  ℕ, ◌+◌, ◌≡◌, refl, sym, ap, Bool, true, false, Option, some, List, [], ◌∷◌, String, arith, ◌==◌,
  string_eq, nat_eq, any, inl, inr, All-append, All-map, Bool-cases, Option-cases, map,
  if◌then◌else◌,
}
use match_mate_dating_web.Base.Tables.{
  find, update_row, find-none-any, find-update_row, find_passes,
}
use match_mate_dating_web.Base.Keys.{HasUniqueKeys, HasUniqueKeys-append, HasUniqueKeys-update_row}
use match_mate_dating_web.Base.Evolution.{HasUniqueKeys-map}
use match_mate_dating_web.Base.Result.{Result, ok, err}
use match_mate_dating_web.Notification.Domain.{Action, DeliveryState, EventEnvelope, Plan, Delivery}
use match_mate_dating_web.Notification.Store.{
  Row, FeedRow, Db, has_id, has_business_key, is_processing, is_pending,
}
use match_mate_dating_web.Notification.Store.Events.{
  silenced, insert_row, insert_feed, feed_row, is_feed_of, new_row, first_state, suppressed_by,
  delivered_by, perform, apply_event, with_inbox,
}
use match_mate_dating_web.Notification.Store.Attempts.{
  AttemptResult, next_state, complete_row, claim_row, attempt_row, outcome, completed, claim_due,
  complete_attempt,
}
use match_mate_dating_web.Notification.Store.Reads.{mark, mark_read, mark_all_read}
use match_mate_dating_web.Notification.Store.Effects.{
  insert_row-eq-ok, deliver-eq-ok, apply_event-eq-ok, ignore-eq-ok, suppress-eq-ok, claim_due-eq-ok,
  complete_attempt-eq-ok,
}
use match_mate_dating_web.Notification.Store.Valid.{
  IsValid, is_numbered, first_due-found, is_numbered-update_row, is_numbered-append,
  is_numbered-map,
}
use match_mate_dating_web.Notification.Store.Commands.{
  Command, applies, claims, completes, marks, marks_all, committed, execute, run,
}

silenced-id : (plan : Plan) (now : ℕ) (r : Row) → (silenced plan now r).id ≡ r.id
silenced-id plan now r = ground (arith)

silenced-business_key :
    (plan : Plan) (now : ℕ) (r : Row) → (silenced plan now r).business_key ≡ r.business_key
silenced-business_key plan now r = ground (arith)

suppressed_by-IsValid :
    (plan : Plan) (now : ℕ) (db : Db) → IsValid db → IsValid (suppressed_by plan now db)
suppressed_by-IsValid plan now db valid = record {
  unique_ids =
      HasUniqueKeys-map (λ r. r.id) (silenced plan now) db.deliveries (silenced-id plan now)
        valid.unique_ids;
  unique_keys =
      HasUniqueKeys-map (λ r. r.business_key) (silenced plan now) db.deliveries
        (silenced-business_key plan now) valid.unique_keys;
  unique_feed = valid.unique_feed;
  numbered =
      All-map db.attempts
        (λ a.
          is_numbered-map (silenced plan now) db.deliveries a (silenced-id plan now)
            λ r h. ground (arith, h))
        valid.numbered;
}

insert_feed-HasUniqueKeys :
    (key : String) (rows : List Row) (feed : List FeedRow)
    → HasUniqueKeys (λ f. f.delivery_id) feed
    → HasUniqueKeys (λ f. f.delivery_id) (insert_feed key rows feed)
unfolding insert_feed
insert_feed-HasUniqueKeys key rows feed h = elim (Option-cases (find (has_business_key key) rows)) [
  | inl missing ↦ subst (HasUniqueKeys (λ f. f.delivery_id)) (ground (arith, missing)) h
  | inr (r, found) ↦ elim (Bool-cases (any (is_feed_of r.id) feed)) [
    | inl known ↦ subst (HasUniqueKeys (λ f. f.delivery_id)) (ground (arith, found, known)) h
    | inr new ↦ subst (HasUniqueKeys (λ f. f.delivery_id)) (ground (arith, found, new)) (
        HasUniqueKeys-append (λ f. f.delivery_id) feed (feed_row r) h
          (find-none-any (is_feed_of r.id) (λ f. f.delivery_id == r.id) feed (λ f t. t) new))
  ]
]

deliver-IsValid :
    (plan : Plan) (state : DeliveryState) (r : Row) (rows : List Row) (db : Db)
    → IsValid db
    → insert_row r db.deliveries ≡ ok rows
    → IsValid (delivered_by plan state rows db)
deliver-IsValid plan state r rows db valid h =
    let feed : HasUniqueKeys (λ f. f.delivery_id) (delivered_by plan state rows db).feed =
      elim (is_pending state)
        as (λ b.
          HasUniqueKeys (λ f. f.delivery_id)
            (if b then insert_feed plan.business_key rows db.feed else db.feed)) [
              | true ↦ insert_feed-HasUniqueKeys plan.business_key rows db.feed valid.unique_feed
              | false ↦ valid.unique_feed
            ] in
    elim (insert_row-eq-ok r db.deliveries rows h) [
      | inl same ↦ record {
        unique_ids = rw same valid.unique_ids;
        unique_keys = rw same valid.unique_keys;
        unique_feed = feed;
        numbered = rw same valid.numbered;
      }
      | inr (new_key, new_id, more) ↦ record {
        unique_ids = rw more (
            HasUniqueKeys-append (λ x. x.id) db.deliveries r valid.unique_ids
              (find-none-any (has_id r.id) (λ x. x.id == r.id) db.deliveries (λ x t. t) new_id));
        unique_keys = rw more (
            HasUniqueKeys-append (λ x. x.business_key) db.deliveries r valid.unique_keys
              (find-none-any (has_business_key r.business_key)
                (λ x. x.business_key == r.business_key) db.deliveries (λ x t. t) new_key));
        unique_feed = feed;
        numbered =
            rw more
              (All-map db.attempts (λ a. is_numbered-append db.deliveries r a) valid.numbered);
      }
    ]

perform-IsValid :
    (fault : ℕ → Bool) (ids : ℕ → String) (action : Action) (e : EventEnvelope) (plan : Plan)
    (now max : ℕ) (db : Db) (r : Bool × Db)
    → IsValid db
    → perform fault ids action e plan now max db ≡ ok r
    → IsValid r.1
unfolding perform
perform-IsValid fault ids Action.ignore e plan now max db r valid h =
    subst (λ x. IsValid x.1) (sym (ignore-eq-ok fault ids e plan now max db r h)) valid
perform-IsValid fault ids Action.suppress e plan now max db r valid h =
    subst (λ x. IsValid x.1) (sym (suppress-eq-ok fault ids e plan now max db r h))
      (suppressed_by-IsValid plan now db valid)
perform-IsValid fault ids Action.deliver e plan now max db r valid h =
    let (t, rows, goes, same) = deliver-eq-ok fault ids e plan now max db r h in
    let state = first_state plan now db in
    subst (λ x. IsValid x.1) (sym same)
      (deliver-IsValid plan state (new_row (ids 0) e plan t state now max) rows db valid goes)

pub apply_event-IsValid :
    (fault : ℕ → Bool) (ids : ℕ → String) (e : EventEnvelope) (plan : Plan) (now max : ℕ) (db : Db)
    (r : Bool × Db)
    → IsValid db
    → apply_event fault ids e plan now max db ≡ ok r
    → IsValid r.1
apply_event-IsValid fault ids e plan now max db r valid h =
    elim (apply_event-eq-ok fault ids e plan now max db r h) [
      | inl (_, same) ↦ subst (λ x. IsValid x.1) (sym same) valid
      | inr (_, done) ↦
          perform-IsValid fault ids plan.action e plan now max (with_inbox e now db) r
            (record {
              unique_ids = valid.unique_ids;
              unique_keys = valid.unique_keys;
              unique_feed = valid.unique_feed;
              numbered = valid.numbered;
            })
            done
    ]

pub claim_due-IsValid :
    (fault : ℕ → Bool) (now lease : ℕ) (db : Db) (r : Option Delivery × Db)
    → IsValid db
    → claim_due fault now lease db ≡ ok r
    → IsValid r.1
claim_due-IsValid fault now lease db r valid h = elim (claim_due-eq-ok fault now lease db r h) [
  | inl (_, same) ↦ subst (λ x. IsValid x.1) (sym same) valid
  | inr (rt, due, same) ↦
      let (found, _) = first_due-found now db rt valid due in
      let f = claim_row (rt.0.attempt_count + 1) now lease in
      subst (λ x. IsValid x.1) (sym same)
        (record {
          unique_ids =
              HasUniqueKeys-update_row (λ x. x.id) (has_id rt.0.id) f db.deliveries (λ x. refl)
                valid.unique_ids;
          unique_keys =
              HasUniqueKeys-update_row (λ x. x.business_key) (has_id rt.0.id) f db.deliveries
                (λ x. refl) valid.unique_keys;
          unique_feed = valid.unique_feed;
          numbered =
              All-map db.attempts
                (λ a.
                  is_numbered-update_row (has_id rt.0.id) f db.deliveries a (λ x. refl)
                    λ x at fit.
                      let same : x ≡ rt.0 = cc in
                      ground (arith, fit, ap (λ y. y.attempt_count) same))
                valid.numbered;
        })
]

completed-IsValid :
    (id : String) (row : Row) (res : AttemptResult) (db : Db)
    → IsValid db
    → find (has_id id) db.deliveries ≡ some row
    → is_processing row.state ≡ true
    → IsValid (completed id row.attempt_count row.max_attempts res db)
completed-IsValid id row res db valid found busy =
    let next = next_state res row.attempt_count row.max_attempts in
    let f = complete_row next res in
    let calm : is_processing next ≡ false = ground (arith) in
    record {
      unique_ids =
          HasUniqueKeys-update_row (λ x. x.id) (has_id id) f db.deliveries (λ x. refl)
            valid.unique_ids;
      unique_keys =
          HasUniqueKeys-update_row (λ x. x.business_key) (has_id id) f db.deliveries (λ x. refl)
            valid.unique_keys;
      unique_feed = valid.unique_feed;
      numbered =
          All-append (λ a. is_numbered (update_row (has_id id) f db.deliveries) a ≡ true)
            db.attempts
            (attempt_row id row.attempt_count (outcome res row.attempt_count row.max_attempts) res)
            (All-map db.attempts
              (λ a.
                is_numbered-update_row (has_id id) f db.deliveries a (λ x. refl)
                  λ x at fit. ground (arith, fit, calm))
              valid.numbered)
            (rw
              (find-update_row (has_id id) f db.deliveries row found
                (find_passes (has_id id) db.deliveries row found))
              (ground (arith, calm)));
    }

pub complete_attempt-IsValid :
    (fault : ℕ → Bool) (d : Delivery) (res : AttemptResult) (db : Db) (r : DeliveryState × Db)
    → IsValid db
    → complete_attempt fault d res db ≡ ok r
    → IsValid r.1
complete_attempt-IsValid fault d res db r valid h =
    let (row, found, busy, _, _, same) = complete_attempt-eq-ok fault d res db r h in
    subst (λ x. IsValid x.1) (sym same) (completed-IsValid d.id row res db valid found busy)

mark-IsValid :
    (p : FeedRow → Bool) (now : ℕ) (db : Db)
    → IsValid db
    → IsValid (record db { feed = map (mark p now) db.feed })
mark-IsValid p now db valid = record {
  unique_ids = valid.unique_ids;
  unique_keys = valid.unique_keys;
  unique_feed =
      HasUniqueKeys-map (λ f. f.delivery_id) (mark p now) db.feed (λ f. ground (arith))
        valid.unique_feed;
  numbered = valid.numbered;
}

pub committed-holds :
    {E A : Type 0} (P : Db → Type 0) (m : Result E (A × Db)) (db : Db)
    → P db
    → ((r : A × Db) → m ≡ ok r → P r.1)
    → P (committed m db)
committed-holds P (ok r) db p h = h r refl
committed-holds P (err e) db p h = p

pub execute-IsValid : (c : Command) (db : Db) → IsValid db → IsValid (execute c db)
unfolding execute mark_read mark_all_read
execute-IsValid (applies fault ids e plan now max) db valid =
    committed-holds IsValid _ db valid λ r. apply_event-IsValid fault ids e plan now max db r valid
execute-IsValid (claims fault now lease) db valid =
    committed-holds IsValid _ db valid λ r. claim_due-IsValid fault now lease db r valid
execute-IsValid (completes fault d res) db valid =
    committed-holds IsValid _ db valid λ r. complete_attempt-IsValid fault d res db r valid
execute-IsValid (marks true account id now) db valid = valid
execute-IsValid (marks false account id now) db valid = mark-IsValid _ now db valid
execute-IsValid (marks_all true account now) db valid = valid
execute-IsValid (marks_all false account now) db valid = mark-IsValid _ now db valid

pub run-IsValid : (cs : List Command) (db : Db) → IsValid db → IsValid (run cs db)
unfolding run
run-IsValid [] db valid = valid
run-IsValid (c ∷ cs) db valid = run-IsValid cs (execute c db) (execute-IsValid c db valid)
