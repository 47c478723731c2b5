-- ===== src/Notification/Store/Silence/Runs.antt =====
-- No transaction ends the silence of a suppressed account.
use mathlib.Core.Path.{subst}
use match_mate_dating_web.Base.{
  ℕ, ◌+◌, ◌≡◌, ◌≢◌, refl, sym, ap, ◌∙◌, Bool, true, false, Option, some, List, [], ◌∷◌, String,
  arith, string_eq, nat_eq, any, any-append, inl, inr, eq_iff, Bool-cases,
}
use match_mate_dating_web.Base.Tables.{find}
use match_mate_dating_web.Base.Result.{ok}
use match_mate_dating_web.Notification.Domain.{Action, DeliveryState, EventEnvelope, Plan, Delivery}
use match_mate_dating_web.Notification.Store.{Db, has_id, is_processing}
use match_mate_dating_web.Notification.Store.Events.{
  is_silenced, new_row, first_state, perform, apply_event, with_inbox, has_event, suppressed_by,
}
use match_mate_dating_web.Notification.Store.Attempts.{
  AttemptResult, next_state, complete_row, claim_row, claim_due, complete_attempt, is_due, claimed,
  delivery_of,
}
use match_mate_dating_web.Notification.Store.Reads.{mark_read, mark_all_read}
use match_mate_dating_web.Notification.Store.Effects.{
  insert_row-eq-ok, deliver-eq-ok, apply_event-eq-ok, ignore-eq-ok, suppress-eq-ok, claim_due-eq-ok,
  complete_attempt-eq-ok,
}
use match_mate_dating_web.Notification.Store.Valid.{IsValid, first_due-found}
use match_mate_dating_web.Notification.Store.Keeps.{
  execute-IsValid, committed-holds, apply_event-IsValid,
}
use match_mate_dating_web.Notification.Store.Commands.{
  Command, applies, claims, completes, marks, marks_all, execute, run,
}
use match_mate_dating_web.Notification.Store.Silence.{
  IsSilent, any-false-update_row, suppressed_by-IsSilent, suppressed_by-IsSilent_other,
  new_row_silent,
}

perform-IsSilent :
    (account : String) (fault : ℕ → Bool) (ids : ℕ → String) (action : Action) (e : EventEnvelope)
    (plan : Plan) (now max : ℕ) (db : Db) (r : Bool × Db)
    → IsSilent account db
    → perform fault ids action e plan now max db ≡ ok r
    → IsSilent account r.1
unfolding perform
perform-IsSilent account fault ids Action.ignore e plan now max db r silent h =
    subst (λ x. IsSilent account x.1) (sym (ignore-eq-ok fault ids e plan now max db r h)) silent
perform-IsSilent account fault ids Action.suppress e plan now max db r silent h =
    subst (λ x. IsSilent account x.1) (sym (suppress-eq-ok fault ids e plan now max db r h))
      (suppressed_by-IsSilent_other account plan now db silent)
perform-IsSilent account fault ids Action.deliver e plan now max db r silent h =
    let (t, rows, goes, same) = deliver-eq-ok fault ids e plan now max db r h in
    let row = new_row (ids 0) e plan t (first_state plan now db) now max in
    subst (λ x. IsSilent account x.1) (sym same)
      (record {
        barred = silent.barred;
        finished = elim (insert_row-eq-ok row db.deliveries rows goes) [
          | inl old ↦ rw old silent.finished
          | inr (_, _, more) ↦
              let quiet : is_silenced account row ≡ false =
                new_row_silent account (ids 0) e plan t now max db silent.barred in
              rw
                (
                  more,
                  any-append (is_silenced account) db.deliveries (row ∷ []),
                  silent.finished,
                  quiet,
                )
                refl
        ];
      })

apply_event-IsSilent :
    (account : String) (fault : ℕ → Bool) (ids : ℕ → String) (e : EventEnvelope) (plan : Plan)
    (now max : ℕ) (db : Db) (r : Bool × Db)
    → IsSilent account db
    → apply_event fault ids e plan now max db ≡ ok r
    → IsSilent account r.1
apply_event-IsSilent account fault ids e plan now max db r silent h =
    elim (apply_event-eq-ok fault ids e plan now max db r h) [
      | inl (_, same) ↦ subst (λ x. IsSilent account x.1) (sym same) silent
      | inr (_, done) ↦
          perform-IsSilent account fault ids plan.action e plan now max (with_inbox e now db) r
            (record { barred = silent.barred; finished = silent.finished }) done
    ]

any-false-find :
    {A : Type 0} (p q : A → Bool) (xs : List A) (a : A)
    → any q xs ≡ false
    → find p xs ≡ some a
    → q a ≡ false
any-false-find p q [] a h at = absurd (cc)
any-false-find p q (x ∷ xs) a h at = elim (Bool-cases (p x)) [
  | inl t ↦
      let one : x ≡ a = ground (arith, at, t) in subst (λ y. q y ≡ false) one (ground (arith, h))
  | inr e ↦ any-false-find p q xs a (ground (arith, h)) (ground (arith, at, e))
]

claim_due-IsSilent :
    (account : String) (fault : ℕ → Bool) (now lease : ℕ) (db : Db) (r : Option Delivery × Db)
    → IsValid db
    → IsSilent account db
    → claim_due fault now lease db ≡ ok r
    → IsSilent account r.1
claim_due-IsSilent account fault now lease db r valid silent h =
    elim (claim_due-eq-ok fault now lease db r h) [
      | inl (_, same) ↦ subst (λ x. IsSilent account x.1) (sym same) silent
      | inr (rt, due, same) ↦
          let (found, passed) = first_due-found now db rt valid due in
          let f = claim_row (rt.0.attempt_count + 1) now lease in
          subst (λ x. IsSilent account x.1) (sym same)
            (record {
              barred = silent.barred;
              finished =
                  any-false-update_row (is_silenced account) (has_id rt.0.id) f db.deliveries
                    silent.finished
                    λ x at quiet.
                      let one : rt.0 ≡ x = cc in
                      let alive : is_due now x ≡ true =
                        subst (λ y. is_due now y ≡ true) one passed in
                      ground (arith, quiet, alive);
            })
    ]

complete_attempt-IsSilent :
    (account : String) (fault : ℕ → Bool) (d : Delivery) (res : AttemptResult) (db : Db)
    (r : DeliveryState × Db)
    → IsSilent account db
    → complete_attempt fault d res db ≡ ok r
    → IsSilent account r.1
complete_attempt-IsSilent account fault d res db r silent h =
    let (row, found, busy, _, _, same) = complete_attempt-eq-ok fault d res db r h in
    let f = complete_row (next_state res row.attempt_count row.max_attempts) res in
    subst (λ x. IsSilent account x.1) (sym same)
      (record {
        barred = silent.barred;
        finished =
            any-false-update_row (is_silenced account) (has_id d.id) f db.deliveries silent.finished
              λ x at quiet.
                let one : row ≡ x = cc in
                let on : is_processing x.state ≡ true =
                  subst (λ y. is_processing y.state ≡ true) one busy in
                ground (arith, quiet, on);
      })

execute-IsSilent :
    (account : String) (c : Command) (db : Db)
    → IsValid db
    → IsSilent account db
    → IsSilent account (execute c db)
unfolding execute mark_read mark_all_read
execute-IsSilent account (applies fault ids e plan now max) db valid silent =
    committed-holds (IsSilent account) _ db silent
      λ r. apply_event-IsSilent account fault ids e plan now max db r silent
execute-IsSilent account (claims fault now lease) db valid silent =
    committed-holds (IsSilent account) _ db silent
      λ r. claim_due-IsSilent account fault now lease db r valid silent
execute-IsSilent account (completes fault d res) db valid silent =
    committed-holds (IsSilent account) _ db silent
      λ r. complete_attempt-IsSilent account fault d res db r silent
execute-IsSilent account (marks true who id now) db valid silent = silent
execute-IsSilent account (marks false who id now) db valid silent = record {
  barred = silent.barred;
  finished = silent.finished;
}
execute-IsSilent account (marks_all true who now) db valid silent = silent
execute-IsSilent account (marks_all false who now) db valid silent = record {
  barred = silent.barred;
  finished = silent.finished;
}

run-IsSilent :
    (account : String) (cs : List Command) (db : Db)
    → IsValid db
    → IsSilent account db
    → IsValid (run cs db) × IsSilent account (run cs db)
unfolding run
run-IsSilent account [] db valid silent = (valid, silent)
run-IsSilent account (c ∷ cs) db valid silent =
    run-IsSilent account cs (execute c db) (execute-IsValid c db valid)
      (execute-IsSilent account c db valid silent)

claim_due_not_silent :
    (account : String) (fault : ℕ → Bool) (now lease : ℕ) (db after : Db) (d : Delivery)
    → IsValid db
    → IsSilent account db
    → claim_due fault now lease db ≡ ok (some d, after)
    → d.recipient_account_id ≢ account
claim_due_not_silent account fault now lease db after d valid silent h mine =
    elim (claim_due-eq-ok fault now lease db (some d, after) h) [
      | inl (_, same) ↦ absurd (cc)
      | inr (rt, due, same) ↦
          let (found, passed) = first_due-found now db rt valid due in
          let quiet : is_silenced account rt.0 ≡ false =
            any-false-find (has_id rt.0.id) (is_silenced account) db.deliveries rt.0 silent.finished
              found in
          let taken : d ≡ claimed now (delivery_of rt.0 rt.1) = cc in
          let whose : rt.0.recipient_account_id ≡ account =
            sym (ap (λ x. x.recipient_account_id) taken) ∙ mine in
          absurd (ground (arith, quiet, passed, eq_iff rt.0.recipient_account_id account, whose))
    ]

-- If the tables are valid and the event of an account's suppression is applied for the first time,
-- then whatever transactions follow, no claim gives a delivery to that account.
pub apply_event-run-claim_due :
    (fault claim_fault : ℕ → Bool) (ids : ℕ → String) (e : EventEnvelope) (plan : Plan)
    (now max later lease : ℕ) (db after : Db) (r : Bool × Db) (cs : List Command) (d : Delivery)
    → IsValid db
    → plan.action ≡ Action.suppress
    → any (has_event e.event_id) db.inbox ≡ false
    → apply_event fault ids e plan now max db ≡ ok r
    → claim_due claim_fault later lease (run cs r.1) ≡ ok (some d, after)
    → d.recipient_account_id ≢ plan.recipient_account_id
apply_event-run-claim_due fault claim_fault ids e plan now max later lease db after r cs d valid act
      new h claim =
    elim (apply_event-eq-ok fault ids e plan now max db r h) [
      | inl (known, _) ↦ absurd (ground (arith, known, new))
      | inr (_, done) ↦
          let same : r ≡ (false, suppressed_by plan now (with_inbox e now db)) =
            suppress-eq-ok fault ids e plan now max (with_inbox e now db) r (
              subst (λ a. perform fault ids a e plan now max (with_inbox e now db) ≡ ok r) act
                done) in
          let silent : IsSilent plan.recipient_account_id r.1 =
            subst (λ x. IsSilent plan.recipient_account_id x.1) (sym same)
              (suppressed_by-IsSilent plan now (with_inbox e now db)) in
          let (still_valid, still_silent) =
            run-IsSilent plan.recipient_account_id cs r.1
              (apply_event-IsValid fault ids e plan now max db r valid h) silent in
          claim_due_not_silent plan.recipient_account_id claim_fault later lease (run cs r.1) after
            d still_valid still_silent claim
    ]
