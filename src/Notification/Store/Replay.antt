-- ===== src/Notification/Store/Replay.antt =====
-- An event counts once.
use match_mate_dating_web.Base.{
  ℕ, ◌≡◌, ap, Bool, true, false, [], ◌∷◌, String, arith, string_eq, nat_eq, any, any-append, inl,
  inr, eq_iff,
}
use match_mate_dating_web.Base.Result.{ok}
use match_mate_dating_web.Notification.Domain.{Action, EventEnvelope, Plan}
use match_mate_dating_web.Notification.Store.{Db}
use match_mate_dating_web.Notification.Store.Events.{
  perform, apply_event, with_inbox, inbox_entry, has_event,
}
use match_mate_dating_web.Notification.Store.Effects.{
  deliver-eq-ok, apply_event-eq-ok, ignore-eq-ok, suppress-eq-ok,
}

perform-inbox :
    (fault : ℕ → Bool) (ids : ℕ → String) (action : Action) (e : EventEnvelope) (plan : Plan)
    (now max : ℕ) (db : Db) (r : Bool × Db)
    → perform fault ids action e plan now max db ≡ ok r
    → r.1.inbox ≡ db.inbox
unfolding perform
perform-inbox fault ids Action.ignore e plan now max db r h =
    ap (λ x. x.1.inbox) (ignore-eq-ok fault ids e plan now max db r h)
perform-inbox fault ids Action.suppress e plan now max db r h =
    ap (λ x. x.1.inbox) (suppress-eq-ok fault ids e plan now max db r h)
perform-inbox fault ids Action.deliver e plan now max db r h =
    let (_, _, _, same) = deliver-eq-ok fault ids e plan now max db r h in ap (λ x. x.1.inbox) same

-- An event that has been applied changes nothing when it is applied again, under any plan, as long
-- as the database answers.
pub apply_event-apply_event :
    (fault fault' : ℕ → Bool) (ids ids' : ℕ → String) (e : EventEnvelope) (plan plan' : Plan)
    (now now' max max' : ℕ) (db : Db) (r : Bool × Db)
    → apply_event fault ids e plan now max db ≡ ok r
    → (fault' 0 ≡ false) × (fault' 1 ≡ false) × (fault' 7 ≡ false)
    → apply_event fault' ids' e plan' now' max' r.1 ≡ ok (false, r.1)
unfolding apply_event
apply_event-apply_event fault fault' ids ids' e plan plan' now now' max max' db r h calm =
    let known : any (has_event e.event_id) r.1.inbox ≡ true =
      elim (apply_event-eq-ok fault ids e plan now max db r h) [
        | inl (there, same) ↦ rw same there
        | inr (_, done) ↦
            rw
              (
                perform-inbox fault ids plan.action e plan now max (with_inbox e now db) r done,
                any-append (has_event e.event_id) db.inbox (inbox_entry e now ∷ []),
              )
              (ground (arith, eq_iff e.event_id e.event_id))
      ] in
    ground (arith, known, calm)
