-- ===== src/Moderation/Service/Decisions.antt =====
-- What the decision of an appeal does (application/service.go: Decide, with DecideAppeal).
use mathlib.Core.Path.{subst}
use match_mate_dating_web.Base.{
  ℕ, ◌≡◌, sym, ap, Bool, true, false, ◌||◌, some, String, arith, ◌==◌, string_eq, eq_iff,
  if◌then◌else◌,
}
use match_mate_dating_web.Base.Tables.{find, find_passes, find-update_row, update_row, All-found}
use match_mate_dating_web.Base.Keys.{HasUniqueKeys-find}
use match_mate_dating_web.Base.Result.{ok}
use match_mate_dating_web.Base.Text.{trim_space}
use match_mate_dating_web.Moderation.Domain.{Principal, ActionState, AppealState, has_role}
use match_mate_dating_web.Moderation.Store.{Action, Appeal, Db, has_action_id, has_appeal_id}
use match_mate_dating_web.Moderation.Store.Actions.{
  decide_appeal, is_pending_appeal, decide_row, decided_by, reverse_row,
}
use match_mate_dating_web.Moderation.Store.Effects.{decide_appeal-eq-ok}
use match_mate_dating_web.Moderation.Store.Valid.{IsValid}
use match_mate_dating_web.Moderation.Service.{lift, decide}
use match_mate_dating_web.Moderation.Service.Roles.{lift-eq-ok}

-- The appeal `id` was pending, is answered with the decision of `p`, and the answer is stored; its
-- action is reversed by a reversal, and otherwise stays as it is.
pub record IsDecided (id : String) (reverses : Bool) (p : Principal) (now : ℕ) (db : Db)
    (answer : Appeal) (after : Db) : Type 0 where
  pub before : Appeal
  pub found : find (has_appeal_id id) db.appeals ≡ some before
  pub pending : before.state ≡ AppealState.appealed
  pub stored : find (has_appeal_id id) after.appeals ≡ some answer
  pub outcome : answer.state ≡ (if reverses then AppealState.reversed else AppealState.upheld)
  pub decider : answer.decision_actor_id ≡ p.subject
  pub decided : answer.decided_at ≡ some now
  pub action : Action
  pub action_found : find (has_action_id before.action_id) db.actions ≡ some action
  pub action_kept :
      find (has_action_id before.action_id) after.actions
      ≡ some (record action { state = if reverses then ActionState.reversed else action.state })

pending_found :
    (id : String) (db : Db) (waiting : Appeal)
    → IsValid db
    → find (is_pending_appeal id) db.appeals ≡ some waiting
    → (find (has_appeal_id waiting.id) db.appeals ≡ some waiting)
      × (waiting.id ≡ id)
      × (waiting.state ≡ AppealState.appealed)
pending_found id db waiting valid found =
    let passes = find_passes (is_pending_appeal id) db.appeals waiting found in
    (
      All-found (λ a. find (has_appeal_id a.id) db.appeals ≡ some a) (is_pending_appeal id)
          db.appeals waiting (HasUniqueKeys-find (λ a. a.id) db.appeals valid.unique_appeals) found,
      ground (arith, passes, eq_iff waiting.id id),
      ground (arith, passes),
    )

action_after :
    (reverses : Bool) (waiting : Appeal) (a : Action) (p : Principal) (reason correlation : String)
    (now : ℕ) (db : Db)
    → find (has_action_id waiting.action_id) db.actions ≡ some a
    → find
        (has_action_id waiting.action_id)
        (decided_by reverses waiting a p reason correlation now db).actions
      ≡ some (record a { state = if reverses then ActionState.reversed else a.state })
action_after true waiting a p reason correlation now db found =
    find-update_row (has_action_id waiting.action_id) reverse_row db.actions a found
      (find_passes (has_action_id waiting.action_id) db.actions a found)
action_after false waiting a p reason correlation now db found = found

-- If a decision succeeds on valid tables, the caller is a moderator or an administrator, the appeal
-- was pending, the answer is the stored appeal with the caller's decision, and the action that it is
-- against is reversed if the decision is REVERSED and otherwise unchanged.
pub decide-IsDecided :
    (is_uuid : String → Bool) (to_upper : String → String) (fault : ℕ → Bool) (p : Principal)
    (id decision reason correlation : String) (now : ℕ) (db : Db) (r : Appeal × Db)
    → IsValid db
    → decide is_uuid to_upper fault p id decision reason correlation now db ≡ ok r
    → ((has_role p "moderator" || has_role p "admin") ≡ true)
      × IsDecided id (to_upper (trim_space decision) == "REVERSED") p now db r.0 r.1
unfolding decide
decide-IsDecided is_uuid to_upper fault p id decision reason correlation now db r valid h =
    let reverses = to_upper (trim_space decision) == "REVERSED" in
    let done : lift (decide_appeal fault id reverses p (trim_space reason) correlation now db)
        ≡ ok r =
      ground (arith, h) in
    let (waiting, a, found, at, is) =
      decide_appeal-eq-ok fault id reverses p (trim_space reason) correlation now db r
        (lift-eq-ok _ r done) in
    let (by_id, same, pending) = pending_found id db waiting valid found in
    let text = trim_space (trim_space reason) in
    let row = decide_row reverses p.subject text now in
    (
      ground (arith, h),
      record {
        before = waiting;
        found = subst (λ i. find (has_appeal_id i) db.appeals ≡ some waiting) same by_id;
        pending = pending;
        stored =
            subst (λ t. find (has_appeal_id id) t.1.appeals ≡ some t.0) (sym is)
              (subst
                (λ i.
                  find (has_appeal_id i) (update_row (has_appeal_id waiting.id) row db.appeals)
                  ≡ some (row waiting))
                same
                (find-update_row (has_appeal_id waiting.id) row db.appeals waiting by_id
                  (find_passes (has_appeal_id waiting.id) db.appeals waiting by_id)));
        outcome = ap (λ t. t.0.state) is;
        decider = ap (λ t. t.0.decision_actor_id) is;
        decided = ap (λ t. t.0.decided_at) is;
        action = a;
        action_found = at;
        action_kept =
            subst
              (λ t.
                find (has_action_id waiting.action_id) t.1.actions
                ≡ some (record a { state = if reverses then ActionState.reversed else a.state }))
              (sym is) (action_after reverses waiting a p text correlation now db at);
      },
    )
