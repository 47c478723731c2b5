-- ===== src/Moderation/Service/Roles.antt =====
-- What an action that is applied and an appeal that is accepted imply.
use match_mate_dating_web.Base.{
  ℕ, ◌+◌, ◌≡◌, refl, ap, Bool, true, false, not, ◌&&◌, ◌||◌, String, arith, string_eq, any, All,
  ltb, nat_eq,
}
use match_mate_dating_web.Base.Result.{Result, ok, err, ok_inj}
use match_mate_dating_web.Moderation.Domain.{Principal, valid_action}
use match_mate_dating_web.Moderation.Store
use match_mate_dating_web.Moderation.Store.{Action, Db, is_active}
use match_mate_dating_web.Moderation.Store.Actions.{create_action, last_version, is_equivalent}
use match_mate_dating_web.Moderation.Store.Effects.{create_action-eq-ok}
use match_mate_dating_web.Moderation.Store.Valid.{last_version-All}
use match_mate_dating_web.Moderation.Service.{lift, apply_action, is_problem}

pub lift-eq-ok : {A : Type 0} (m : Result Store.Error A) (a : A) → lift m ≡ ok a → m ≡ ok a
lift-eq-ok (ok b) a h = ap ok (ok_inj h)
lift-eq-ok (err e) a h = cc

apply_action-eq-ok :
    (is_uuid : String → Bool) (fault : ℕ → Bool) (ids : ℕ → String) (p : Principal) (id : String)
    (a : Action) (correlation : String) (now : ℕ) (db : Db) (r : Action × Db)
    → apply_action is_uuid fault ids p id a correlation now db ≡ ok r
    → (is_problem (valid_action a.class a.scope a.reason a.effective_at a.expires_at) ≡ false)
      × (lift (create_action fault ids id a p correlation now db) ≡ ok r)
unfolding apply_action
apply_action-eq-ok is_uuid fault ids p id a correlation now db r h =
    (ground (arith, h), ground (arith, h))

-- If an action is applied, its fields are valid, it is active under its case, no equivalent action
-- was active, and its version is later than that of every equivalent action.
pub apply_action_newest :
    (is_uuid : String → Bool) (fault : ℕ → Bool) (ids : ℕ → String) (p : Principal) (id : String)
    (a : Action) (correlation : String) (now : ℕ) (db : Db) (r : Action × Db)
    → apply_action is_uuid fault ids p id a correlation now db ≡ ok r
    → (is_problem (valid_action a.class a.scope a.reason a.effective_at a.expires_at) ≡ false)
      × (is_active r.0.state ≡ true)
      × (r.0.case_id ≡ id)
      × (any (λ b. is_equivalent r.0 b && is_active b.state) db.actions ≡ false)
      × All (λ b. (not (is_equivalent a b) || ltb b.version r.0.version) ≡ true) db.actions
apply_action_newest is_uuid fault ids p id a correlation now db r h =
    let (valid, done) = apply_action-eq-ok is_uuid fault ids p id a correlation now db r h in
    let (c, _, _, free, same) =
      create_action-eq-ok fault ids id a p correlation now db r
        (lift-eq-ok (create_action fault ids id a p correlation now db) r done) in
    rw same (
      valid,
      refl,
      refl,
      free,
      last_version-All a db.actions (last_version a db.actions + 1) (omega arith),
    )
