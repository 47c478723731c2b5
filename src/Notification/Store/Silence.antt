-- ===== src/Notification/Store/Silence.antt =====
-- Accounts that are suppressed for good, with no delivery that is unfinished.
pub mod Runs
use mathlib.Core.Path.{subst}
use match_mate_dating_web.Base.{
  ℕ, ◌+◌, ◌≡◌, ◌≢◌, refl, sym, ap, ◌∙◌, Bool, true, false, not, ◌&&◌, ◌||◌, Option, none, some,
  List, [], ◌∷◌, ◌++◌, String, arith, ltb, leb, ◌==◌, string_eq, nat_eq, any, any-append, inl, inr,
  ◌⊎◌, eq_iff, Bool-cases, map, if◌then◌else◌, Option-cases,
}
use match_mate_dating_web.Base.Tables.{find, update_row}
use match_mate_dating_web.Base.Result.{Result, ok, err}
use match_mate_dating_web.Notification.Domain.{
  Action, DeliveryState, EventEnvelope, Plan, Template, Delivery,
}
use match_mate_dating_web.Notification.Store.{
  Row, Db, Suppression, Error, has_id, is_unfinished, is_processing, is_waiting, is_pending,
}
use match_mate_dating_web.Notification.Store.Events.{
  silenced, is_silenced, insert_row, new_row, first_state, perform, apply_event, with_inbox,
  deliver, has_event, suppresses, lasts, has_account, upsert_suppression, suppression,
  suppressed_by, is_preferred,
}
use match_mate_dating_web.Notification.Store.Attempts.{
  AttemptResult, next_state, complete_row, claim_row, completed, claim_due, complete_attempt,
  first_due, is_due, claimed, delivery_of,
}
use match_mate_dating_web.Notification.Store.Reads.{mark_read, mark_all_read}
use match_mate_dating_web.Notification.Store.Effects.{
  insert_row-eq-ok, deliver-eq-ok, apply_event-eq-ok, ignore-eq-ok, suppress-eq-ok, claim_due-eq-ok,
  complete_attempt-eq-ok,
}
use match_mate_dating_web.Notification.Store.Valid.{IsValid, first_due-found}
use match_mate_dating_web.Notification.Store.Keeps.{
  execute-IsValid, committed-holds, apply_event-IsValid,
}
use match_mate_dating_web.Notification.Store.Commands.{
  Command, applies, claims, completes, marks, marks_all, committed, execute, run,
}

abbrev is_lasting : Option ℕ → Bool
is_lasting none = true
is_lasting (some t) = false

-- A suppression of the account that does not expire.
abbrev pub bars : String → Suppression → Bool
bars account s = s.account_id == account && is_lasting s.expires_at

-- The account is suppressed for good and none of its deliveries is unfinished.
pub record IsSilent (account : String) (db : Db) : Type 0 where
  pub barred : any (bars account) db.suppressions ≡ true
  pub finished : any (is_silenced account) db.deliveries ≡ false

bars-suppresses :
    (account : String) (now : ℕ) (ss : List Suppression)
    → any (bars account) ss ≡ true
    → any (suppresses account now) ss ≡ true
bars-suppresses account now [] h = absurd (ground (arith, h))
bars-suppresses account now (s ∷ ss) h = elim (Option-cases (s.expires_at)) [
  | inl forever ↦ ground (arith, h, forever, bars-suppresses account now ss)
  | inr (t, until) ↦ ground (arith, h, until, bars-suppresses account now ss)
]

upsert_bars :
    (account : String) (s : Suppression) (ss : List Suppression)
    → s.expires_at ≡ none
    → any (bars account) ss ≡ true
    → any (bars account) (update_row (has_account s.account_id) (λ _. s) ss) ≡ true
upsert_bars account s [] e h = h
upsert_bars account s (x ∷ xs) e h =
    ground (arith, e, h, eq_iff x.account_id s.account_id, upsert_bars account s xs e)

upsert_own_bars :
    (s : Suppression) (ss : List Suppression)
    → s.expires_at ≡ none
    → any (has_account s.account_id) ss ≡ true
    → any (bars s.account_id) (update_row (has_account s.account_id) (λ _. s) ss) ≡ true
upsert_own_bars s [] e h = absurd (ground (arith, h))
upsert_own_bars s (x ∷ xs) e h =
    ground (arith, e, h, eq_iff s.account_id s.account_id, upsert_own_bars s xs e)

pub any-false-update_row :
    {A : Type 0} (q p : A → Bool) (f : A → A) (xs : List A)
    → any q xs ≡ false
    → ((a : A) → find p xs ≡ some a → q a ≡ false → q (f a) ≡ false)
    → any q (update_row p f xs) ≡ false
any-false-update_row q p f [] h k = refl
any-false-update_row q p f (x ∷ xs) h k = elim (Bool-cases (p x)) [
  | inl t ↦ ground (arith, h, t, k x (ground (arith, t)))
  | inr e ↦ ground (
    arith,
    h,
    e,
    any-false-update_row q p f xs (ground (arith, h)) λ a at. k a (ground (arith, e, at)),
  )
]

any-silenced :
    (account : String) (plan : Plan) (now : ℕ) (rows : List Row)
    → any (is_silenced account) rows ≡ false
    → any (is_silenced account) (map (silenced plan now) rows) ≡ false
any-silenced account plan now [] h = refl
any-silenced account plan now (r ∷ rs) h = ground (arith, h, any-silenced account plan now rs)

any-silenced_own :
    (plan : Plan) (now : ℕ) (rows : List Row)
    → any (is_silenced plan.recipient_account_id) (map (silenced plan now) rows) ≡ false
any-silenced_own plan now [] = refl
any-silenced_own plan now (r ∷ rs) = ground (arith, any-silenced_own plan now rs)

upsert_suppression-bars :
    (s : Suppression) (ss : List Suppression)
    → s.expires_at ≡ none
    → any (bars s.account_id) (upsert_suppression s ss) ≡ true
unfolding upsert_suppression
upsert_suppression-bars s ss e = elim (Bool-cases (any (has_account s.account_id) ss)) [
  | inl known ↦ ground (arith, known, upsert_own_bars s ss e)
  | inr new ↦
      ground (
        arith,
        new,
        e,
        eq_iff s.account_id s.account_id,
        any-append (bars s.account_id) ss (s ∷ []),
      )
]

upsert_suppression-bars_other :
    (account : String) (s : Suppression) (ss : List Suppression)
    → s.expires_at ≡ none
    → any (bars account) ss ≡ true
    → any (bars account) (upsert_suppression s ss) ≡ true
unfolding upsert_suppression
upsert_suppression-bars_other account s ss e h =
    elim (Bool-cases (any (has_account s.account_id) ss)) [
      | inl known ↦ ground (arith, known, upsert_bars account s ss e h)
      | inr new ↦ ground (arith, new, h, any-append (bars account) ss (s ∷ []))
    ]

-- The event of a suppression silences the account, and leaves a silence as it is.
pub suppressed_by-IsSilent :
    (plan : Plan) (now : ℕ) (db : Db)
    → IsSilent plan.recipient_account_id (suppressed_by plan now db)
suppressed_by-IsSilent plan now db = record {
  barred = upsert_suppression-bars (suppression plan now) db.suppressions refl;
  finished = any-silenced_own plan now db.deliveries;
}

pub suppressed_by-IsSilent_other :
    (account : String) (plan : Plan) (now : ℕ) (db : Db)
    → IsSilent account db
    → IsSilent account (suppressed_by plan now db)
suppressed_by-IsSilent_other account plan now db h = record {
  barred =
      upsert_suppression-bars_other account (suppression plan now) db.suppressions refl h.barred;
  finished = any-silenced account plan now db.deliveries h.finished;
}

-- A new delivery to a silent account starts suppressed.
pub new_row_silent :
    (account id : String) (e : EventEnvelope) (plan : Plan) (t : Template) (now max : ℕ) (db : Db)
    → any (bars account) db.suppressions ≡ true
    → is_silenced account (new_row id e plan t (first_state plan now db) now max) ≡ false
new_row_silent account id e plan t now max db h =
    elim (Bool-cases (plan.recipient_account_id == account)) [
      | inl same ↦
          let one : plan.recipient_account_id ≡ account =
            (eq_iff plan.recipient_account_id account).0 same in
          let all : any (suppresses plan.recipient_account_id now) db.suppressions ≡ true =
            subst (λ a. any (suppresses a now) db.suppressions ≡ true) (sym one)
              (bars-suppresses account now db.suppressions h) in
          ground (arith, all)
      | inr other ↦ ground (arith, other)
    ]
