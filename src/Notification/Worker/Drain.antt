-- ===== src/Notification/Worker/Drain.antt =====
-- With the database answering, a worker makes a bounded number of attempts.
use match_mate_dating_web.Base.{
  ℕ, ◌+◌, ◌-◌, ◌≤◌, ◌≡◌, Bool, Option, none, List, [], ◌∷◌, string_eq, nat_eq, if◌then◌else◌,
}
use match_mate_dating_web.Notification.Store.{Row, Db, Error, is_unfinished}
use match_mate_dating_web.Notification.Store.Valid.{IsValid}
use match_mate_dating_web.Notification.Worker.{Worker}

-- How many attempts a delivery can still have: at least one while it is not finished.
abbrev pub remaining : Row → ℕ
remaining r = if is_unfinished r.state then 1 + (r.max_attempts - r.attempt_count) else 0

abbrev pub total_remaining : List Row → ℕ
total_remaining [] = 0
total_remaining (r ∷ rs) = remaining r + total_remaining rs

-- One round: nothing is due and nothing changes, or an attempt is made and recorded.
record IsRound (db : Db) (r : (Bool × Option Error) × Db) : Type 0 where
  valid : IsValid r.1
  answered : r.0.1 ≡ none
  uses : (if r.0.0 then 1 else 0) + total_remaining r.1.deliveries ≤ total_remaining db.deliveries
