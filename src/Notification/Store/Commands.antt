-- ===== src/Notification/Store/Commands.antt =====
-- The transactions of services/notification-service/internal/store/postgres/repository.go in the
-- order in which they commit: those of several workers and consumers, interleaved.
use match_mate_dating_web.Base.{ℕ, Bool, List, [], ◌∷◌, String}
use match_mate_dating_web.Base.Result.{Result, ok, err}
use match_mate_dating_web.Notification.Domain.{EventEnvelope, Plan, Delivery}
use match_mate_dating_web.Notification.Store.{Db}
use match_mate_dating_web.Notification.Store.Events.{apply_event}
use match_mate_dating_web.Notification.Store.Attempts.{AttemptResult, claim_due, complete_attempt}
use match_mate_dating_web.Notification.Store.Reads.{mark_read, mark_all_read}

pub data Command : Type 0 where
  applies : (ℕ → Bool) → (ℕ → String) → EventEnvelope → Plan → ℕ → ℕ → Command
  claims : (ℕ → Bool) → ℕ → ℕ → Command
  completes : (ℕ → Bool) → Delivery → AttemptResult → Command
  marks : Bool → String → String → ℕ → Command
  marks_all : Bool → String → ℕ → Command

abbrev pub committed : {E A : Type 0} → Result E (A × Db) → Db → Db
committed (ok r) db = r.1
committed (err e) db = db

unfoldable pub execute : Command → Db → Db
execute (applies fault ids e plan now max) db =
    committed (apply_event fault ids e plan now max db) db
execute (claims fault now lease) db = committed (claim_due fault now lease db) db
execute (completes fault d res) db = committed (complete_attempt fault d res db) db
execute (marks failed account id now) db = committed (mark_read failed account id now db) db
execute (marks_all failed account now) db = committed (mark_all_read failed account now db) db

unfoldable pub run : List Command → Db → Db
run [] db = db
run (c ∷ cs) db = run cs (execute c db)
