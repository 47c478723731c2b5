-- ===== src/Moderation/Store/Commands.antt =====
-- The transactions of services/moderation-service/internal/store/postgres/repository.go, in the
-- order in which they commit. The texts are already trimmed and checked by the service.
use match_mate_dating_web.Base.{ℕ, Bool, List, [], ◌∷◌, String}
use match_mate_dating_web.Base.Result.{Result, ok, err}
use match_mate_dating_web.Moderation.Domain.{Principal, ReportStatus, CreateReportInput}
use match_mate_dating_web.Moderation.Store.{Action, Db, Error}
use match_mate_dating_web.Moderation.Store.Cases.{
  create_report, record_case_view, assign_case, update_case_status,
}
use match_mate_dating_web.Moderation.Store.Actions.{
  create_action, create_appeal, decide_appeal, expire_actions,
}

pub data Command : Type 0 where
  reports :
      (ℕ → Bool) → (ℕ → Bool) → (ℕ → String) → Principal → CreateReportInput → String → ℕ → Command
  views : (ℕ → Bool) → String → Principal → String → ℕ → Command
  assigns : (ℕ → Bool) → (ℕ → Bool) → String → String → Principal → String → String → ℕ → Command
  changes :
      (ℕ → Bool) → (ℕ → Bool) → String → ReportStatus → Principal → String → String → ℕ → Command
  acts : (ℕ → Bool) → (ℕ → String) → String → Action → Principal → String → ℕ → Command
  appeals : (ℕ → Bool) → (ℕ → String) → String → String → Principal → String → ℕ → Command
  decides : (ℕ → Bool) → String → Bool → Principal → String → String → ℕ → Command
  expires : (ℕ → Bool) → ℕ → ℕ → Command

abbrev pub committed : {A : Type 0} → Result Error (A × Db) → Db → Db
committed (ok r) db = r.1
committed (err e) db = db

abbrev pub committed_db : Result Error Db → Db → Db
committed_db (ok r) db = r
committed_db (err e) db = db

module _ (sha to_lower : String → String) where
  unfoldable pub execute : Command → Db → Db
  execute (reports fault last ids p i correlation now) db =
      committed (create_report sha to_lower fault last ids p i correlation now db) db
  execute (views fault id p correlation now) db =
      committed_db (record_case_view fault id p correlation now db) db
  execute (assigns fault read_fault id assignee p reason correlation now) db =
      (assign_case fault read_fault id assignee p reason correlation now db).1
  execute (changes fault read_fault id next p reason correlation now) db =
      (update_case_status fault read_fault id next p reason correlation now db).1
  execute (acts fault ids case a p correlation now) db =
      committed (create_action fault ids case a p correlation now db) db
  execute (appeals fault ids action reason p correlation now) db =
      committed (create_appeal fault ids action reason p correlation now db) db
  execute (decides fault id reverses p reason correlation now) db =
      committed (decide_appeal fault id reverses p reason correlation now db) db
  execute (expires fault now limit) db = committed (expire_actions fault now limit db) db

  unfoldable pub run : List Command → Db → Db
  run [] db = db
  run (c ∷ cs) db = run cs (execute c db)
