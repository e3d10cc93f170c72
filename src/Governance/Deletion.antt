-- ===== src/Governance/Deletion.antt =====
-- Erasure on request: the deletion half of repo/internal/service/governance.go.
use task.Base.{ℕ, ◌+◌, ◌*◌, Bool, true, false, if◌then◌else◌, none, List, [], ◌∷◌}
use task.Domain.Errors.{Result, ok, err, database, query, ◌>>◌}
use task.Domain.Models.{day}
use task.Analytics.Table.{Db as UsageDb}
use task.Analytics.Service.{AnalyticsService, anonymise}
use task.Governance.Table.{
  Db, DeletionRequest, pending, create_deletion_request, list_due_pending, hard_delete,
}

abbrev pub deletion_delay : ℕ
deletion_delay = 7 * day

-- `now` is read twice: for `RequestedAt` and for `ProcessAfter`.
unfoldable pub request_deletion :
    (down : Bool) → (new_id now later user_id : ℕ) → Db → Result (DeletionRequest × Db)
request_deletion down new_id now later user_id db =
    let d : DeletionRequest = record {
      id = 0;
      user_id = user_id;
      requested_at = now;
      process_after = later + deletion_delay;
      status = pending;
      completed_at = none;
    } in
    query down tt >> create_deletion_request new_id d db

-- The two stores that an erasure touches.
pub record State : Type 0 where
  pub usage : UsageDb
  pub db : Db

-- Which of the two statements of an erasure fail.
pub record Faults : Type 0 where
  pub anonymise_down : Bool
  pub delete_down : Bool

abbrev pub deleted : State → Result Db → State
deleted s (ok db') = record s { db = db' }
deleted s (err e) = s

-- `hardDeleteOne`, with the state as it is when a statement fails; the error is only logged.
unfoldable pub hard_delete_one : AnalyticsService → Faults → DeletionRequest → State → State
hard_delete_one a f d s =
    if f.anonymise_down
    then s
    else let detached : State = record s { usage = anonymise a d.user_id s.usage } in
      deleted detached (query f.delete_down tt >> hard_delete d.user_id s.db)

-- The loop over the due requests; each meets faults of its own.
unfoldable pub delete_each :
    AnalyticsService → (DeletionRequest → Faults) → List DeletionRequest → State → State
delete_each a meet [] s = s
delete_each a meet (d ∷ due) s = delete_each a meet due (hard_delete_one a (meet d) d s)

unfoldable pub run_deletion_executor :
    AnalyticsService
    → (down : Bool) → (now : ℕ) → (DeletionRequest → Faults)
    → State
    → Result (Unit {0}) × State
run_deletion_executor a true now meet s = (err database, s)
run_deletion_executor a false now meet s = (ok tt, delete_each a meet (list_due_pending now s.db) s)
