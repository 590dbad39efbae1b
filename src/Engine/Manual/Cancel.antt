-- ===== src/Engine/Manual/Cancel.antt =====
-- CancelExecution on an execution of any status.
use mathlib.Core.Option
use flowscale.Prelude.{ℕ, ◌≡◌, ◌⊎◌, Option, [], ◌∷◌, ◌++◌, String, if◌then◌else◌}
use flowscale.Models.{ExecutionStatus, WorkflowEvent, cancelled}
use flowscale.Runtime.{Db, Result, ok, err, Error, ExecutionRow}
use flowscale.Repository.ExecutionRepo.{cancellable, set_status}
use flowscale.Engine.Effects.{execution_row}

-- Only an execution that is not COMPLETED, FAILED or CANCELLED is given the status.
abbrev pub cancelled_from : ExecutionStatus → ExecutionStatus
cancelled_from s = if cancellable s then cancelled else s

abbrev pub status_of : String → Db → Option ExecutionStatus
status_of id db = Option.map (λ r. r.status) (execution_row id db)

abbrev pub Cancelled : String → Result (Unit {0}) → Db → Db → Type 0
Cancelled eid r before after =
    ((e : Error) × (r ≡ err e) × (after ≡ before))
    ⊎ ((r ≡ ok tt)
        × (status_of eid after ≡ Option.map cancelled_from (status_of eid before))
        × ((e : WorkflowEvent) × (e.execution_id ≡ eid) × (after.events ≡ before.events ++ e ∷ [])))

module _ (eid : String) (now : ℕ) where
  cancel_row : ExecutionRow → ExecutionRow
  cancel_row row = if cancellable row.status then set_status cancelled now row else row
