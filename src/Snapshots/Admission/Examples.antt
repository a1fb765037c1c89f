-- ===== src/Snapshots/Admission/Examples.antt =====
-- Executions that begin, and that are refused.
use range42_backend_api.Prelude.{String, ◌≡◌, refl, true, some, [], ◌∷◌, string_eq, option_eq}
use range42_backend_api.Prelude.Table.{get, update, delete}
use range42_backend_api.Prelude.Result.{ok}
use range42_backend_api.Models.{
  Db, Deployment, Attempt, Owner, OperationState, lock?, attempt?, deployment?,
}
use range42_backend_api.Locks.{acquire_lock, new_lock}
use range42_backend_api.Locks.Exclusion.{IsFree}
use range42_backend_api.Lifecycle.{terminal}
use range42_backend_api.Attempts.{active_attempt}
use range42_backend_api.Snapshots.Admission.{
  hosted, binding, find_plan, start_plan, check_plan_retention, admit, begin_plan, begin_execution,
  blocked, cancel_plan, cancel_found, cancel_stored, snapshot_attempt, operation_state_eq,
}
use range42_backend_api.Snapshots.Admission.Exclusion.{
  begin_execution-exclusive, begin_execution-once,
}
use range42_backend_api.Snapshots.Samples.{
  execution, planned_db, running_db, running_operation, planned_row, planned_operation,
}

abbrev begun_db : Db
begun_db = record running_db {
  operations = record running_operation { members = planned_row ∷ [] } ∷ [];
}

admission : Unit {0}
unfolding begin_execution begin_plan admit check_plan_retention find_plan hosted binding start_plan
    active_attempt acquire_lock cancel_plan cancel_found cancel_stored string_eq option_eq
    operation_state_eq get update delete
admission = tt

begins : begin_execution execution planned_db "d1" "s1" "p" ≡ ok begun_db
unfolding admission
begins = refl

-- At its time of expiry a plan is stale.
expired :
    begin_execution (record execution { now = 360 }) planned_db "d1" "s1" "p"
    ≡ blocked "SNAPSHOT_PLAN_STALE"
unfolding admission
expired = refl

cancels :
    cancel_plan planned_db "d1" "s1" "o1"
    ≡ ok (record planned_db {
      operations = record planned_operation { state = OperationState.cancelled } ∷ [];
    })
unfolding admission
cancels = refl

cancel_refused : cancel_plan begun_db "d1" "s1" "o1" ≡ blocked "SNAPSHOT_RECONCILIATION_REQUIRED"
unfolding admission
cancel_refused = refl

begin_execution-once_example :
    begin_execution execution begun_db "d1" "s1" "p" ≡ blocked "SNAPSHOT_PLAN_STALE"
begin_execution-once_example =
    begin_execution-once execution execution planned_db begun_db "d1" "d1" "s1" "p" begins

begin_execution-exclusive_example :
    (dep : Deployment) × (deployment? planned_db "d1" ≡ some dep)
    × ((k : String) (a : Attempt)
        → dep.current_attempt_id ≡ some k
        → attempt? planned_db k ≡ some a
        → terminal a.state ≡ true)
    × IsFree execution.machine execution.now planned_db "d1"
    × (lock? begun_db "d1" ≡ some (new_lock execution.now "d1" (Owner.attempt execution.new_id) 30))
    × (attempt? begun_db execution.new_id ≡ some (snapshot_attempt execution dep))
begin_execution-exclusive_example =
    begin_execution-exclusive execution planned_db begun_db "d1" "s1" "p" begins
