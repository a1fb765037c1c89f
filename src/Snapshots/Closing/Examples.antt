-- ===== src/Snapshots/Closing/Examples.antt =====
-- Recoveries of a running operation, and of one that has ended.
use range42_backend_api.Prelude.{
  ◌≡◌, refl, false, true, some, [], ◌∷◌, nat_eq, string_eq, option_eq, arith,
}
use range42_backend_api.Prelude.Table.{get, update, delete}
use range42_backend_api.Prelude.Result.{ok}
use range42_backend_api.Models.{
  Db, ℤ, SnapshotOperation, AttemptState, OperationState, SetState, operation?, snapshot?, owner_eq,
}
use range42_backend_api.Lifecycle.Samples.{deployment}
use range42_backend_api.Locks.{release_lock}
use range42_backend_api.Snapshots.Admission.{hosted, binding, operation_state_eq}
use range42_backend_api.Snapshots.Recovery.{validate_task, reconcile_row, reconcile_rows}
use range42_backend_api.Snapshots.Closing.{
  active, covered, is_settled, final_state, as_attempt, close_operation, close_as, keep_operation,
  store_rows, reconcile_found, reconcile_operation, set_members, set_state,
}
use range42_backend_api.Snapshots.Closing.Outcome.{Recovered, reconcile_operation-Recovered}
use range42_backend_api.Snapshots.Samples.{
  cluster, hosts, running_db, planned_db, running_operation, stored_set, guest, proof,
  succeeded_row, snapshot_row,
}

-- The tables after the recovery of `running_db`.
abbrev closed_db : Db
closed_db = record running_db {
  deployments =
      record deployment { current_attempt_id = some "a1"; state = AttemptState.succeeded } ∷ [];
  attempts =
      record snapshot_row {
        state = AttemptState.succeeded;
        rc = some (ℤ.pos 0);
        ended_at = some 200;
      }
      ∷ [];
  locks = [];
  operations =
      record running_operation { state = OperationState.succeeded; members = succeeded_row ∷ [] }
      ∷ [];
  snapshots =
      record stored_set {
        state = SetState.complete;
        members = record { member = guest; snapshot = some proof } ∷ [];
      }
      ∷ [];
}

closes : reconcile_operation cluster hosts 200 running_db "o1" ≡ ok closed_db
unfolding reconcile_operation reconcile_found hosted binding store_rows close_as covered
    close_operation keep_operation active is_settled final_state as_attempt set_members set_state
    reconcile_rows reconcile_row validate_task release_lock string_eq option_eq nat_eq
    operation_state_eq owner_eq get update delete
closes = refl

finds_operation : operation? running_db "o1" ≡ some running_operation
unfolding get string_eq
finds_operation = refl

finds_set : snapshot? running_db "s1" ≡ some (record stored_set { state = SetState.creating })
unfolding get string_eq
finds_set = refl

is_running : active running_operation.state ≡ true
unfolding active
is_running = refl

planned-ended :
    (o : SnapshotOperation) → operation? planned_db "o1" ≡ some o → active o.state ≡ false
unfolding get string_eq active
planned-ended o e = ground arith

reconcile_operation-Recovered_example :
    Recovered cluster running_db closed_db running_operation
      (record stored_set { state = SetState.creating })
reconcile_operation-Recovered_example =
    reconcile_operation-Recovered cluster hosts 200 running_db closed_db "o1" running_operation
      (record stored_set { state = SetState.creating }) finds_operation finds_set is_running closes
